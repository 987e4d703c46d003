-- ===== src/LocalGraph.antt =====
-- rust/rubydex/src/indexing/local_graph.rs: what indexing one document collects. An operation
-- returns the new graph and its result.
pub mod Calls
pub mod Entries
pub mod Index
pub mod Run
use rubydex.Base.{
  ℕ, Bool, true, false, not, Option, none, some, List, [], ◌∷◌, Checked, done, panic, ◌>>=◌, ◌>>◌,
  debug_assert,
}
use rubydex.Base.Map.{Map, get, insert, contains_key, push_at}
use rubydex.Model.Ids.{Text, text_eq, Hash, id_from}
use rubydex.Model.Source.{Offset, Rule, Diagnostic}
use rubydex.Model.StringRef
use rubydex.Model.StringRef.{StringRef}
use rubydex.Model.Name
use rubydex.Model.Name.{Name, NameRef, name_id, name_eq, parent_id, unresolved, inner}
use rubydex.Model.Reference.{
  ConstantReference, MethodRef, constant_reference_id, method_reference_id,
}
use rubydex.Model.Definition.{Definition, definition_id, name_id_of}
use rubydex.Model.Document
use rubydex.Model.Document.{Document}
use rubydex.Model.Dependent.{
  NameDependent, Dependents, definition, reference, child_name, nested_name,
}

pub record LocalGraph : Type 0 where
  pub uri_id : ℕ
  pub document : Document
  pub definitions : Map Definition
  pub strings : Map StringRef
  pub names : Map NameRef
  pub constant_references : Map ConstantReference
  pub method_references : Map MethodRef
  pub name_dependents : Dependents

unfoldable pub new : ℕ → Document → LocalGraph
new uri_id document = record {
  uri_id = uri_id;
  document = document;
  definitions = [];
  strings = [];
  names = [];
  constant_references = [];
  method_references = [];
  name_dependents = [];
}

-- an edge of the reverse index, if there is a name for it
unfoldable pub push_dependent : Option ℕ → NameDependent → Dependents → Dependents
push_dependent none d index = index
push_dependent (some name) d index = push_at name d index

module _ (xxh3_64 : Hash) where
  unfoldable pub add_definition : Definition → LocalGraph → Checked (LocalGraph × ℕ)
  add_definition d g = do
    let id = definition_id xxh3_64 d
    debug_assert (not (contains_key id g.definitions))
    document ← Document.add_definition id g.document
    done (
      record g {
        name_dependents = push_dependent (name_id_of d) (definition id) g.name_dependents;
        definitions = insert id d g.definitions;
        document = document;
      },
      id,
    )

  unfoldable pub intern_string : Text → LocalGraph → Checked (LocalGraph × ℕ)
  intern_string string g =
      let id = id_from xxh3_64 string in
      elim (get id g.strings) [
        | none ↦ done (record g { strings = insert id (StringRef.new string) g.strings }, id)
        | some entry ↦ do
          debug_assert (text_eq string entry.value)
          entry' ← StringRef.increment_ref_count 1 entry
          done (record g { strings = insert id entry' g.strings }, id)
      ]

  unfoldable pub add_name : Name → LocalGraph → Checked (LocalGraph × ℕ)
  unfolding push_dependent
  add_name name g =
      let id = name_id xxh3_64 name in
      elim (get id g.names) [
        | none ↦
            let children =
              push_dependent (parent_id name.parent_scope) (child_name id) g.name_dependents in
            done (
              record g {
                name_dependents = push_dependent name.nesting (nested_name id) children;
                names = insert id (unresolved name) g.names;
              },
              id,
            )
        | some entry ↦ do
          debug_assert (name_eq (inner entry) name)
          entry' ← Name.increment_ref_count 1 entry
          done (record g { names = insert id entry' g.names }, id)
      ]

  unfoldable pub add_constant_reference : ConstantReference → LocalGraph → Checked (LocalGraph × ℕ)
  add_constant_reference r g = do
    let id = constant_reference_id xxh3_64 r
    debug_assert (not (contains_key id g.constant_references))
    done (
      record g {
        name_dependents = push_at r.name_id (reference id) g.name_dependents;
        constant_references = insert id r g.constant_references;
        document = Document.add_constant_reference id g.document;
      },
      id,
    )

  unfoldable pub add_method_reference : MethodRef → LocalGraph → Checked (LocalGraph × ℕ)
  add_method_reference r g = do
    let id = method_reference_id xxh3_64 r
    debug_assert (not (contains_key id g.method_references))
    done (
      record g {
        method_references = insert id r g.method_references;
        document = Document.add_method_reference id g.document;
      },
      id,
    )

-- `get_definition_mut` and what is done with the definition, which must be there
unfoldable pub get_definition_mut :
    ℕ → (Definition → Checked Definition) → LocalGraph → Checked LocalGraph
get_definition_mut id change g = elim (get id g.definitions) [
  | none ↦ panic
  | some d ↦ do d' ← change d; done (record g { definitions = insert id d' g.definitions })
]

unfoldable pub add_diagnostic : Rule → Offset → Text → LocalGraph → LocalGraph
add_diagnostic rule offset message g =
    let diagnostic : Diagnostic = record {
      rule = rule;
      uri_id = g.uri_id;
      offset = offset;
      message = message;
    } in
    record g { document = Document.add_diagnostic diagnostic g.document }
