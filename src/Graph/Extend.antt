-- ===== src/Graph/Extend.antt =====
-- `extend` of rust/rubydex/src/model/graph.rs: merging the local graph of a document.
pub mod Merge
pub mod Laws
use rubydex.Base.{
  ℕ, Bool, true, false, not, Option, none, some, List, [], ◌∷◌, ◌++◌, map, Checked, done, ◌>>=◌,
  ◌>>◌, debug_assert, if◌then◌else◌,
}
use rubydex.Base.Map.{Map, get, insert, contains_key, keys, get_or_default}
use rubydex.Model.Ids.{text_eq}
use rubydex.Model.StringRef
use rubydex.Model.StringRef.{StringRef}
use rubydex.Model.Name
use rubydex.Model.Name.{NameRef, name_eq, inner}
use rubydex.Model.Dependent.{NameDependent, Dependents, has_dependent}
use rubydex.LocalGraph.{LocalGraph}
use rubydex.Graph.{Graph, WorkUnit, definition, constant_ref}

-- one round of the loop over the strings
unfoldable pub merge_string : ℕ → StringRef → Map StringRef → Checked (Map StringRef)
merge_string id s m = elim (get id m) [
  | none ↦ done (insert id s m)
  | some entry ↦ do
    debug_assert (text_eq s.value entry.value)
    entry' ← StringRef.increment_ref_count s.ref_count entry
    done (insert id entry' m)
]

unfoldable pub merge_strings : Map StringRef → Map StringRef → Checked (Map StringRef)
merge_strings [] m = done m
merge_strings ((id, s) ∷ rest) m = merge_string id s m >>= merge_strings rest

-- one round of the loop over the names
unfoldable pub merge_name : ℕ → NameRef → Map NameRef → Checked (Map NameRef)
merge_name id r m = elim (get id m) [
  | none ↦ done (insert id r m)
  | some entry ↦ do
    debug_assert (name_eq (inner entry) (inner r))
    entry' ← Name.increment_ref_count (inner r).ref_count entry
    done (insert id entry' m)
]

unfoldable pub merge_names : Map NameRef → Map NameRef → Checked (Map NameRef)
merge_names [] m = done m
merge_names ((id, r) ∷ rest) m = merge_name id r m >>= merge_names rest

-- `insert`, with the assertion that the key is new
unfoldable pub insert_new {ℓ} : {V : Type ℓ} → ℕ → V → Map V → Checked (Map V)
insert_new id v m = do debug_assert (not (contains_key id m)); done (insert id v m)

unfoldable pub insert_all {ℓ} : {V : Type ℓ} → Map V → Map V → Checked (Map V)
insert_all [] m = done m
insert_all ((id, v) ∷ rest) m = insert_new id v m >>= insert_all rest

unfoldable pub push_dependents : List NameDependent → List NameDependent → List NameDependent
push_dependents [] global = global
push_dependents (d ∷ deps) global =
    push_dependents deps (if has_dependent d global then global else global ++ d ∷ [])

unfoldable pub merge_dependents : Dependents → Dependents → Dependents
merge_dependents [] m = m
merge_dependents ((name, deps) ∷ rest) m =
    merge_dependents rest (insert name (push_dependents deps (get_or_default name m)) m)

unfoldable pub extend : LocalGraph → Graph → Checked Graph
extend other g = do
  documents ← insert_new other.uri_id other.document g.documents
  strings ← merge_strings other.strings g.strings
  names ← merge_names other.names g.names
  definitions ← insert_all other.definitions g.definitions
  constant_references ← insert_all other.constant_references g.constant_references
  method_references ← insert_all other.method_references g.method_references
  done (record g {
    documents = documents;
    strings = strings;
    names = names;
    definitions = definitions;
    constant_references = constant_references;
    method_references = method_references;
    name_dependents = merge_dependents other.name_dependents g.name_dependents;
    pending_work =
        g.pending_work
        ++ (map definition (keys other.definitions)
            ++ map constant_ref (keys other.constant_references));
  })
