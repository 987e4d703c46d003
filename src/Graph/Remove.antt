-- ===== src/Graph/Remove.antt =====
-- Deleting and replacing a document: `remove_document_data`, `delete_document` and
-- `consume_document_changes` of rust/rubydex/src/model/graph.rs.
pub mod Removes
pub mod Steps
pub mod Exact
pub mod Replace
use rubydex.Base.{
  ℕ, zero, suc, Bool, true, false, not, ◌||◌, Option, none, some, List, [], ◌∷◌, ◌++◌, map, Checked,
  done, panic, out_of_fuel, ◌>>=◌, unwrap, contains, fold, for_each, if◌then◌else◌,
}
use rubydex.Base.Map.{Map, get, insert, remove, adjust, is_some}
use rubydex.Model.Ids.{Text, Hash, id_from}
use rubydex.Model.Name.{NameRef, resolved, unresolved}
use rubydex.Model.Reference.{ConstantReference}
use rubydex.Model.Definition.{Definition, name_id_of}
use rubydex.Model.Declaration
use rubydex.Model.Declaration.{Declaration}
use rubydex.Model.Document.{Document}
use rubydex.Model.Dependent.{NameDependent}
use rubydex.LocalGraph.{LocalGraph}
use rubydex.Graph.{Graph, WorkUnit}
use rubydex.Graph.Counts.{
  remove_name_dependent, untrack_name, untrack_string, untrack_definition_strings,
}
use rubydex.Graph.Lookup.{definition_id_to_declaration_id}
use rubydex.Graph.Extend.{extend}
use rubydex.Graph.Invalidate.{adjust_declaration, without_definition}
use rubydex.Graph.Worklist.{invalidate}

-- a round of the loop over the method references
unfoldable pub remove_method_reference : ℕ → Graph → Checked Graph
remove_method_reference ref_id g = elim (get ref_id g.method_references) [
  | none ↦ done g
  | some r ↦
      untrack_string r.str (record g { method_references = remove ref_id g.method_references })
]

detach_constant_reference : ℕ → NameRef → Graph → Checked Graph
detach_constant_reference ref_id (unresolved n) g = done g
detach_constant_reference ref_id (resolved r) g =
    adjust_declaration r.declaration_id (Declaration.remove_constant_reference ref_id) g

-- a round of the loop over the constant references
unfoldable pub remove_constant_reference : ℕ → Graph → Checked Graph
unfolding detach_constant_reference
remove_constant_reference ref_id g = elim (get ref_id g.constant_references) [
  | none ↦ done g
  | some r ↦ do
    let removed = record g { constant_references = remove ref_id g.constant_references }
    entry ← unwrap (get r.name_id removed.names)
    detached ← detach_constant_reference ref_id entry removed
    untrack_name r.name_id
        (remove_name_dependent r.name_id (NameDependent.reference ref_id) detached)
]

note_missed : ℕ → Option ℕ → List ℕ → List ℕ
note_missed def_id none missed = missed ++ def_id ∷ []
note_missed def_id (some decl_id) missed = missed

-- the definitions for which no declaration is found
missed_definitions : Hash → Graph → List ℕ → Checked (List ℕ)
unfolding note_missed
missed_definitions xxh3_64 g ids =
    for_each
      (λ def_id missed. definition_id_to_declaration_id xxh3_64 g def_id >>= λ found.
        done (note_missed def_id found missed))
      ids []

detach_missed : List ℕ → Graph → Graph
detach_missed missed g = record g {
  declarations = map (λ e. (e.0, fold without_definition missed e.1)) g.declarations;
}

drop_definition_name : ℕ → Option ℕ → Graph → Checked Graph
drop_definition_name def_id none g = done g
drop_definition_name def_id (some name_id) g =
    untrack_name name_id (remove_name_dependent name_id (NameDependent.definition def_id) g)

-- a round of the loop over the definitions
unfoldable pub remove_definition : ℕ → Graph → Checked Graph
unfolding drop_definition_name
remove_definition def_id g = do
  d ← unwrap (get def_id g.definitions)
  dropped ←
      drop_definition_name def_id (name_id_of d)
        (record g { definitions = remove def_id g.definitions })
  untrack_definition_strings d dropped

unfoldable pub remove_document_data : Hash → Document → Graph → Checked Graph
unfolding missed_definitions detach_missed
remove_document_data xxh3_64 document g = do
  g1 ← for_each remove_method_reference document.method_reference_ids g
  g2 ← for_each remove_constant_reference document.constant_reference_ids g1
  missed ← missed_definitions xxh3_64 g2 document.definition_ids
  for_each remove_definition document.definition_ids (detach_missed missed g2)

-- the document has been found
delete_found : Hash → ℕ → ℕ → Document → Graph → Checked (Graph × Option ℕ)
delete_found xxh3_64 fuel uri_id document g = do
  g1 ←
      invalidate xxh3_64 fuel (some document) none
        (record g { documents = remove uri_id g.documents })
  g2 ← remove_document_data xxh3_64 document g1
  done (g2, some uri_id)

-- the graph, and the id of the document if there was one
unfoldable pub delete_document : Hash → ℕ → Text → Graph → Checked (Graph × Option ℕ)
unfolding delete_found
delete_document xxh3_64 fuel uri g =
    let uri_id = id_from xxh3_64 uri in
    elim (get uri_id g.documents) [
      | none ↦ done (g, none)
      | some document ↦ delete_found xxh3_64 fuel uri_id document g
    ]

remove_if_some : Hash → Option Document → Graph → Checked Graph
remove_if_some xxh3_64 none g = done g
remove_if_some xxh3_64 (some document) g = remove_document_data xxh3_64 document g

is_empty {ℓ} : {A : Type ℓ} → List A → Bool
is_empty [] = true
is_empty (x ∷ xs) = false

-- the graph into which the new document is merged
unfoldable pub make_room : Hash → ℕ → Option Document → LocalGraph → Graph → Checked Graph
unfolding remove_if_some is_empty
make_room xxh3_64 fuel old_document other removed =
    if is_some old_document || not (is_empty removed.documents)
    then (do
      g1 ← invalidate xxh3_64 fuel old_document (some other) removed
      remove_if_some xxh3_64 old_document g1)
    else done removed

unfoldable pub consume_document_changes : Hash → ℕ → LocalGraph → Graph → Checked Graph
consume_document_changes xxh3_64 fuel other g = do
  ready ←
      make_room xxh3_64 fuel (get other.uri_id g.documents) other
        (record g { documents = remove other.uri_id g.documents })
  extend other ready
