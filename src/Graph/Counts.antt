-- ===== src/Graph/Counts.antt =====
-- The methods of rust/rubydex/src/model/graph.rs that count the uses of strings and names, and
-- drop what is no longer used.
pub mod RoundTrip
use rubydex.Base.{
  ℕ, zero, suc, ◌+◌, Bool, true, false, Option, none, some, List, [], ◌∷◌, Checked, done, panic,
  out_of_fuel, ◌>>=◌, if◌then◌else◌,
}
use rubydex.Base.Map.{Map, get, insert, remove}
use rubydex.Model.Ids.{Text, Hash, id_from}
use rubydex.Model.StringRef
use rubydex.Model.StringRef.{StringRef}
use rubydex.Model.Name
use rubydex.Model.Name.{Name, NameRef, ParentScope, name_id, parent_id, unresolved, inner, parent}
use rubydex.Model.Definition.{Definition}
use rubydex.Model.Dependent.{NameDependent, Dependents, child_name, nested_name, without}
use rubydex.Graph.{Graph}

unfoldable pub intern_string : Hash → Text → Graph → Checked (Graph × ℕ)
intern_string xxh3_64 string g =
    let id = id_from xxh3_64 string in
    elim (get id g.strings) [
      | none ↦ done (record g { strings = insert id (StringRef.new string) g.strings }, id)
      | some entry ↦ do
        entry' ← StringRef.increment_ref_count 1 entry
        done (record g { strings = insert id entry' g.strings }, id)
    ]

unfoldable pub add_name : Hash → Name → Graph → Checked (Graph × ℕ)
add_name xxh3_64 name g =
    let id = name_id xxh3_64 name in
    elim (get id g.names) [
      | none ↦ done (record g { names = insert id (unresolved name) g.names }, id)
      | some entry ↦ do
        entry' ← Name.increment_ref_count 1 entry
        done (record g { names = insert id entry' g.names }, id)
    ]

-- the index after `remove_name_dependent`
unfoldable pub drop_dependent : ℕ → NameDependent → Dependents → Dependents
drop_dependent name d index = elim (get name index) [
  | none ↦ index
  | some deps ↦ elim (without d deps) [
    | [] ↦ remove name index
    | x ∷ rest ↦ insert name (x ∷ rest) index
  ]
]

unfoldable pub remove_name_dependent : ℕ → NameDependent → Graph → Graph
remove_name_dependent name d g = record g {
  name_dependents = drop_dependent name d g.name_dependents;
}

abbrev drop_if_some : Option ℕ → NameDependent → Dependents → Dependents
drop_if_some none d index = index
drop_if_some (some name) d index = drop_dependent name d index

-- the index without the edges from the parent and the nesting of the name
unfoldable pub drop_name_edges : ℕ → Option NameRef → Dependents → Dependents
drop_name_edges id none index = index
drop_name_edges id (some r) index =
    drop_if_some (inner r).nesting (nested_name id)
      (drop_if_some (parent_id (inner r).parent_scope) (child_name id) index)

unfoldable pub remove_name : ℕ → Graph → Graph
remove_name id g = record g {
  name_dependents = remove id (drop_name_edges id (get id g.names) g.name_dependents);
  names = remove id g.names;
}

-- the entry after a decrement, dropped when no reference is left
abbrev pub keep_or_remove {ℓ} : {V : Type ℓ} → ℕ → V × Bool → Map V → Map V
keep_or_remove id (v, left) m = if left then insert id v m else remove id m

unfoldable pub untrack_string : ℕ → Graph → Checked Graph
untrack_string id g = elim (get id g.strings) [
  | none ↦ done g
  | some entry ↦ do
    counted ← StringRef.decrement_ref_count entry
    done (record g { strings = keep_or_remove id counted g.strings })
]

unfoldable pub untrack_name : ℕ → Graph → Checked Graph
untrack_name id g = elim (get id g.names) [
  | none ↦ done g
  | some entry ↦ do
    (entry', left) ← Name.decrement_ref_count entry
    let counted = record g { names = insert id entry' g.names }
    untrack_string (inner entry).str (if left then counted else remove_name id counted)
]

unfoldable pub untrack_definition_strings : Definition → Graph → Checked Graph
untrack_definition_strings (Definition.class d) g = done g
untrack_definition_strings (Definition.singleton_class d) g = done g
untrack_definition_strings (Definition.module_definition d) g = done g
untrack_definition_strings (Definition.constant d) g = done g
untrack_definition_strings (Definition.constant_alias d) g = done g
untrack_definition_strings (Definition.constant_visibility d) g = done g
untrack_definition_strings (Definition.method_visibility d) g = untrack_string d.str_id g
untrack_definition_strings (Definition.method d) g = untrack_string d.str_id g
untrack_definition_strings (Definition.attr_accessor d) g = untrack_string d.str_id g
untrack_definition_strings (Definition.attr_reader d) g = untrack_string d.str_id g
untrack_definition_strings (Definition.attr_writer d) g = untrack_string d.str_id g
untrack_definition_strings (Definition.global_variable d) g = untrack_string d.str_id g
untrack_definition_strings (Definition.instance_variable d) g = untrack_string d.str_id g
untrack_definition_strings (Definition.class_variable d) g = untrack_string d.str_id g
untrack_definition_strings (Definition.method_alias d) g = do
  g' ← untrack_string d.new_name_str_id g
  untrack_string d.old_name_str_id g'
untrack_definition_strings (Definition.global_variable_alias d) g = do
  g' ← untrack_string d.new_name_str_id g
  untrack_string d.old_name_str_id g'

-- Only a written parent, `ParentScope::Some`, is untracked with the name; an attached one is not.
written_parent : ParentScope → Option ℕ
written_parent (parent id) = some id
written_parent _ = none

abbrev if_some : Option ℕ → (ℕ → Graph → Checked Graph) → Graph → Checked Graph
if_some none f g = done g
if_some (some id) f g = f id g

unfoldable pub untrack_name_recursive : ℕ → ℕ → Graph → Checked Graph
unfolding written_parent
untrack_name_recursive zero id g = out_of_fuel
untrack_name_recursive (suc fuel) id g = elim (get id g.names) [
  | none ↦ done g
  | some entry ↦ do
    g' ← if_some (written_parent (inner entry).parent_scope) (untrack_name_recursive fuel) g
    g'' ← if_some (inner entry).nesting (untrack_name_recursive fuel) g'
    untrack_name id g''
]
