-- ===== src/Graph/Invalidate.antt =====
-- The worklist of rust/rubydex/src/model/graph.rs that takes back what a changed or deleted
-- document invalidates. The queue is a `Vec` used as a stack: its top is the head of the list here.
pub mod Relation
pub mod Untouched
use rubydex.Base.{
  ℕ, zero, suc, Bool, true, false, not, ◌||◌, Option, none, some, List, [], ◌∷◌, ◌++◌, map, Checked,
  done, panic, out_of_fuel, ◌>>=◌, unwrap, contains, set_insert, set_remove, fold, for_each,
  if◌then◌else◌,
}
use rubydex.Base.Map.{Map, get, insert, remove, adjust, contains_key, values, get_or_default}
use rubydex.Model.Ids.{Hash, id_from}
use rubydex.Model.Name.{NameRef, resolved, unresolved}
use rubydex.Model.Definition.{name_id_of}
use rubydex.Model.Declaration
use rubydex.Model.Declaration.{
  Ancestor, Ancestors, ancestor_list, NamespaceDeclaration, Namespace, Declaration, as_namespace,
  on_namespace, base_of, definitions, has_no_definitions, clear_diagnostics, unqualified_name,
}
use rubydex.Model.Dependent.{NameDependent}
use rubydex.Graph.{Graph, WorkUnit}
use rubydex.Graph.Names.{unresolve_name, unresolve_reference, push_work}

pub data InvalidationItem : Type 0 where
  declaration name references : ℕ → InvalidationItem

abbrev pub Queue : Type 0
Queue = List InvalidationItem

abbrev pub push : InvalidationItem → Queue → Queue
push item queue = item ∷ queue

-- `matches!(self.names.get(name_id), Some(NameRef::Resolved(_)))`
unfoldable pub is_resolved : Graph → ℕ → Bool
is_resolved g name_id = elim (get name_id g.names) [ some (resolved r) ↦ true | _ ↦ false ]

-- what a round of `queue_structural_cascade` queues
abbrev pub structural : NameDependent → Queue → Queue
structural (NameDependent.child_name id) queue = push (name id) queue
structural (NameDependent.nested_name id) queue = push (name id) queue
structural _ queue = queue

unfoldable pub queue_structural_cascade : Graph → ℕ → Queue → Queue
queue_structural_cascade g name_id = fold structural (get_or_default name_id g.name_dependents)

-- what a round of `queue_ancestor_triggered_invalidation` queues
abbrev pub ancestor_triggered : NameDependent → Queue → Queue
ancestor_triggered (NameDependent.child_name id) queue = push (name id) queue
ancestor_triggered (NameDependent.nested_name id) queue = push (references id) queue
ancestor_triggered _ queue = queue

unfoldable pub queue_ancestor_triggered_invalidation : Graph → ℕ → Queue → Queue
queue_ancestor_triggered_invalidation g name_id =
    fold ancestor_triggered (get_or_default name_id g.name_dependents)

definition_name : Graph → ℕ → Option ℕ
definition_name g def_id = elim (get def_id g.definitions) [ none ↦ none | some d ↦ name_id_of d ]

reference_name : Graph → ℕ → Option ℕ
reference_name g ref_id = elim (get ref_id g.constant_references) [
  | none ↦ none
  | some r ↦ some r.name_id
]

insert_resolved : Graph → Option ℕ → List ℕ → List ℕ
insert_resolved g none names = names
insert_resolved g (some name_id) names =
    if is_resolved g name_id then set_insert name_id names else names

or_empty : Option (List ℕ) → List ℕ
or_empty none = []
or_empty (some l) = l

unfoldable pub names_for_declaration : Graph → ℕ → List ℕ
unfolding definition_name reference_name insert_resolved or_empty
names_for_declaration g decl_id = elim (get decl_id g.declarations) [
  | none ↦ []
  | some decl ↦
      fold (λ ref_id. insert_resolved g (reference_name g ref_id))
        (or_empty (Declaration.constant_references decl))
        (fold (λ def_id. insert_resolved g (definition_name g def_id)) (definitions decl) [])
]

-- a write through `self.declarations.get_mut`, if the declaration is there
unfoldable pub adjust_declaration : ℕ → (Declaration → Checked Declaration) → Graph → Checked Graph
adjust_declaration id f g = elim (get id g.declarations) [
  | none ↦ done g
  | some d ↦ do d' ← f d; done (record g { declarations = insert id d' g.declarations })
]

abbrev pub without_definition : ℕ → Declaration → Declaration
without_definition def_id d = (Declaration.remove_definition def_id d).0

lost_definitions : Graph → ℕ → Bool
lost_definitions g id = elim (get id g.declarations) [
  | none ↦ false
  | some d ↦ has_no_definitions d
]

-- a round of the loop of `unresolve_dependent_name`
unfoldable pub unresolve_dependent : ℕ → NameDependent → Graph × Queue → Checked (Graph × Queue)
unfolding lost_definitions
unresolve_dependent old_decl_id (NameDependent.reference ref_id) (g, queue) = do
  g' ← adjust_declaration old_decl_id (Declaration.remove_constant_reference ref_id) g
  done (push_work (WorkUnit.constant_ref ref_id) g', queue)
unresolve_dependent old_decl_id (NameDependent.definition def_id) (g, queue) = do
  g' ←
      adjust_declaration old_decl_id (λ d. done (without_definition def_id d))
        (push_work (WorkUnit.definition def_id) g)
  done (g', if lost_definitions g' old_decl_id then push (declaration old_decl_id) queue else queue)
unresolve_dependent old_decl_id _ state = done state

-- the loop of `unresolve_dependent_name`
unfoldable pub unresolve_dependents :
    List NameDependent → Graph × Option ℕ → Queue → Checked (Graph × Queue)
unresolve_dependents dependents (g, none) queue = done (g, queue)
unresolve_dependents dependents (g, some old_decl_id) queue =
    for_each (unresolve_dependent old_decl_id) dependents (g, queue)

unfoldable pub unresolve_dependent_name : ℕ → Graph × Queue → Checked (Graph × Queue)
unfolding unresolve_dependents
unresolve_dependent_name name_id (g, queue) =
    unresolve_dependents (get_or_default name_id g.name_dependents) (unresolve_name name_id g)
      (queue_structural_cascade g name_id queue)

-- a round of the loop of `unresolve_dependent_references`
unfoldable pub reevaluate_reference : Bool → NameDependent → Graph → Checked Graph
reevaluate_reference true (NameDependent.reference ref_id) g = do
  (g', old) ← unresolve_reference ref_id g
  done (push_work (WorkUnit.constant_ref ref_id) g')
reevaluate_reference false (NameDependent.reference ref_id) g =
    done (push_work (WorkUnit.constant_ref ref_id) g)
reevaluate_reference _ _ g = done g

unfoldable pub unresolve_dependent_references : ℕ → Graph × Queue → Checked (Graph × Queue)
unresolve_dependent_references name_id (g, queue) = do
  g' ←
      for_each (reevaluate_reference (is_resolved g name_id))
        (get_or_default name_id g.name_dependents) g
  done (g', queue_ancestor_triggered_invalidation g name_id queue)
