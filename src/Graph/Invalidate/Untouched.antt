-- ===== src/Graph/Invalidate/Untouched.antt =====
-- What the invalidation leaves alone: the raw data of the documents.
use rubydex.Base.{
  Ensures-map, ℕ, Bool, true, false, Option, none, some, List, Checked, done, ◌>>=◌, ◌≡◌, refl,
  for_each, unwrap, if◌then◌else◌,
}
use rubydex.Base.Map.{get, insert, get_or_default}
use rubydex.Model.Declaration
use rubydex.Model.Declaration.{Declaration}
use rubydex.Model.Dependent.{NameDependent}
use rubydex.Graph.{Graph, WorkUnit}
use rubydex.Graph.Names.{unresolve_name, unresolve_reference, detach_reference, push_work}
use rubydex.Graph.Invalidate.{
  Queue, adjust_declaration, unresolve_dependent, unresolve_dependent_name, reevaluate_reference,
  unresolve_dependent_references, queue_structural_cascade, queue_ancestor_triggered_invalidation,
  unresolve_dependents, lost_definitions, without_definition, declaration, push, is_resolved,
}
use rubydex.Graph.Invalidate.Relation.{
  insert-Untouched, Untouched-refl, Untouched-trans, push_work-Untouched, unresolve_name-Untouched,
  Leaves->>=, Leaves-read, Leaves-for_each, Untouched, Leaves, itself, graph_of,
}

pub adjust_declaration-Leaves :
    (id : ℕ) (f : Declaration → Checked Declaration) (g : Graph)
    → Leaves itself g (adjust_declaration id f g)
unfolding adjust_declaration
adjust_declaration-Leaves id f g = go (get id g.declarations) refl
  where
    go :
        (found : Option Declaration)
        → get id g.declarations ≡ found
        → Leaves itself g (elim found as (λ _. Checked Graph) [
          | none ↦ done g
          | some d ↦ do d' ← f d; done (record g { declarations = insert id d' g.declarations })
        ])
    go none h = Untouched-refl g
    go (some d) h =
        Leaves-read itself g (f d)
          (λ d'. done (record g { declarations = insert id d' g.declarations }))
          (λ d'. insert-Untouched g id d d' h)

detach_reference-Leaves :
    (id : ℕ) (s : Graph × Option ℕ) → Leaves graph_of s.0 (detach_reference id s)
unfolding detach_reference
detach_reference-Leaves id (g, none) = Untouched-refl g
detach_reference-Leaves id (g, some old) = go (get old g.declarations) refl
  where
    write : Declaration → Checked (Graph × Option ℕ)
    write d = do
      d' ← Declaration.remove_constant_reference id d
      done (record g { declarations = insert old d' g.declarations }, some old)

    go :
        (found : Option Declaration)
        → get old g.declarations ≡ found
        → Leaves graph_of g (unwrap found >>= write)
    go none h = tt
    go (some d) h =
        Leaves-read graph_of g (Declaration.remove_constant_reference id d)
          (λ d'. done (record g { declarations = insert old d' g.declarations }, some old))
          (λ d'. insert-Untouched g old d d' h)

-- a step after one that leaves the graph alone
pub Leaves-after {ℓ} :
    {T : Type ℓ} (look : T → Graph) (g h : Graph) (m : Checked T)
    → Untouched g h
    → Leaves look h m
    → Leaves look g m
Leaves-after look g h m a b =
    Ensures-map (λ t. Untouched h (look t)) (λ t. Untouched g (look t)) m b
      (λ t c. Untouched-trans g h (look t) a c)

pub unresolve_reference-Leaves : (id : ℕ) (g : Graph) → Leaves graph_of g (unresolve_reference id g)
unfolding unresolve_reference
unresolve_reference-Leaves id g =
    elim (get id g.constant_references)
      as (λ found. Leaves graph_of g (elim found as (λ _. Checked (Graph × Option ℕ)) [
        | none ↦ done (g, none)
        | some r ↦ detach_reference id (unresolve_name r.name_id g)
      ])) [
        | none ↦ Untouched-refl g
        | some r ↦
            Leaves-after graph_of g (unresolve_name r.name_id g).0
              (detach_reference id (unresolve_name r.name_id g))
              (unresolve_name-Untouched r.name_id g)
              (detach_reference-Leaves id (unresolve_name r.name_id g))
      ]

unresolve_dependent-Leaves :
    (old : ℕ) (d : NameDependent) (s : Graph × Queue)
    → Leaves graph_of s.0 (unresolve_dependent old d s)
unfolding unresolve_dependent
unresolve_dependent-Leaves old (NameDependent.reference id) (g, queue) =
    Leaves->>= itself graph_of g
      (adjust_declaration old (Declaration.remove_constant_reference id) g)
      (λ g'. done (push_work (WorkUnit.constant_ref id) g', queue))
      (adjust_declaration-Leaves old (Declaration.remove_constant_reference id) g)
      (λ g'. push_work-Untouched (WorkUnit.constant_ref id) g')
unresolve_dependent-Leaves old (NameDependent.definition id) (g, queue) =
    let pushed = push_work (WorkUnit.definition id) g in
    let adjusted = adjust_declaration old (λ d. done (without_definition id d)) pushed in
    Leaves->>= itself graph_of g adjusted
      (λ g'. done (g', if lost_definitions g' old then push (declaration old) queue else queue))
      (Leaves-after itself g pushed adjusted (push_work-Untouched (WorkUnit.definition id) g)
        (adjust_declaration-Leaves old (λ d. done (without_definition id d)) pushed))
      (λ g'. Untouched-refl g')
unresolve_dependent-Leaves old (NameDependent.child_name id) s = Untouched-refl s.0
unresolve_dependent-Leaves old (NameDependent.nested_name id) s = Untouched-refl s.0

unresolve_dependents-Leaves :
    (dependents : List NameDependent) (s : Graph × Option ℕ) (queue : Queue)
    → Leaves graph_of s.0 (unresolve_dependents dependents s queue)
unfolding unresolve_dependents
unresolve_dependents-Leaves dependents (g, none) queue = Untouched-refl g
unresolve_dependents-Leaves dependents (g, some old) queue =
    Leaves-for_each graph_of (unresolve_dependent old) (unresolve_dependent-Leaves old) dependents
      (g, queue)

pub unresolve_dependent_name-Leaves :
    (name_id : ℕ) (s : Graph × Queue) → Leaves graph_of s.0 (unresolve_dependent_name name_id s)
unfolding unresolve_dependent_name
unresolve_dependent_name-Leaves name_id (g, queue) =
    let dependents = get_or_default name_id g.name_dependents in
    let queue' = queue_structural_cascade g name_id queue in
    Leaves-after graph_of g (unresolve_name name_id g).0
      (unresolve_dependents dependents (unresolve_name name_id g) queue')
      (unresolve_name-Untouched name_id g)
      (unresolve_dependents-Leaves dependents (unresolve_name name_id g) queue')

reevaluate_reference-Leaves :
    (b : Bool) (d : NameDependent) (g : Graph) → Leaves itself g (reevaluate_reference b d g)
unfolding reevaluate_reference
reevaluate_reference-Leaves true (NameDependent.reference id) g =
    Leaves->>= graph_of itself g (unresolve_reference id g)
      (λ s. done (push_work (WorkUnit.constant_ref id) s.0)) (unresolve_reference-Leaves id g)
      (λ s. push_work-Untouched (WorkUnit.constant_ref id) s.0)
reevaluate_reference-Leaves false (NameDependent.reference id) g =
    push_work-Untouched (WorkUnit.constant_ref id) g
reevaluate_reference-Leaves true (NameDependent.definition id) g = Untouched-refl g
reevaluate_reference-Leaves true (NameDependent.child_name id) g = Untouched-refl g
reevaluate_reference-Leaves true (NameDependent.nested_name id) g = Untouched-refl g
reevaluate_reference-Leaves false (NameDependent.definition id) g = Untouched-refl g
reevaluate_reference-Leaves false (NameDependent.child_name id) g = Untouched-refl g
reevaluate_reference-Leaves false (NameDependent.nested_name id) g = Untouched-refl g

pub unresolve_dependent_references-Leaves :
    (name_id : ℕ) (s : Graph × Queue)
    → Leaves graph_of s.0 (unresolve_dependent_references name_id s)
unfolding unresolve_dependent_references
unresolve_dependent_references-Leaves name_id (g, queue) =
    let dependents = get_or_default name_id g.name_dependents in
    Leaves->>= itself graph_of g
      (for_each (reevaluate_reference (is_resolved g name_id)) dependents g)
      (λ g'. done (g', queue_ancestor_triggered_invalidation g name_id queue))
      (Leaves-for_each itself (reevaluate_reference (is_resolved g name_id))
        (reevaluate_reference-Leaves (is_resolved g name_id)) dependents g)
      (λ g'. Untouched-refl g')
