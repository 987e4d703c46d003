-- ===== src/Graph/Worklist/Parts.antt =====
-- The parts of `invalidate_declaration` leave the raw data of the documents alone.
use rubydex.Base.{ℕ, Option, none, some, List, [], ◌∷◌, fold, fold-respects}
use rubydex.Base.Map.{get, remove, adjust, get_or_default}
use rubydex.Model.Ids.{Hash}
use rubydex.Model.Declaration.{Declaration, as_namespace, base_of, definitions, on_namespace}
use rubydex.Model.Dependent.{NameDependent}
use rubydex.Graph.{Graph, WorkUnit}
use rubydex.Graph.Names.{unresolve_name}
use rubydex.Graph.Invalidate.{Queue}
use rubydex.Graph.Invalidate.Relation.{
  Untouched, Untouched-refl, Untouched-trans, declarations-Untouched, adjust-Untouched,
  push_work-Untouched, unresolve_name-Untouched,
}
use rubydex.Base.Unseen.{unseen-remove-le}
use rubydex.Model.Declaration.{clear_diagnostics}
use rubydex.Graph.Invalidate.{without_definition}
use rubydex.Graph.Worklist.{
  detach_definitions, requeue_reference, unresolve_seed, leave_owner, forget_member, queue_parts,
  push_definition, remove_declaration,
}

pub detach_definitions-Untouched :
    (id : ℕ) (detach : List ℕ) (g : Graph) → Untouched g (detach_definitions id detach g)
unfolding detach_definitions
detach_definitions-Untouched id [] g = Untouched-refl g
detach_definitions-Untouched id (x ∷ detach) g =
    adjust-Untouched g id (λ d. clear_diagnostics (fold without_definition (x ∷ detach) d))

requeue_reference-Untouched : (d : NameDependent) (g : Graph) → Untouched g (requeue_reference d g)
unfolding requeue_reference
requeue_reference-Untouched (NameDependent.reference id) g =
    push_work-Untouched (WorkUnit.constant_ref id) g
requeue_reference-Untouched (NameDependent.definition id) g = Untouched-refl g
requeue_reference-Untouched (NameDependent.child_name id) g = Untouched-refl g
requeue_reference-Untouched (NameDependent.nested_name id) g = Untouched-refl g

pub unresolve_seed-Untouched :
    (name_id : ℕ) (s : Graph × Queue) → Untouched s.0 (unresolve_seed name_id s).0
unfolding unresolve_seed
unresolve_seed-Untouched name_id (g, queue) =
    let h = (unresolve_name name_id g).0 in
    let deps = get_or_default name_id h.name_dependents in
    Untouched-trans g h (fold requeue_reference deps h) (unresolve_name-Untouched name_id g) (
      fold-respects Untouched Untouched-refl Untouched-trans requeue_reference
        requeue_reference-Untouched deps h)

pub leave_owner-Untouched :
    (xxh3_64 : Hash) (id : ℕ) (g : Graph) → Untouched g (leave_owner xxh3_64 id g)
unfolding leave_owner
leave_owner-Untouched xxh3_64 id g = go (get id g.declarations)
  where
    go :
        (found : Option Declaration)
        → Untouched g (elim found as (λ _. Graph) [
          | none ↦ g
          | some decl ↦
              let g' = fold push_definition (definitions decl) g in
              record g' {
                declarations =
                    adjust
                      (base_of decl).owner_id
                      (on_namespace (forget_member xxh3_64 decl))
                      g'.declarations;
              }
        ])
    go none = Untouched-refl g
    go (some decl) =
        let g' = fold push_definition (definitions decl) g in
        let m =
          adjust (base_of decl).owner_id (on_namespace (forget_member xxh3_64 decl))
            g'.declarations in
        Untouched-trans g g' (record g' { declarations = m })
          (fold-respects Untouched Untouched-refl Untouched-trans push_definition
            (λ def_id. push_work-Untouched (WorkUnit.definition def_id)) (definitions decl) g)
          (adjust-Untouched g' (base_of decl).owner_id (on_namespace (forget_member xxh3_64 decl)))

pub remove_declaration-Untouched :
    (xxh3_64 : Hash) (id : ℕ) (decl : Declaration) (seeds : List ℕ) (s : Graph × Queue)
    → Untouched s.0 (remove_declaration xxh3_64 id decl seeds s).0
unfolding remove_declaration
remove_declaration-Untouched xxh3_64 id decl seeds (g, queue) =
    let s : Graph × Queue = (g, queue_parts (as_namespace decl) queue) in
    let t = fold unresolve_seed seeds s in
    let left = leave_owner xxh3_64 id t.0 in
    Untouched-trans g left (record left { declarations = remove id left.declarations })
      (Untouched-trans g t.0 left
        (fold-respects (λ a b. Untouched a.0 b.0) (λ a. Untouched-refl a.0)
          (λ a b c. Untouched-trans a.0 b.0 c.0) unresolve_seed unresolve_seed-Untouched seeds s)
        (leave_owner-Untouched xxh3_64 id t.0))
      (declarations-Untouched left (remove id left.declarations)
        (unseen-remove-le id left.declarations))
