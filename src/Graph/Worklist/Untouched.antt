-- ===== src/Graph/Worklist/Untouched.antt =====
-- The whole invalidation leaves the raw data of the documents alone.
use rubydex.Base.{
  ℕ, zero, suc, Bool, true, false, not, ◌||◌, Option, none, some, List, [], ◌∷◌, Checked, done,
  ◌>>=◌, ◌≡◌, subst, contains, set_insert, fold, fold-respects, unwrap, if◌then◌else◌,
}
use rubydex.Base.Map.{Map, get, adjust, contains_key, keys}
use rubydex.Model.Ids.{Hash}
use rubydex.Model.Declaration
use rubydex.Model.Declaration.{
  Declaration, Ancestor, ancestor_list, Namespace, NamespaceDeclaration, as_namespace, base_of,
  has_no_definitions, definitions, on_namespace,
}
use rubydex.Model.Document.{Document}
use rubydex.LocalGraph.{LocalGraph}
use rubydex.Graph.{Graph, WorkUnit}
use rubydex.Graph.Names.{push_work}
use rubydex.Graph.Invalidate.{
  InvalidationItem, declaration, name, references, Queue, names_for_declaration,
  queue_ancestor_triggered_invalidation, unresolve_dependent_name, unresolve_dependent_references,
}
use rubydex.Graph.Invalidate.Relation.{
  Untouched, Untouched-refl, Untouched-trans, adjust-Untouched, push_work-Untouched, Leaves,
  Leaves->>=, Leaves-read, itself, graph_of,
}
use rubydex.Graph.Invalidate.Untouched.{
  Leaves-after, unresolve_dependent_name-Leaves, unresolve_dependent_references-Leaves,
}
use rubydex.Model.Declaration.{clear_diagnostics}
use rubydex.Graph.Worklist.{
  remove_descendant, Worklist, detach_definitions, remove_declaration, leave_ancestor,
  leave_ancestors, requeue_ancestors, clear_chain, namespace_in, refresh_namespace,
  update_namespace, update_declaration, invalidate_declaration, on_graph_and_queue, invalidate_item,
  taken_for, left_by, invalidate_loop, invalidate_graph, detachments, touched, push_declaration,
  invalidate,
}
use rubydex.Graph.Worklist.Parts.{detach_definitions-Untouched, remove_declaration-Untouched}

leave_ancestors-Untouched :
    (id : ℕ) (ns : Namespace) (g : Graph) → Untouched g (leave_ancestors id ns g)
unfolding leave_ancestors leave_ancestor
leave_ancestors-Untouched id ns g =
    fold-respects Untouched Untouched-refl Untouched-trans (leave_ancestor id) each
      (ancestor_list (Declaration.inner ns).ancestors) g
  where
    each : (a : Ancestor) (h : Graph) → Untouched h (leave_ancestor id a h)
    each (Ancestor.complete a) h = adjust-Untouched h a (on_namespace (remove_descendant id))
    each (Ancestor.partial a) h = Untouched-refl h

requeue_ancestors-Untouched : (id : ℕ) (g : Graph) → Untouched g (requeue_ancestors id g)
unfolding requeue_ancestors
requeue_ancestors-Untouched id g =
    let m = adjust id (on_namespace clear_chain) g.declarations in
    let h = record g { declarations = m } in
    Untouched-trans g h (push_work (WorkUnit.ancestors id) h)
      (adjust-Untouched g id (on_namespace clear_chain))
      (push_work-Untouched (WorkUnit.ancestors id) h)

refresh_namespace-Leaves :
    (id : ℕ) (seeds : List ℕ) (ns : Namespace) (s : Graph × Queue)
    → Leaves graph_of s.0 (refresh_namespace id seeds ns s)
unfolding refresh_namespace
refresh_namespace-Leaves id seeds ns (g, queue) =
    let left = leave_ancestors id ns g in
    let requeued = requeue_ancestors id left in
    Leaves-read graph_of g (unwrap (namespace_in left id))
      (λ now. done (
        requeued,
        fold (queue_ancestor_triggered_invalidation requeued) seeds
            (fold push_declaration (Declaration.inner now).descendants queue),
      ))
      (λ now.
        Untouched-trans g left requeued (leave_ancestors-Untouched id ns g)
          (requeue_ancestors-Untouched id left))

Leaves-if :
    (b : Bool) (g : Graph) (m n : Checked Worklist)
    → Leaves (λ v. v.graph) g m
    → Leaves (λ v. v.graph) g n
    → Leaves (λ v. v.graph) g (if b then m else n)
Leaves-if true g m n x y = x
Leaves-if false g m n x y = y

update_namespace-Leaves :
    (id : ℕ) (seeds : List ℕ) (ns : Option Namespace) (w : Worklist)
    → Leaves (λ v. v.graph) w.graph (update_namespace id seeds ns w)
unfolding update_namespace
update_namespace-Leaves id seeds none w = Untouched-refl w.graph
update_namespace-Leaves id seeds (some ns) w =
    Leaves->>= graph_of (λ v. v.graph) w.graph (refresh_namespace id seeds ns (w.graph, w.queue))
      (λ s. done (record w { graph = s.0; queue = s.1 }))
      (refresh_namespace-Leaves id seeds ns (w.graph, w.queue)) (λ s. Untouched-refl s.0)

update_declaration-Leaves :
    (id : ℕ) (seeds : List ℕ) (w : Worklist)
    → Leaves (λ v. v.graph) w.graph (update_declaration id seeds w)
unfolding update_declaration
update_declaration-Leaves id seeds w =
    let w' = record w { visited = set_insert id w.visited } in
    Leaves-if (contains w.visited id) w.graph (done w)
      (update_namespace id seeds (namespace_in w.graph id) w') (Untouched-refl w.graph)
      (update_namespace-Leaves id seeds (namespace_in w.graph id) w')

invalidate_declaration-Leaves :
    (xxh3_64 : Hash) (id : ℕ) (detach : List ℕ) (w : Worklist)
    → Leaves (λ v. v.graph) w.graph (invalidate_declaration xxh3_64 id detach w)
unfolding invalidate_declaration
invalidate_declaration-Leaves xxh3_64 id detach w =
    let seeds = names_for_declaration w.graph id in
    let g = detach_definitions id detach w.graph in
    let w' = record w { graph = g } in
    let detached = detach_definitions-Untouched id detach w.graph in
    elim (get id g.declarations)
      as (λ found.
        Leaves (λ v. v.graph) w.graph
          (elim found as (λ _. Checked Worklist) [
            | none ↦ done w'
            | some decl ↦
                if has_no_definitions decl
                  || not (contains_key (base_of decl).owner_id g.declarations)
                then done (record w {
                  graph = (remove_declaration xxh3_64 id decl seeds (g, w.queue)).0;
                  queue = (remove_declaration xxh3_64 id decl seeds (g, w.queue)).1;
                })
                else update_declaration id seeds w'
          ])) [
            | none ↦ detached
            | some decl ↦
                let s = remove_declaration xxh3_64 id decl seeds (g, w.queue) in
                Leaves-if
                  (has_no_definitions decl
                    || not (contains_key (base_of decl).owner_id g.declarations))
                  w.graph (done (record w { graph = s.0; queue = s.1 }))
                  (update_declaration id seeds w')
                  (Untouched-trans w.graph g s.0 detached
                    (remove_declaration-Untouched xxh3_64 id decl seeds (g, w.queue)))
                  (Leaves-after (λ v. v.graph) w.graph g (update_declaration id seeds w') detached
                    (update_declaration-Leaves id seeds w'))
          ]

on_graph_and_queue-Leaves :
    (f : Graph × Queue → Checked (Graph × Queue)) (w : Worklist)
    → ((s : Graph × Queue) → Leaves graph_of s.0 (f s))
    → Leaves (λ v. v.graph) w.graph (on_graph_and_queue f w)
unfolding on_graph_and_queue
on_graph_and_queue-Leaves f w each =
    Leaves->>= graph_of (λ v. v.graph) w.graph (f (w.graph, w.queue))
      (λ s. done (record w { graph = s.0; queue = s.1 })) (each (w.graph, w.queue))
      (λ s. Untouched-refl s.0)

invalidate_item-Leaves :
    (xxh3_64 : Hash) (item : InvalidationItem) (detach : List ℕ) (w : Worklist)
    → Leaves (λ v. v.graph) w.graph (invalidate_item xxh3_64 item detach w)
unfolding invalidate_item
invalidate_item-Leaves xxh3_64 (declaration id) detach w =
    invalidate_declaration-Leaves xxh3_64 id detach w
invalidate_item-Leaves xxh3_64 (name id) detach w =
    on_graph_and_queue-Leaves (unresolve_dependent_name id) w (unresolve_dependent_name-Leaves id)
invalidate_item-Leaves xxh3_64 (references id) detach w =
    on_graph_and_queue-Leaves (unresolve_dependent_references id) w
      (unresolve_dependent_references-Leaves id)

invalidate_loop-Leaves :
    (xxh3_64 : Hash) (fuel : ℕ) (pending : Map (List ℕ)) (w : Worklist)
    → Leaves (λ v. v.graph) w.graph (invalidate_loop xxh3_64 fuel pending w)
unfolding invalidate_loop
invalidate_loop-Leaves xxh3_64 zero pending w = tt
invalidate_loop-Leaves xxh3_64 (suc fuel) pending w =
    go w.queue (λ item. invalidate_loop-Leaves xxh3_64 fuel (left_by item pending))
  where
    go :
        (queue : Queue)
        → ((item : InvalidationItem) (v : Worklist)
            → Leaves (λ v. v.graph) v.graph (invalidate_loop xxh3_64 fuel (left_by item pending) v))
        → Leaves
            (λ v. v.graph)
            w.graph
            (elim queue as (λ _. Checked Worklist) [
              | [] ↦ done w
              | item ∷ rest ↦ do
                w' ←
                    invalidate_item xxh3_64 item
                      (taken_for item pending)
                      (record w { queue = rest })
                invalidate_loop xxh3_64 fuel (left_by item pending) w'
            ])
    go [] next = Untouched-refl w.graph
    go (item ∷ rest) next =
        Leaves->>= (λ v. v.graph) (λ v. v.graph) w.graph
          (invalidate_item xxh3_64 item (taken_for item pending) (record w { queue = rest }))
          (invalidate_loop xxh3_64 fuel (left_by item pending))
          (invalidate_item-Leaves xxh3_64 item (taken_for item pending) (record w { queue = rest }))
          (next item)

invalidate_graph-Leaves :
    (xxh3_64 : Hash) (fuel : ℕ) (items : Queue) (pending : Map (List ℕ)) (g : Graph)
    → Leaves itself g (invalidate_graph xxh3_64 fuel items pending g)
unfolding invalidate_graph
invalidate_graph-Leaves xxh3_64 fuel items pending g =
    let w : Worklist = record { graph = g; queue = items; visited = [] } in
    Leaves->>= (λ v. v.graph) itself g (invalidate_loop xxh3_64 fuel pending w) (λ v. done v.graph)
      (invalidate_loop-Leaves xxh3_64 fuel pending w) (λ v. Untouched-refl v.graph)

pub invalidate-Leaves :
    (xxh3_64 : Hash) (fuel : ℕ) (old : Option Document) (new : Option LocalGraph) (g : Graph)
    → Leaves itself g (invalidate xxh3_64 fuel old new g)
unfolding invalidate
invalidate-Leaves xxh3_64 fuel old new g =
    Leaves-read itself g (detachments xxh3_64 g old)
      (λ pending.
        let items = touched g new (fold push_declaration (keys pending) []) in
        elim items as (λ _. Checked Graph) [
          | [] ↦ done g
          | item ∷ rest ↦ invalidate_graph xxh3_64 fuel (item ∷ rest) pending g
        ])
      (λ pending. go pending (touched g new (fold push_declaration (keys pending) [])))
  where
    go :
        (pending : Map (List ℕ)) (items : Queue)
        → Leaves itself g (elim items as (λ _. Checked Graph) [
          | [] ↦ done g
          | item ∷ rest ↦ invalidate_graph xxh3_64 fuel (item ∷ rest) pending g
        ])
    go pending [] = Untouched-refl g
    go pending (item ∷ rest) = invalidate_graph-Leaves xxh3_64 fuel (item ∷ rest) pending g

-- Whatever documents change, an invalidation that does not panic leaves the documents, the
-- definitions, the strings, the references and the reverse index as they are; of the names it
-- changes only what they are resolved to; it adds no declaration, and drops none of the work that
-- was pending.
pub invalidate-Untouched :
    (xxh3_64 : Hash) (fuel : ℕ) (old : Option Document) (new : Option LocalGraph) (g g' : Graph)
    → invalidate xxh3_64 fuel old new g ≡ done g'
    → Untouched g g'
invalidate-Untouched xxh3_64 fuel old new g g' h =
    subst (Leaves itself g) h (invalidate-Leaves xxh3_64 fuel old new g)
