-- ===== src/Graph/Worklist.antt =====
-- The worklist of rust/rubydex/src/model/graph.rs: `invalidate_declaration`, the loop around it and
-- `invalidate`, which fills the queue.
pub mod Parts
pub mod Untouched
use rubydex.Base.{
  ℕ, zero, suc, Bool, true, false, not, ◌||◌, Option, none, some, List, [], ◌∷◌, ◌++◌, map, Checked,
  done, panic, out_of_fuel, ◌>>=◌, unwrap, contains, set_insert, set_remove, fold, for_each,
  if◌then◌else◌,
}
use rubydex.Base.Map.{
  Map, get, insert, remove, adjust, contains_key, keys, values, get_or_default, push_at,
}
use rubydex.Model.Ids.{Hash, id_from}
use rubydex.Model.Name.{NameRef, resolved, unresolved}
use rubydex.Model.Name
use rubydex.Model.Reference.{ConstantReference}
use rubydex.Model.Definition.{Definition, name_id_of}
use rubydex.Model.Declaration
use rubydex.Model.Declaration.{
  Ancestor, Ancestors, ancestor_list, NamespaceDeclaration, Namespace, Declaration, as_namespace,
  on_namespace, base_of, definitions, has_no_definitions, clear_diagnostics, unqualified_name,
  singleton_class,
}
use rubydex.Model.Document.{Document}
use rubydex.Model.Dependent.{NameDependent}
use rubydex.LocalGraph.{LocalGraph}
use rubydex.Graph.{Graph, WorkUnit}
use rubydex.Graph.Names.{name_id_to_declaration_id, unresolve_name, push_work}
use rubydex.Graph.Lookup.{definition_id_to_declaration_id}
use rubydex.Graph.Invalidate.{
  InvalidationItem, declaration, name, references, Queue, push, queue_structural_cascade,
  queue_ancestor_triggered_invalidation, names_for_declaration, without_definition,
  unresolve_dependent_name, unresolve_dependent_references,
}

-- the first step of `invalidate_declaration`
unfoldable pub detach_definitions : ℕ → List ℕ → Graph → Graph
detach_definitions decl_id [] g = g
detach_definitions decl_id (x ∷ detach) g = record g {
  declarations =
      adjust decl_id (λ d. clear_diagnostics (fold without_definition (x ∷ detach) d))
        g.declarations;
}

abbrev push_declaration : ℕ → Queue → Queue
push_declaration id = push (declaration id)

push_if_some : Option ℕ → Queue → Queue
push_if_some none queue = queue
push_if_some (some id) queue = push_declaration id queue

queue_parts : Option Namespace → Queue → Queue
unfolding push_if_some
queue_parts none queue = queue
queue_parts (some ns) queue = fold push_declaration (Declaration.inner ns).descendants (
    fold push_declaration (values (Declaration.inner ns).members)
      (push_if_some (Declaration.inner ns).singleton_class_id queue))

requeue_reference : NameDependent → Graph → Graph
requeue_reference (NameDependent.reference ref_id) g = push_work (WorkUnit.constant_ref ref_id) g
requeue_reference _ g = g

-- a round of the loop over the names of a declaration that is removed
unfoldable pub unresolve_seed : ℕ → Graph × Queue → Graph × Queue
unfolding requeue_reference
unresolve_seed name_id (g, queue) =
    let unresolved_graph = (unresolve_name name_id g).0 in
    (
      fold requeue_reference (get_or_default name_id unresolved_graph.name_dependents)
          unresolved_graph,
      queue_structural_cascade unresolved_graph name_id queue,
    )

is_singleton_class : Declaration → Bool
is_singleton_class (Declaration.namespace (singleton_class d)) = true
is_singleton_class _ = false

forget_member : Hash → Declaration → NamespaceDeclaration → NamespaceDeclaration
unfolding is_singleton_class
forget_member xxh3_64 decl owner =
    if is_singleton_class decl
    then record owner { singleton_class_id = none }
    else record owner { members = remove (id_from xxh3_64 (unqualified_name decl)) owner.members }

abbrev push_definition : ℕ → Graph → Graph
push_definition def_id = push_work (WorkUnit.definition def_id)

-- what a removed declaration leaves: definitions to resolve again, and no entry in its owner
unfoldable pub leave_owner : Hash → ℕ → Graph → Graph
unfolding forget_member
leave_owner xxh3_64 decl_id g = elim (get decl_id g.declarations) [
  | none ↦ g
  | some decl ↦
      let g' = fold push_definition (definitions decl) g in
      record g' {
        declarations =
            adjust (base_of decl).owner_id (on_namespace (forget_member xxh3_64 decl))
              g'.declarations;
      }
]

unfoldable pub remove_declaration : Hash → ℕ → Declaration → List ℕ → Graph × Queue → Graph × Queue
unfolding queue_parts
remove_declaration xxh3_64 decl_id decl seeds (g, queue) =
    let (g', queue') = fold unresolve_seed seeds (g, queue_parts (as_namespace decl) queue) in
    let left = leave_owner xxh3_64 decl_id g' in
    (record left { declarations = remove decl_id left.declarations }, queue')

remove_descendant : ℕ → NamespaceDeclaration → NamespaceDeclaration
remove_descendant id d = record d { descendants = set_remove id d.descendants }

-- a round of the loop over the ancestors
leave_ancestor : ℕ → Ancestor → Graph → Graph
unfolding remove_descendant
leave_ancestor decl_id (Ancestor.complete id) g = record g {
  declarations = adjust id (on_namespace (remove_descendant decl_id)) g.declarations;
}
leave_ancestor decl_id (Ancestor.partial id) g = g

clear_chain : NamespaceDeclaration → NamespaceDeclaration
clear_chain d = record d { ancestors = Ancestors.partial []; descendants = [] }

namespace_in : Graph → ℕ → Option Namespace
namespace_in g id = elim (get id g.declarations) [ none ↦ none | some d ↦ as_namespace d ]

leave_ancestors : ℕ → Namespace → Graph → Graph
unfolding leave_ancestor
leave_ancestors decl_id ns =
    fold (leave_ancestor decl_id) (ancestor_list (Declaration.inner ns).ancestors)

-- the graph in which the namespace has lost its chain, and its ancestors are work for the resolver
requeue_ancestors : ℕ → Graph → Graph
unfolding clear_chain
requeue_ancestors decl_id g =
    push_work (WorkUnit.ancestors decl_id)
      (record g { declarations = adjust decl_id (on_namespace clear_chain) g.declarations })

unfoldable pub refresh_namespace : ℕ → List ℕ → Namespace → Graph × Queue → Checked (Graph × Queue)
unfolding leave_ancestors requeue_ancestors namespace_in
refresh_namespace decl_id seeds ns (g, queue) = do
  let left = leave_ancestors decl_id ns g
  now ← unwrap (namespace_in left decl_id)
  let requeued = requeue_ancestors decl_id left
  done (
    requeued,
    fold (queue_ancestor_triggered_invalidation requeued) seeds
        (fold push_declaration (Declaration.inner now).descendants queue),
  )

-- the state of the worklist: the graph, the queue and `visited_declarations`
pub record Worklist : Type 0 where
  pub graph : Graph
  pub queue : Queue
  pub visited : List ℕ

update_namespace : ℕ → List ℕ → Option Namespace → Worklist → Checked Worklist
update_namespace decl_id seeds none w = done w
update_namespace decl_id seeds (some ns) w = do
  (g, queue) ← refresh_namespace decl_id seeds ns (w.graph, w.queue)
  done (record w { graph = g; queue = queue })

unfoldable pub update_declaration : ℕ → List ℕ → Worklist → Checked Worklist
unfolding update_namespace namespace_in
update_declaration decl_id seeds w =
    if contains w.visited decl_id
    then done w
    else update_namespace decl_id seeds (namespace_in w.graph decl_id)
        (record w { visited = set_insert decl_id w.visited })

unfoldable pub invalidate_declaration : Hash → ℕ → List ℕ → Worklist → Checked Worklist
invalidate_declaration xxh3_64 decl_id detach w =
    let seeds = names_for_declaration w.graph decl_id in
    let g = detach_definitions decl_id detach w.graph in
    elim (get decl_id g.declarations) [
      | none ↦ done (record w { graph = g })
      | some decl ↦
          if has_no_definitions decl || not (contains_key (base_of decl).owner_id g.declarations)
          then (let (g', queue) = remove_declaration xxh3_64 decl_id decl seeds (g, w.queue) in
              done (record w { graph = g'; queue = queue }))
          else update_declaration decl_id seeds (record w { graph = g })
    ]

on_graph_and_queue : (Graph × Queue → Checked (Graph × Queue)) → Worklist → Checked Worklist
on_graph_and_queue f w = do
  (g, queue) ← f (w.graph, w.queue)
  done (record w { graph = g; queue = queue })

-- a round of the loop of `invalidate_graph`, on the item that is popped
unfoldable pub invalidate_item : Hash → InvalidationItem → List ℕ → Worklist → Checked Worklist
unfolding on_graph_and_queue
invalidate_item xxh3_64 (declaration id) detach w = invalidate_declaration xxh3_64 id detach w
invalidate_item xxh3_64 (name id) detach w = on_graph_and_queue (unresolve_dependent_name id) w
invalidate_item xxh3_64 (references id) detach w =
    on_graph_and_queue (unresolve_dependent_references id) w

-- `pending_detachments` before and after the item is popped
taken_for : InvalidationItem → Map (List ℕ) → List ℕ
taken_for (declaration id) pending = get_or_default id pending
taken_for _ pending = []

left_by : InvalidationItem → Map (List ℕ) → Map (List ℕ)
left_by (declaration id) pending = remove id pending
left_by _ pending = pending

invalidate_loop : Hash → ℕ → Map (List ℕ) → Worklist → Checked Worklist
unfolding taken_for left_by
invalidate_loop xxh3_64 zero pending w = out_of_fuel
invalidate_loop xxh3_64 (suc fuel) pending w = elim w.queue [
  | [] ↦ done w
  | item ∷ rest ↦ do
    w' ← invalidate_item xxh3_64 item (taken_for item pending) (record w { queue = rest })
    invalidate_loop xxh3_64 fuel (left_by item pending) w'
]

unfoldable pub invalidate_graph : Hash → ℕ → Queue → Map (List ℕ) → Graph → Checked Graph
unfolding invalidate_loop
invalidate_graph xxh3_64 fuel items pending g = do
  w ← invalidate_loop xxh3_64 fuel pending (record { graph = g; queue = items; visited = [] })
  done w.graph

detach_later : ℕ → Option ℕ → Map (List ℕ) → Map (List ℕ)
detach_later def_id none pending = pending
detach_later def_id (some declaration_id) pending = push_at declaration_id def_id pending

-- the declarations that the definitions of the old document belong to, each with these
detachments : Hash → Graph → Option Document → Checked (Map (List ℕ))
unfolding detach_later
detachments xxh3_64 g none = done []
detachments xxh3_64 g (some document) =
    for_each
      (λ def_id pending. definition_id_to_declaration_id xxh3_64 g def_id >>= λ found.
        done (detach_later def_id found pending))
      document.definition_ids []

-- `if let Some(NameRef::Resolved(resolved)) = self.names.get(..)`, queue its declaration
touch_name : Graph → Option ℕ → Queue → Queue
unfolding push_if_some
touch_name g none queue = queue
touch_name g (some name_id) queue = push_if_some (name_id_to_declaration_id g name_id) queue

nesting_of : Graph → ℕ → Option ℕ
nesting_of g name_id = elim (get name_id g.names) [ none ↦ none | some r ↦ (Name.inner r).nesting ]

-- the declarations that the new document touches
touched : Graph → Option LocalGraph → Queue → Queue
unfolding touch_name nesting_of
touched g none queue = queue
touched g (some lg) queue =
    fold (λ r. touch_name g (nesting_of g r.name_id)) (values lg.constant_references)
      (fold (λ d. touch_name g (name_id_of d)) (values lg.definitions) queue)

unfoldable pub invalidate : Hash → ℕ → Option Document → Option LocalGraph → Graph → Checked Graph
unfolding detachments touched
invalidate xxh3_64 fuel old_document new_local_graph g = do
  pending ← detachments xxh3_64 g old_document
  let items = touched g new_local_graph (fold push_declaration (keys pending) [])
  elim items [ [] ↦ done g | item ∷ rest ↦ invalidate_graph xxh3_64 fuel (item ∷ rest) pending g ]
