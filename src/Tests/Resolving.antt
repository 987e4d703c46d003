-- ===== src/Tests/Resolving.antt =====
-- Applications of the theorems on the resolution, to a graph with the built-in classes.
use rubydex.Base.{
  ℕ, ◌+◌, ◌<◌, ◌==◌, Bool, true, false, Option, none, some, List, [], ◌∷◌, ◌++◌, Checked, done,
  panic, out_of_fuel, ◌≡◌, ◌⊎◌, refl, arith, length, contains, count, ◌+◌, ◌&&◌, if◌then◌else◌,
  unwrap, Bool-cases, inl, inr, subst, ap, Option-cases,
}
use rubydex.Base.Map.{Map, get, contains_key}
use rubydex.Model.Ids.{codes, id_from}
use rubydex.Model.Name.{
  NameRef, ResolvedName, resolved, unresolved, inner, parent_id, no_parent, parent,
}
use rubydex.Model.Reference.{ConstantReference}
use rubydex.Model.Definition.{Definition, Mixin}
use rubydex.Model.Declaration.{
  Ancestor, Ancestors, ancestor_list, Declaration, Namespace, new_namespace,
}
use rubydex.Graph.{Graph, WorkUnit}
use rubydex.Resolution.{Outcome, Resolver, new}
use rubydex.Resolution.Units.{resolve}
use rubydex.Resolution.Units.Kept.{resolve-Grows, resolve-IsSettled, IsSettled}
use rubydex.Resolution.Grows.{Grows, has_reference}
use rubydex.Resolution.Order.{prepare_units, built_in_ids}
use rubydex.Resolution.Order.Counts.{tally, is_definition, is_reference, is_ancestors}
use rubydex.Resolution.Order.Places.{queues, sets_aside}
use rubydex.Resolution.Order.Once.{prepare_units-once}
use rubydex.Resolution.Order.Tracked.{is_pending}
use rubydex.Resolution.Depth.{compute_name_depths}
use rubydex.Resolution.Depth.Memo.{IsDepth, IsKnown, depth_sum, compute_name_depths-IsDepth}
use rubydex.Resolution.Chains.{targets, resolve_alias_chains}
use rubydex.Resolution.Chains.Follows.{Leads, here, next, IsEnds, resolve_alias_chains-IsEnds}
use rubydex.Graph.Alias.{alias_targets}
use rubydex.Resolution.Chains.{member_of}
use rubydex.Resolution.Constants.{search_chain, search_partial}
use rubydex.Tests.{hash, world, result_of, empty_graph, name_of, nowhere, base_in}

abbrev class_at : ℕ → Option ℕ → List Mixin → Definition
class_at name_id superclass mixins = Definition.class (record {
  base = base_in none;
  name_id = name_id;
  name_offset = nowhere;
  members = [];
  superclass_ref = superclass;
  mixins = mixins;
})

abbrev reference_to : ℕ → ConstantReference
reference_to name_id = record { name_id = name_id; uri_id = 900; offset = nowhere }

abbrev built_in : Declaration → ℕ × Declaration
built_in d = (id_from hash (rubydex.Model.Declaration.base_of d).name, d)

abbrev object : ℕ
object = id_from hash (codes "Object")

-- what the graph has before anything is resolved, and `class Foo < Object; end` and `$x = 1`
abbrev pub before : Graph
before = record empty_graph {
  declarations =
      built_in
        (Declaration.namespace (Namespace.class (new_namespace (codes "BasicObject") object)))
      ∷ (built_in (
            Declaration.namespace
              (Namespace.module_namespace (new_namespace (codes "Kernel") object)))
          ∷ (built_in
                (Declaration.namespace (Namespace.class (new_namespace (codes "Object") object)))
              ∷ (built_in (
                    Declaration.namespace (Namespace.class (new_namespace (codes "Module") object)))
                  ∷ (built_in (
                        Declaration.namespace
                          (Namespace.class (new_namespace (codes "Class") object)))
                      ∷ []))));
  documents =
      (
        900,
        record {
          uri = codes "file";
          definition_ids = 301 ∷ 302 ∷ 303 ∷ 304 ∷ 305 ∷ 306 ∷ 307 ∷ [];
          method_reference_ids = [];
          constant_reference_ids = 401 ∷ 402 ∷ 403 ∷ 404 ∷ [];
          diagnostics = [];
        },
      )
      ∷ [];
  definitions =
      (301, class_at 201 none [])
      ∷ (
        302,
        Definition.module_definition (record {
          base = base_in none;
          name_id = 202;
          name_offset = nowhere;
          members = [];
          mixins = [];
        }),
      )
      ∷ (303, class_at 203 (some 401) (Mixin.includes 402 ∷ []))
      ∷ (304, class_at 204 (some 403) [])
      ∷ (305, class_at 205 (some 404) [])
      ∷ (306, class_at 206 (some 403) [])
      ∷ (307, Definition.global_variable (record { base = base_in none; str_id = 17 }))
      ∷ [];
  strings =
      (11, record { value = codes "BasicObject"; ref_count = 2 })
      ∷ (12, record { value = codes "Kernel"; ref_count = 2 })
      ∷ (13, record { value = codes "Object"; ref_count = 3 })
      ∷ (14, record { value = codes "Module"; ref_count = 2 })
      ∷ (15, record { value = codes "Class"; ref_count = 1 })
      ∷ (16, record { value = codes "Foo"; ref_count = 1 })
      ∷ (17, record { value = codes "$x"; ref_count = 1 })
      ∷ [];
  names =
      (201, unresolved (name_of 11 none))
      ∷ (202, unresolved (name_of 12 none))
      ∷ (203, unresolved (name_of 13 none))
      ∷ (204, unresolved (name_of 14 none))
      ∷ (205, unresolved (name_of 15 none))
      ∷ (206, unresolved (name_of 16 none))
      ∷ [];
  constant_references =
      (401, reference_to 201)
      ∷ (402, reference_to 202)
      ∷ (403, reference_to 203)
      ∷ (404, reference_to 204)
      ∷ [];
  pending_work =
      WorkUnit.definition 306
      ∷ WorkUnit.definition 301
      ∷ WorkUnit.definition 302
      ∷ WorkUnit.definition 303
      ∷ WorkUnit.definition 304
      ∷ WorkUnit.definition 305
      ∷ WorkUnit.definition 306
      ∷ WorkUnit.definition 307
      ∷ WorkUnit.constant_ref 403
      ∷ WorkUnit.constant_ref 401
      ∷ WorkUnit.constant_ref 402
      ∷ WorkUnit.constant_ref 404
      ∷ [];
}

-- the resolution, with what computes it
run : Graph → Checked (Unit {0} × Resolver)
unfolding contains get id_from new resolve rubydex.Base.Map.insert rubydex.Graph.Lookup.object_id
    rubydex.Graph.Names.extend_work rubydex.Graph.Names.take_pending_work
    rubydex.Model.Ids.to_non_zero rubydex.Model.Name.parent_id rubydex.Resolution.Depth.add_depths
    rubydex.Resolution.Depth.compute_name_depths rubydex.Resolution.Depth.depth_of
    rubydex.Resolution.Depth.depth_or_zero rubydex.Resolution.Depth.depths_loop
    rubydex.Resolution.Depth.name_depth rubydex.Resolution.Order.built_in_ids
    rubydex.Resolution.Order.enqueue rubydex.Resolution.Order.insert_sorted
    rubydex.Resolution.Order.keyed_le rubydex.Resolution.Order.compared
    rubydex.Resolution.Order.is_comparable rubydex.Resolution.Order.nothing_sorted
    rubydex.Resolution.Order.offset_le rubydex.Resolution.Order.other_le
    rubydex.Resolution.Order.others_of rubydex.Resolution.Order.place_of
    rubydex.Resolution.Order.prepare_units rubydex.Resolution.Order.queue_of
    rubydex.Resolution.Order.sort rubydex.Resolution.Order.sort_units
    rubydex.Resolution.Order.text_le rubydex.Resolution.Order.text_lt
    rubydex.Resolution.Remaining.handle_remaining_definitions
    rubydex.Resolution.Visibilities.resolve_method_visibilities rubydex.Resolution.changes
    rubydex.Resolution.for_all rubydex.Resolution.pure rubydex.Resolution.reads
    rubydex.Resolution.updates rubydex.Resolution.◌>>=◌ new_namespace rubydex.Base.Map.remove
    rubydex.Graph.Declarations.add_declaration rubydex.Graph.Declarations.add_member
    rubydex.Graph.Declarations.declare rubydex.Graph.Declarations.with_member
    rubydex.Graph.Names.record_resolved_name rubydex.Model.Declaration.add_definition
    rubydex.Model.Ids.text_eq rubydex.Resolution.Declare.builds
    rubydex.Resolution.Declare.handle_constant_declaration rubydex.Resolution.Declare.is_top_level
    rubydex.Resolution.Declare.name_owner_id rubydex.Resolution.Declare.text_of
    rubydex.Resolution.Singleton.queue_ancestors rubydex.Resolution.case_option
    rubydex.Base.set_insert rubydex.Graph.Declarations.is_namespace_definition
    rubydex.Graph.Declarations.is_promotable_declaration rubydex.Graph.Declarations.promote_if
    rubydex.Graph.Declarations.record_resolved_reference
    rubydex.Model.Declaration.add_constant_reference
    rubydex.Resolution.Constants.resolve_constant_internal rubydex.Resolution.Constants.resolve_ref
    rubydex.Resolution.Linearize.add_descendants rubydex.Resolution.Linearize.ancestors_of
    rubydex.Resolution.Linearize.build_chain rubydex.Resolution.Linearize.has_complete_ancestors
    rubydex.Resolution.Linearize.linearize_ancestors rubydex.Resolution.Linearize.linearize_new
    rubydex.Resolution.Linearize.linearize_step rubydex.Resolution.new_context
    rubydex.Base.Map.adjust rubydex.Model.Declaration.on_namespace
    rubydex.Resolution.Linearize.all_mixins rubydex.Resolution.Linearize.attached_extends
    rubydex.Resolution.Linearize.classify rubydex.Resolution.Linearize.except_extends
    rubydex.Resolution.Linearize.has_extends rubydex.Resolution.Linearize.is_singleton
    rubydex.Resolution.Linearize.linearize_mixins
    rubydex.Resolution.Linearize.linearize_parent_ancestors
    rubydex.Resolution.Linearize.linearize_parent_class rubydex.Resolution.Linearize.on_namespace_at
    rubydex.Resolution.Linearize.parent_ancestors rubydex.Resolution.Linearize.prepare_singleton
    rubydex.Resolution.Singleton.explicit_parents rubydex.Resolution.Singleton.get_parent_class
    rubydex.Base.set_remove rubydex.Resolution.Chains.resolve_to_namespace
    rubydex.Resolution.Linearize.join rubydex.Resolution.Linearize.mix_name
    rubydex.Resolution.Linearize.mix_namespace rubydex.Resolution.Linearize.mixin_reference
    rubydex.Resolution.Linearize.note rubydex.Resolution.Linearize.noted
    rubydex.Resolution.Linearize.propagate_descendants rubydex.Resolution.Linearize.use_cached
    rubydex.Resolution.Linearize.with_unresolved rubydex.Resolution.Mixins.add_included
    rubydex.Resolution.Mixins.has rubydex.Resolution.Mixins.without
    rubydex.Resolution.Singleton.or_object rubydex.Resolution.finalize
    rubydex.Resolution.Mixins.ancestor_eq rubydex.Resolution.Variables.handle_global_variable
run g = resolve hash 20 5 (new g)

abbrev after : Resolver
after = (result_of (tt, new before) (run before)).1

resolves : resolve hash 20 5 (new before) ≡ done (tt, after)
unfolding run
resolves = refl

-- how many declarations, and what is left to do
counts_after : (length after.graph.declarations ≡ 7) × (after.graph.pending_work ≡ [])
unfolding run
counts_after = (refl, refl)

resolve-Grows_example : Grows (record before { pending_work = [] }) after.graph
resolve-Grows_example = resolve-Grows hash 20 5 before after resolves

resolve-IsSettled_example :
    (has_reference 403 after.graph.pending_work ≡ true) ⊎ IsSettled 403 after.graph
unfolding has_reference get
resolve-IsSettled_example = resolve-IsSettled hash 20 5 before after 403 resolves refl refl

prepare : Graph → Checked (List ℕ × Resolver)
unfolding run
prepare g = prepare_units hash (new g)

abbrev prepared : List ℕ × Resolver
prepared = result_of ([], new before) (prepare before)

prepares : prepare_units hash (new before) ≡ done prepared
unfolding prepare
prepares = refl

prepare_units-once_example :
    ((id : ℕ)
      → tally (is_definition id) prepared.1.unit_queue
        ≡ tally (is_definition id) []
          + (if is_pending (is_definition id) before.pending_work && queues before id
              then 1
              else 0))
    × ((id : ℕ)
        → count id prepared.0 ≡ (
            if is_pending (is_definition id) before.pending_work && sets_aside before id
            then 1
            else 0))
    × ((id : ℕ)
        → tally (is_reference id) prepared.1.unit_queue
          ≡ tally (is_reference id) []
            + (if is_pending (is_reference id) before.pending_work
                  && contains_key id before.constant_references
                then 1
                else 0))
    × ((id : ℕ)
        → tally (is_ancestors id) prepared.1.unit_queue
          ≡ tally (is_ancestors id) []
            + (count id (built_in_ids hash)
                + (if is_pending (is_ancestors id) before.pending_work
                      && contains_key id before.declarations
                    then 1
                    else 0)))
    × (prepared.1.graph ≡ record before { pending_work = [] })
unfolding new
prepare_units-once_example = prepare_units-once hash (new before) prepared.1 prepared.0 prepares

-- `A`, `A::B`, and `C` in `A::B`
abbrev nested_names : Map NameRef
nested_names =
    (201, unresolved (name_of 11 none))
    ∷ (202, unresolved (record (name_of 12 none) { parent_scope = parent 201 }))
    ∷ (203, unresolved (name_of 13 (some 202)))
    ∷ []

abbrev nested_depth : ℕ → ℕ
nested_depth id = if id == 201 then 1 else (if id == 202 then 2 else (if id == 203 then 3 else 0))

-- what holds of each entry of a map
abbrev pub Entries : {V : Type 0} → (ℕ → V → Type 0) → Map V → Type 0
Entries P [] = Unit
Entries P ((id, v) ∷ m) = P id v × Entries P m

pub get-Entries :
    {V : Type 0} (P : ℕ → V → Type 0) (m : Map V)
    → Entries P m
    → (id : ℕ) (v : V) → get id m ≡ some v
    → P id v
unfolding get
get-Entries P [] all id v known = cc
get-Entries P ((k, w) ∷ m) (first, all) id v known = elim (Bool-cases (k == id)) [
  | inl same ↦
      let key : k ≡ id = ground (arith, same) in
      let value : w ≡ v = ground (arith, same, known) in
      subst (λ v'. P id v') value (subst (λ id'. P id' w) key first)
  | inr other ↦ get-Entries P m all id v (ground (arith, other, known))
]

nested_names-IsDepth : IsDepth nested_names nested_depth
unfolding get parent_id
nested_names-IsDepth = record {
  equation =
      get-Entries
        (λ id r. nested_depth id ≡ depth_sum nested_depth (inner r) (inner r).parent_scope)
        nested_names (refl, (refl, (refl, tt)));
  parents =
      get-Entries (λ id r. IsKnown nested_names (parent_id (inner r).parent_scope)) nested_names
        (tt, (refl, (tt, tt)));
  nestings =
      get-Entries (λ id r. IsKnown nested_names (inner r).nesting) nested_names
        (tt, (tt, (refl, tt)));
  bounded = λ id. ground arith;
}

compute_name_depths-IsDepth_example :
    (cache : Map ℕ) × (compute_name_depths nested_names ≡ done cache)
    × ((id : ℕ)
        → get id cache ≡ (if contains_key id nested_names then some (nested_depth id) else none))
compute_name_depths-IsDepth_example =
    compute_name_depths-IsDepth nested_names nested_depth nested_names-IsDepth

abbrev TargetsDeclared : ℕ → Type 0
TargetsDeclared id =
    (t : ℕ) → contains (targets world id) t ≡ true → contains_key t world.declarations ≡ true

one_target :
    (id a : ℕ)
    → targets world id ≡ a ∷ []
    → contains_key a world.declarations ≡ true
    → TargetsDeclared id
unfolding contains
one_target id a only known t h =
    let has = ap (λ l. contains l t) only in
    let same : a ≡ t = ground (arith, has, h) in
    subst (λ x. contains_key x world.declarations ≡ true) same known

no_target : (id : ℕ) → targets world id ≡ [] → TargetsDeclared id
unfolding contains
no_target id none_there t h = let has = ap (λ l. contains l t) none_there in ground (arith, has, h)

world_targets : (id : ℕ) → TargetsDeclared id
unfolding targets alias_targets get rubydex.Graph.Alias.collect_targets rubydex.Graph.Alias.push_new
    rubydex.Graph.Alias.definition_target contains
world_targets id = elim (Option-cases (get id world.declarations)) [
  | inl e ↦ no_target id (rw (e, targets, alias_targets) refl)
  | inr (d, e) ↦
      get-Entries (λ id d. TargetsDeclared id) world.declarations
        (
          no_target 1 refl,
          (
            no_target 2 refl,
            (
              one_target 3 4 refl refl,
              (
                one_target 4 1 refl refl,
                (no_target 5 refl, (no_target 6 refl, (no_target 7 refl, (no_target 8 refl, tt)))),
              ),
            ),
          ),
        )
        id d e
]

world_declared : (t : ℕ) → Leads world 3 t → contains_key t world.declarations ≡ true
unfolding get
world_declared t here = refl
world_declared t (next {b = b} leads h) = world_targets b t h

resolve_alias_chains-IsEnds_example :
    (rs : List ℕ) × (resolve_alias_chains world 3 ≡ done rs) × IsEnds world 3 rs
resolve_alias_chains-IsEnds_example = resolve_alias_chains-IsEnds world 3 world_declared
