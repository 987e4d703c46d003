-- ===== src/Resolution/Units.antt =====
-- The units of work and the loop over them, `resolve` of rust/rubydex/src/resolution.rs. The
-- rounds of the loop take fuel, apart from the fuel of the linearizations.
pub mod Growing
pub mod Kept
use rubydex.Base
use rubydex.Base.{
  ℕ, zero, suc, Bool, true, false, not, ◌&&◌, ◌||◌, Option, none, some, List, [], ◌∷◌, Checked,
  done, panic, out_of_fuel, unwrap, if◌then◌else◌, length,
}
use rubydex.Base.Map.{get}
use rubydex.Model.Ids.{Text, Hash}
use rubydex.Model.Definition.{Definition, MethodDefinition, Receiver, self_receiver}
use rubydex.Model.Declaration.{Ancestors, Declaration, Namespace, new_simple, new_namespace}
use rubydex.Graph.{Graph, WorkUnit}
use rubydex.Graph.Declarations.{record_resolved_reference}
use rubydex.Graph.Lookup.{definition_id_to_declaration_id}
use rubydex.Graph.Names.{extend_work}
use rubydex.Resolution.{
  Outcome, Resolver, Action, pure, reads, updates, push_back, set_progress, ◌>>=◌, ◌>>◌,
  case_option,
}
use rubydex.Resolution.Singleton.{queue_ancestors, queue_singleton_class, module_declaration}
use rubydex.Resolution.Linearize.{ancestors_of}
use rubydex.Resolution.Constants.{resolve_constant_internal}
use rubydex.Resolution.Declare.{handle_constant_declaration}
use rubydex.Resolution.Owners.{create_declaration}
use rubydex.Resolution.Order.{prepare_units}
use rubydex.Resolution.Remaining.{handle_remaining_definitions}

abbrev class_declaration : Text → ℕ → Declaration
class_declaration name owner_id =
    Declaration.namespace (Namespace.class (new_namespace name owner_id))

abbrev singleton_declaration : Text → ℕ → Declaration
singleton_declaration name owner_id =
    Declaration.namespace (Namespace.singleton_class (new_namespace name owner_id))

abbrev constant_declaration : Text → ℕ → Declaration
constant_declaration name owner_id = Declaration.constant (new_simple name owner_id)

abbrev alias_declaration : Text → ℕ → Declaration
alias_declaration name owner_id = Declaration.constant_alias (new_simple name owner_id)

module _ (xxh3_64 : Hash) (fuel : ℕ) where
  -- the declaration of a singleton method
  declare_singleton_method : ℕ → ℕ → Option ℕ → Action Outcome
  declare_singleton_method id str_id none = pure (Outcome.unresolved none)
  declare_singleton_method id str_id (some singleton_id) = do
    create_declaration xxh3_64 str_id id singleton_id
        (λ name. Declaration.method (new_simple name singleton_id))
    pure (Outcome.resolved singleton_id none)

  singleton_method_in : ℕ → ℕ → Option ℕ → Action Outcome
  singleton_method_in id str_id none = pure (Outcome.retry none)
  singleton_method_in id str_id (some owner) = do
    singleton ← queue_singleton_class xxh3_64 owner
    declare_singleton_method id str_id singleton

  handle_method : ℕ → ℕ → Option Receiver → Action (Outcome × Bool)
  handle_method id str_id (some (self_receiver def_id)) = do
    owner ← reads (λ g. definition_id_to_declaration_id xxh3_64 g def_id)
    outcome ← singleton_method_in id str_id owner
    pure (outcome, false)
  handle_method id str_id _ = reads (λ g. panic)

  -- a namespace that was built has to be linearized
  handle_constant : ℕ → ℕ → Bool → (Text → ℕ → Declaration) → Bool → Action (Outcome × Bool)
  handle_constant name_id id singleton builder is_namespace = do
    result ← handle_constant_declaration xxh3_64 fuel name_id id singleton builder
    pure (result.0, result.1 && is_namespace)

  -- the outcome of a definition, and whether it needs linearization
  pub definition_outcome : ℕ → Definition → Action (Outcome × Bool)
  definition_outcome id (Definition.class d) =
      handle_constant d.name_id id false class_declaration true
  definition_outcome id (Definition.module_definition d) =
      handle_constant d.name_id id false module_declaration true
  definition_outcome id (Definition.constant d) =
      handle_constant d.name_id id false constant_declaration false
  definition_outcome id (Definition.constant_alias d) =
      handle_constant d.alias_constant.name_id id false alias_declaration false
  definition_outcome id (Definition.singleton_class d) =
      handle_constant d.name_id id true singleton_declaration true
  definition_outcome id (Definition.method m) = handle_method id m.str_id m.receiver
  definition_outcome id _ = reads (λ g. panic)

  queue_if : Bool → ℕ → Action (Unit {0})
  queue_if false id = pure tt
  queue_if true id = queue_ancestors id

  -- what an outcome does to the queue
  pub after_definition : WorkUnit → Outcome × Bool → Action (Unit {0})
  after_definition unit (Outcome.retry none, needs) = push_back unit
  after_definition unit (Outcome.unresolved none, needs) = pure tt
  after_definition unit (Outcome.retry (some id), needs) = do push_back unit; queue_ancestors id
  after_definition unit (Outcome.unresolved (some id), needs) = do
    push_back unit
    queue_ancestors id
  after_definition unit (Outcome.resolved id none, needs) = do queue_if needs id; set_progress true
  after_definition unit (Outcome.resolved id (some ancestor), needs) = do
    queue_ancestors ancestor
    set_progress true

  pub handle_definition_unit : ℕ → Action (Unit {0})
  handle_definition_unit id = do
    d ← reads (λ g. unwrap (get id g.definitions))
    outcome ← definition_outcome id d
    after_definition (WorkUnit.definition id) outcome

  pub after_reference : ℕ → Outcome → Action (Unit {0})
  after_reference id (Outcome.retry none) = push_back (WorkUnit.constant_ref id)
  after_reference id (Outcome.unresolved none) = push_back (WorkUnit.constant_ref id)
  after_reference id (Outcome.retry (some ancestor)) = do
    push_back (WorkUnit.constant_ref id)
    queue_ancestors ancestor
  after_reference id (Outcome.unresolved (some ancestor)) = do
    push_back (WorkUnit.constant_ref id)
    queue_ancestors ancestor
  after_reference id (Outcome.resolved declaration none) = do
    updates (record_resolved_reference id declaration)
    set_progress true
  after_reference id (Outcome.resolved declaration (some ancestor)) = do
    updates (record_resolved_reference id declaration)
    set_progress true
    queue_ancestors ancestor

  pub handle_reference_unit : ℕ → Action (Unit {0})
  handle_reference_unit id = do
    reference ← reads (λ g. unwrap (get id g.constant_references))
    outcome ← resolve_constant_internal xxh3_64 fuel reference.name_id
    after_reference id outcome

  after_linearization : ℕ → Ancestors → Action (Unit {0})
  after_linearization id (Ancestors.partial l) = queue_ancestors id
  after_linearization id _ = set_progress true

  pub handle_ancestor_unit : ℕ → Action (Unit {0})
  handle_ancestor_unit id = do
    ancestors ← ancestors_of xxh3_64 fuel id
    after_linearization id ancestors

  pub handle_unit : WorkUnit → Action (Unit {0})
  handle_unit (WorkUnit.definition id) = handle_definition_unit id
  handle_unit (WorkUnit.constant_ref id) = handle_reference_unit id
  handle_unit (WorkUnit.ancestors id) = handle_ancestor_unit id

  -- the units that are in the queue at the start, each once
  pub pass : ℕ → Action (Unit {0})
  pass zero r = done (tt, r)
  pass (suc n) r = elim r.unit_queue [
    | [] ↦ done (tt, r)
    | unit ∷ rest ↦ (handle_unit unit >> pass n) (record r { unit_queue = rest })
  ]

  is_empty : List WorkUnit → Bool
  is_empty [] = true
  is_empty (u ∷ l) = false

  -- passes, as long as they make progress and leave work
  pub resolve_loop : ℕ → Action (Unit {0})
  resolve_loop zero r = out_of_fuel
  resolve_loop (suc rounds) r =
      Base.◌>>=◌ (pass (length r.unit_queue) (record r { made_progress = false })) λ (u, r').
        let onward = resolve_loop rounds r' in
        if not r'.made_progress || is_empty r'.unit_queue then done (tt, r') else onward

  -- what is left is work for the next time
  pub drain : Action (Unit {0})
  drain r = done (tt, record r { graph = extend_work r.unit_queue r.graph; unit_queue = [] })

  unfoldable pub resolve : ℕ → Action (Unit {0})
  unfolding declare_singleton_method singleton_method_in handle_method handle_constant queue_if
      after_linearization is_empty definition_outcome after_definition handle_definition_unit
      after_reference handle_reference_unit handle_ancestor_unit handle_unit pass resolve_loop drain
  resolve rounds = do
    other_ids ← prepare_units xxh3_64
    resolve_loop rounds
    drain
    handle_remaining_definitions xxh3_64 fuel other_ids
