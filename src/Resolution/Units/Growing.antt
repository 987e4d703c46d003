-- ===== src/Resolution/Units/Growing.antt =====
-- What the handling of each unit keeps.

use rubydex.Base.{ℕ, Bool, true, false, Option, none, some}
use rubydex.Model.Ids.{Text, Hash}
use rubydex.Model.Definition.{Definition, Receiver, self_receiver, constant_receiver}
use rubydex.Model.Declaration.{Ancestors, Declaration}
use rubydex.Graph.{WorkUnit}
use rubydex.Resolution.{Outcome}
use rubydex.Resolution.Grows.{
  IsGrowing, growing_rules, IsGrowing-updates, IsGrowing-reads, IsGrowing-pure,
}
use rubydex.Resolution.Grows.Steps.{record_resolved_reference-Grows}
use rubydex.Resolution.Singleton.Growing.{
  queue_ancestors-IsGrowing, queue_singleton_class-IsGrowing,
}
use rubydex.Resolution.Linearize.Growing.{ancestors_of-IsGrowing}
use rubydex.Resolution.Constants.Growing.{resolve_constant_internal-IsGrowing}
use rubydex.Resolution.Declare.Growing.{handle_constant-IsGrowing}
use rubydex.Resolution.Eager.Growing.{create_declaration-IsGrowing}
use rubydex.Resolution.Units.{
  declare_singleton_method, singleton_method_in, handle_method, handle_constant, definition_outcome,
  queue_if, after_definition, handle_definition_unit, after_reference, handle_reference_unit,
  after_linearization, handle_ancestor_unit, handle_unit,
}

module _ (xxh3_64 : Hash) (fuel : ℕ) where
  declare_singleton_method-IsGrowing :
      (id str_id : ℕ) (o : Option ℕ) → IsGrowing (declare_singleton_method xxh3_64 fuel id str_id o)
  unfolding declare_singleton_method
  declare_singleton_method-IsGrowing id str_id none = search growing_rules
  declare_singleton_method-IsGrowing id str_id (some s) =
      search (growing_rules, create_declaration-IsGrowing)

  singleton_method_in-IsGrowing :
      (id str_id : ℕ) (o : Option ℕ) → IsGrowing (singleton_method_in xxh3_64 fuel id str_id o)
  unfolding singleton_method_in
  singleton_method_in-IsGrowing id str_id none = search growing_rules
  singleton_method_in-IsGrowing id str_id (some owner) =
      search (growing_rules, queue_singleton_class-IsGrowing, declare_singleton_method-IsGrowing)

  handle_method-IsGrowing :
      (id str_id : ℕ) (r : Option Receiver) → IsGrowing (handle_method xxh3_64 fuel id str_id r)
  unfolding handle_method
  handle_method-IsGrowing id str_id (some (self_receiver def_id)) =
      search (growing_rules, singleton_method_in-IsGrowing)
  handle_method-IsGrowing id str_id (some (constant_receiver name_id)) = IsGrowing-reads _
  handle_method-IsGrowing id str_id none = IsGrowing-reads _

  built-IsGrowing :
      (name_id id : ℕ) (singleton : Bool) (builder : Text → ℕ → Declaration) (b : Bool)
      → IsGrowing (handle_constant xxh3_64 fuel name_id id singleton builder b)
  unfolding handle_constant
  built-IsGrowing name_id id singleton builder b = search (growing_rules, handle_constant-IsGrowing)

  definition_outcome-IsGrowing :
      (id : ℕ) (d : Definition) → IsGrowing (definition_outcome xxh3_64 fuel id d)
  unfolding definition_outcome
  definition_outcome-IsGrowing id (Definition.class d) = built-IsGrowing d.name_id id false _ true
  definition_outcome-IsGrowing id (Definition.module_definition d) =
      built-IsGrowing d.name_id id false _ true
  definition_outcome-IsGrowing id (Definition.constant d) =
      built-IsGrowing d.name_id id false _ false
  definition_outcome-IsGrowing id (Definition.constant_alias d) = built-IsGrowing _ id false _ false
  definition_outcome-IsGrowing id (Definition.singleton_class d) =
      built-IsGrowing d.name_id id true _ true
  definition_outcome-IsGrowing id (Definition.method m) =
      handle_method-IsGrowing id m.str_id m.receiver
  definition_outcome-IsGrowing id _ = IsGrowing-reads _

  queue_if-IsGrowing : (b : Bool) (id : ℕ) → IsGrowing (queue_if xxh3_64 fuel b id)
  unfolding queue_if
  queue_if-IsGrowing false id = IsGrowing-pure tt
  queue_if-IsGrowing true id = queue_ancestors-IsGrowing id

  after_definition-IsGrowing :
      (unit : WorkUnit) (o : Outcome × Bool) → IsGrowing (after_definition xxh3_64 fuel unit o)
  unfolding after_definition
  after_definition-IsGrowing unit (Outcome.retry none, b) = search growing_rules
  after_definition-IsGrowing unit (Outcome.unresolved none, b) = search growing_rules
  after_definition-IsGrowing unit (Outcome.retry (some id), b) =
      search (growing_rules, queue_ancestors-IsGrowing)
  after_definition-IsGrowing unit (Outcome.unresolved (some id), b) =
      search (growing_rules, queue_ancestors-IsGrowing)
  after_definition-IsGrowing unit (Outcome.resolved d none, b) =
      search (growing_rules, queue_if-IsGrowing)
  after_definition-IsGrowing unit (Outcome.resolved d (some id), b) =
      search (growing_rules, queue_ancestors-IsGrowing)

  pub after_reference-IsGrowing :
      (id : ℕ) (o : Outcome) → IsGrowing (after_reference xxh3_64 fuel id o)
  unfolding after_reference
  after_reference-IsGrowing id (Outcome.retry none) = search growing_rules
  after_reference-IsGrowing id (Outcome.unresolved none) = search growing_rules
  after_reference-IsGrowing id (Outcome.retry (some l)) =
      search (growing_rules, queue_ancestors-IsGrowing)
  after_reference-IsGrowing id (Outcome.unresolved (some l)) =
      search (growing_rules, queue_ancestors-IsGrowing)
  after_reference-IsGrowing id (Outcome.resolved d none) =
      search (growing_rules, IsGrowing-updates, record_resolved_reference-Grows)
  after_reference-IsGrowing id (Outcome.resolved d (some l)) =
      search (
        growing_rules, IsGrowing-updates, record_resolved_reference-Grows,
        queue_ancestors-IsGrowing,
      )

  after_linearization-IsGrowing :
      (id : ℕ) (a : Ancestors) → IsGrowing (after_linearization xxh3_64 fuel id a)
  unfolding after_linearization
  after_linearization-IsGrowing id (Ancestors.complete l) = search growing_rules
  after_linearization-IsGrowing id (Ancestors.cyclic l) = search growing_rules
  after_linearization-IsGrowing id (Ancestors.partial l) = queue_ancestors-IsGrowing id

  pub handle_unit-IsGrowing : (unit : WorkUnit) → IsGrowing (handle_unit xxh3_64 fuel unit)
  unfolding handle_unit handle_definition_unit handle_reference_unit handle_ancestor_unit
  handle_unit-IsGrowing (WorkUnit.definition id) =
      search (growing_rules, definition_outcome-IsGrowing, after_definition-IsGrowing)
  handle_unit-IsGrowing (WorkUnit.constant_ref id) =
      search (growing_rules, resolve_constant_internal-IsGrowing, after_reference-IsGrowing)
  handle_unit-IsGrowing (WorkUnit.ancestors id) =
      search (growing_rules, ancestors_of-IsGrowing, after_linearization-IsGrowing)
