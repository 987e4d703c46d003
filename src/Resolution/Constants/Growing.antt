-- ===== src/Resolution/Constants/Growing.antt =====
-- What the resolution of a constant keeps.
use rubydex.Base.{ℕ, Bool, true, false, Option, none, some, List, [], ◌∷◌}
use rubydex.Model.Ids.{Hash}
use rubydex.Model.Name.{Name, NameRef, ParentScope, no_parent, top_level, parent, attached}
use rubydex.Model.Declaration.{Declaration}
use rubydex.Resolution.{Outcome, Action}
use rubydex.Resolution.Grows.{
  IsGrowing, growing_rules, IsGrowing-updates, IsGrowing-reads, IsGrowing->>=,
  IsGrowing-case_option,
}
use rubydex.Resolution.Grows.Steps.{record_resolved_name-Grows}
use rubydex.Resolution.Singleton.Growing.{queue_singleton_class-IsGrowing}
use rubydex.Resolution.Linearize.Growing.{ancestors_of-IsGrowing}
use rubydex.Resolution.Constants.{
  search_ancestors, search_scope, search_nesting, fall_back, after_nesting, after_scopes,
  run_resolution, record_outcome, recorded, create_attached, attach_to, attach_targets,
  attach_declaration, resolve_attached, after_target, search_target, search_targets,
  resolve_qualified, resolve_in, resolve_ref, resolve_constant_internal, resolve_constant,
}

module _ (xxh3_64 : Hash) (fuel : ℕ) where
  pub search_ancestors-IsGrowing :
      (id str_id : ℕ) → IsGrowing (search_ancestors xxh3_64 fuel id str_id)
  unfolding search_ancestors
  search_ancestors-IsGrowing id str_id = search (growing_rules, ancestors_of-IsGrowing)

  search_scope-IsGrowing :
      (str_id : ℕ) (scope : Outcome × Option ℕ) → IsGrowing (search_scope xxh3_64 fuel str_id scope)
  unfolding search_scope
  search_scope-IsGrowing str_id (outcome, none) = search growing_rules
  search_scope-IsGrowing str_id (outcome, some id) =
      search (growing_rules, search_ancestors-IsGrowing)

  search_nesting-IsGrowing :
      (str_id : ℕ) (n : NameRef) → IsGrowing (search_nesting xxh3_64 fuel str_id n)
  unfolding search_nesting
  search_nesting-IsGrowing str_id (NameRef.unresolved n) = search growing_rules
  search_nesting-IsGrowing str_id (NameRef.resolved r) =
      search (growing_rules, search_scope-IsGrowing)

  fall_back-IsGrowing :
      (str_id : ℕ) (o : Outcome) (b : Bool) → IsGrowing (fall_back xxh3_64 fuel str_id o b)
  unfolding fall_back
  fall_back-IsGrowing str_id o false = search growing_rules
  fall_back-IsGrowing str_id o true = search (growing_rules, search_ancestors-IsGrowing)

  after_nesting-IsGrowing :
      (str_id : ℕ) (found : Outcome × Option ℕ)
      → IsGrowing (after_nesting xxh3_64 fuel str_id found)
  unfolding after_nesting
  after_nesting-IsGrowing str_id (Outcome.resolved id l, d) = search growing_rules
  after_nesting-IsGrowing str_id (Outcome.unresolved l, d) =
      search (growing_rules, fall_back-IsGrowing)
  after_nesting-IsGrowing str_id (Outcome.retry l, d) = search (growing_rules, fall_back-IsGrowing)

  after_scopes-IsGrowing :
      (str_id nesting : ℕ) (o : Outcome) → IsGrowing (after_scopes xxh3_64 fuel str_id nesting o)
  unfolding after_scopes
  after_scopes-IsGrowing str_id nesting o =
      search (growing_rules, search_nesting-IsGrowing, after_nesting-IsGrowing)

  run_resolution-IsGrowing : (name : Name) → IsGrowing (run_resolution xxh3_64 fuel name)
  unfolding run_resolution
  run_resolution-IsGrowing name =
      IsGrowing-case_option name.nesting _ _ (search_ancestors-IsGrowing _ _)
        λ nesting. search (growing_rules, after_scopes-IsGrowing)

  record_outcome-IsGrowing :
      (name_id : ℕ) (o : Outcome) → IsGrowing (record_outcome xxh3_64 fuel name_id o)
  unfolding record_outcome
  record_outcome-IsGrowing name_id (Outcome.resolved id l) =
      search (growing_rules, IsGrowing-updates, record_resolved_name-Grows)
  record_outcome-IsGrowing name_id (Outcome.unresolved l) = search growing_rules
  record_outcome-IsGrowing name_id (Outcome.retry l) = search growing_rules

  recorded-IsGrowing :
      (name_id : ℕ) (m : Action Outcome) → IsGrowing m → IsGrowing (recorded xxh3_64 fuel name_id m)
  unfolding recorded
  recorded-IsGrowing name_id m h = IsGrowing->>= m _ h (record_outcome-IsGrowing name_id)

  create_attached-IsGrowing :
      (name_id : ℕ) (o : Option ℕ) → IsGrowing (create_attached xxh3_64 fuel name_id o)
  unfolding create_attached
  create_attached-IsGrowing name_id none = search growing_rules
  create_attached-IsGrowing name_id (some id) =
      search (growing_rules, IsGrowing-updates, record_resolved_name-Grows)

  attach_to-IsGrowing : (name_id : ℕ) (o : Option ℕ) → IsGrowing (attach_to xxh3_64 fuel name_id o)
  unfolding attach_to
  attach_to-IsGrowing name_id none = search growing_rules
  attach_to-IsGrowing name_id (some id) =
      search (growing_rules, queue_singleton_class-IsGrowing, create_attached-IsGrowing)

  attach_targets-IsGrowing :
      (name_id : ℕ) (ids : List ℕ) (b : Bool)
      → IsGrowing (attach_targets xxh3_64 fuel name_id ids b)
  unfolding attach_targets
  attach_targets-IsGrowing name_id ids true = search growing_rules
  attach_targets-IsGrowing name_id ids false = search (growing_rules, attach_to-IsGrowing)

  attach_declaration-IsGrowing :
      (name_id id : ℕ) (d : Declaration) → IsGrowing (attach_declaration xxh3_64 fuel name_id id d)
  unfolding attach_declaration
  attach_declaration-IsGrowing name_id id (Declaration.constant_alias d) =
      search (growing_rules, attach_targets-IsGrowing)
  attach_declaration-IsGrowing name_id id (Declaration.namespace d) = attach_to-IsGrowing _ _
  attach_declaration-IsGrowing name_id id (Declaration.constant d) = attach_to-IsGrowing _ _
  attach_declaration-IsGrowing name_id id (Declaration.method d) = attach_to-IsGrowing _ _
  attach_declaration-IsGrowing name_id id (Declaration.global_variable d) = attach_to-IsGrowing _ _
  attach_declaration-IsGrowing name_id id (Declaration.instance_variable d) =
      attach_to-IsGrowing _ _
  attach_declaration-IsGrowing name_id id (Declaration.class_variable d) = attach_to-IsGrowing _ _

  resolve_attached-IsGrowing :
      (name_id : ℕ) (n : NameRef) → IsGrowing (resolve_attached xxh3_64 fuel name_id n)
  unfolding resolve_attached
  resolve_attached-IsGrowing name_id (NameRef.unresolved n) = search growing_rules
  resolve_attached-IsGrowing name_id (NameRef.resolved r) =
      search (growing_rules, attach_declaration-IsGrowing)

  after_target-IsGrowing :
      (name_id : ℕ) (o : Outcome) (missing : Option ℕ) (again : Option ℕ → Action Outcome)
      → ((missing : Option ℕ) → IsGrowing (again missing))
      → IsGrowing (after_target xxh3_64 fuel name_id o missing again)
  unfolding after_target
  after_target-IsGrowing name_id (Outcome.resolved id l) missing again h =
      search (growing_rules, IsGrowing-updates, record_resolved_name-Grows)
  after_target-IsGrowing name_id (Outcome.unresolved l) missing again h = h _
  after_target-IsGrowing name_id (Outcome.retry none) missing again h = search growing_rules
  after_target-IsGrowing name_id (Outcome.retry (some l)) missing again h = h _

  search_target-IsGrowing :
      (name_id str_id id : ℕ) (o : Option Declaration) (found : Bool) (missing : Option ℕ)
      (again : Bool → Option ℕ → Action Outcome)
      → ((found : Bool) (missing : Option ℕ) → IsGrowing (again found missing))
      → IsGrowing (search_target xxh3_64 fuel name_id str_id id o found missing again)
  unfolding search_target
  search_target-IsGrowing name_id str_id id (some (Declaration.constant_alias d)) found missing
        again h =
      search growing_rules
  search_target-IsGrowing name_id str_id id (some (Declaration.namespace d)) found missing again h =
      IsGrowing->>= _ _ (search_ancestors-IsGrowing id str_id)
        λ o. after_target-IsGrowing name_id o missing (again true) (h true)
  search_target-IsGrowing name_id str_id id none found missing again h = h _ _
  search_target-IsGrowing name_id str_id id (some (Declaration.constant d)) found missing again h =
      h _ _
  search_target-IsGrowing name_id str_id id (some (Declaration.method d)) found missing again h =
      h _ _
  search_target-IsGrowing name_id str_id id (some (Declaration.global_variable d)) found missing
        again h =
      h _ _
  search_target-IsGrowing name_id str_id id (some (Declaration.instance_variable d)) found missing
        again h =
      h _ _
  search_target-IsGrowing name_id str_id id (some (Declaration.class_variable d)) found missing
        again h =
      h _ _

  search_targets-IsGrowing :
      (name_id str_id : ℕ) (ids : List ℕ) (found : Bool) (missing : Option ℕ)
      → IsGrowing (search_targets xxh3_64 fuel name_id str_id ids found missing)
  unfolding search_targets
  search_targets-IsGrowing name_id str_id [] found missing = search growing_rules
  search_targets-IsGrowing name_id str_id (id ∷ ids) found missing =
      IsGrowing->>= _ _ (IsGrowing-reads _) λ d.
        search_target-IsGrowing name_id str_id id d found missing
          (search_targets xxh3_64 fuel name_id str_id ids)
          (search_targets-IsGrowing name_id str_id ids)

  resolve_qualified-IsGrowing :
      (name_id str_id : ℕ) (n : NameRef)
      → IsGrowing (resolve_qualified xxh3_64 fuel name_id str_id n)
  unfolding resolve_qualified
  resolve_qualified-IsGrowing name_id str_id (NameRef.unresolved n) = search growing_rules
  resolve_qualified-IsGrowing name_id str_id (NameRef.resolved r) =
      search (growing_rules, search_targets-IsGrowing)

  resolve_in-IsGrowing :
      (name_id : ℕ) (n : Name) (scope : ParentScope)
      → IsGrowing (resolve_in xxh3_64 fuel name_id n scope)
  unfolding resolve_in
  resolve_in-IsGrowing name_id n top_level =
      recorded-IsGrowing name_id _ (search_ancestors-IsGrowing _ _)
  resolve_in-IsGrowing name_id n no_parent =
      recorded-IsGrowing name_id _ (run_resolution-IsGrowing n)
  resolve_in-IsGrowing name_id n (attached scope) =
      search (growing_rules, resolve_attached-IsGrowing)
  resolve_in-IsGrowing name_id n (parent scope) =
      search (growing_rules, resolve_qualified-IsGrowing)

  resolve_ref-IsGrowing :
      (name_id : ℕ) (n : NameRef) → IsGrowing (resolve_ref xxh3_64 fuel name_id n)
  unfolding resolve_ref
  resolve_ref-IsGrowing name_id (NameRef.resolved r) = search growing_rules
  resolve_ref-IsGrowing name_id (NameRef.unresolved n) =
      resolve_in-IsGrowing name_id n n.parent_scope

  pub resolve_constant_internal-IsGrowing :
      (name_id : ℕ) → IsGrowing (resolve_constant_internal xxh3_64 fuel name_id)
  unfolding resolve_constant_internal
  resolve_constant_internal-IsGrowing name_id = search (growing_rules, resolve_ref-IsGrowing)

  pub resolve_constant-IsGrowing : (name_id : ℕ) → IsGrowing (resolve_constant xxh3_64 fuel name_id)
  unfolding resolve_constant
  resolve_constant-IsGrowing name_id = search (growing_rules, resolve_constant_internal-IsGrowing)
