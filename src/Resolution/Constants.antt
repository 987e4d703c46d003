-- ===== src/Resolution/Constants.antt =====
-- The resolution of one constant of rust/rubydex/src/resolution.rs.
pub mod Growing
pub mod Recorded
pub mod First
use rubydex.Base
use rubydex.Base.{
  ℕ, Bool, true, false, not, ◌&&◌, ◌||◌, Option, none, some, List, [], ◌∷◌, Checked, done, panic,
  unwrap, if◌then◌else◌, ◌==◌,
}
use rubydex.Base.Map.{get, is_some}
use rubydex.Model.Ids.{Hash}
use rubydex.Model.Name.{Name, NameRef, ParentScope, no_parent, top_level, parent, attached, inner}
use rubydex.Model.Declaration.{Ancestor, Ancestors, Declaration, Namespace}
use rubydex.Graph.{Graph}
use rubydex.Graph.Alias.{is_constant_alias}
use rubydex.Graph.Declarations.{is_namespace}
use rubydex.Graph.Lookup.{object_id}
use rubydex.Graph.Names.{record_resolved_name}
use rubydex.Resolution.{
  Outcome, is_resolved_or_retry, Action, pure, reads, updates, ◌>>=◌, ◌>>◌, case_option,
}
use rubydex.Resolution.Chains.{resolve_alias_chains, member_of, first_namespace}
use rubydex.Resolution.Scopes.{search_lexical_scopes}
use rubydex.Resolution.Singleton.{queue_singleton_class}
use rubydex.Resolution.Linearize.{ancestors_of}

found_member : Option ℕ → Option ℕ → Checked Outcome → Checked Outcome
found_member (some member) linearization next = done (Outcome.resolved member linearization)
found_member none linearization next = next

-- the search of a complete or cyclic chain
unfoldable pub search_complete : Graph → ℕ → List Ancestor → Checked Outcome
unfolding found_member
search_complete g str_id [] = done (Outcome.unresolved none)
search_complete g str_id (Ancestor.partial name ∷ l) = search_complete g str_id l
search_complete g str_id (Ancestor.complete id ∷ l) =
    Base.◌>>=◌ (member_of g str_id id) λ m. found_member m none (search_complete g str_id l)

-- the search of a partial chain, which stops at an unresolved ancestor of another name
unfoldable pub search_partial : Graph → ℕ → ℕ → List Ancestor → Checked Outcome
unfolding found_member
search_partial g declaration_id str_id [] = done (Outcome.unresolved (some declaration_id))
search_partial g declaration_id str_id (Ancestor.partial name ∷ l) =
    Base.◌>>=◌ (unwrap (get name g.names)) λ n.
      let rest = search_partial g declaration_id str_id l in
      if (inner n).str == str_id then rest else done (Outcome.retry (some declaration_id))
search_partial g declaration_id str_id (Ancestor.complete id ∷ l) =
    Base.◌>>=◌ (member_of g str_id id)
      λ m. found_member m (some declaration_id) (search_partial g declaration_id str_id l)

unfoldable pub search_chain : Graph → ℕ → ℕ → Ancestors → Checked Outcome
search_chain g declaration_id str_id (Ancestors.complete l) = search_complete g str_id l
search_chain g declaration_id str_id (Ancestors.cyclic l) = search_complete g str_id l
search_chain g declaration_id str_id (Ancestors.partial l) =
    search_partial g declaration_id str_id l

-- an alias among the targets
unfoldable pub any_alias : Graph → List ℕ → Bool
any_alias g [] = false
any_alias g (id ∷ ids) = is_constant_alias g id || any_alias g ids

-- `Module(_) | Todo(_)`
unfoldable pub has_fallback : Graph → Option ℕ → Bool
has_fallback g none = false
has_fallback g (some id) = elim (get id g.declarations) [
  | some (Declaration.namespace (Namespace.module_namespace d)) ↦ true
  | some (Declaration.namespace (Namespace.todo d)) ↦ true
  | _ ↦ false
]

unfoldable pub chain_incomplete : Outcome → Bool
chain_incomplete (Outcome.retry (some id)) = true
chain_incomplete (Outcome.unresolved (some id)) = true
chain_incomplete _ = false

abbrev pub linearization_of : Outcome → Option ℕ
linearization_of (Outcome.resolved id linearization) = linearization
linearization_of (Outcome.unresolved linearization) = linearization
linearization_of (Outcome.retry linearization) = linearization

-- the first target that decides where to search
unfoldable pub decide_scope : Graph → List ℕ → Outcome × Option ℕ
decide_scope g [] = (Outcome.unresolved none, none)
decide_scope g (id ∷ ids) = elim (get id g.declarations) [
  | some (Declaration.constant_alias d) ↦ (Outcome.retry none, none)
  | some (Declaration.namespace n) ↦ (Outcome.unresolved none, some id)
  | _ ↦ decide_scope g ids
]

module _ (xxh3_64 : Hash) (fuel : ℕ) where
  unfoldable pub search_ancestors : ℕ → ℕ → Action Outcome
  search_ancestors declaration_id str_id = do
    a ← ancestors_of xxh3_64 fuel declaration_id
    reads (λ g. search_chain g declaration_id str_id a)

  search_scope : ℕ → Outcome × Option ℕ → Action (Outcome × Option ℕ)
  search_scope str_id (outcome, none) = pure (outcome, none)
  search_scope str_id (_, some id) = do
    outcome ← search_ancestors id str_id
    pure (outcome, some id)

  -- the ancestors of the nesting
  unfoldable pub search_nesting : ℕ → NameRef → Action (Outcome × Option ℕ)
  unfolding search_scope
  search_nesting str_id (NameRef.unresolved n) = pure (Outcome.retry none, none)
  search_nesting str_id (NameRef.resolved r) = do
    ids ← reads (λ g. resolve_alias_chains g r.declaration_id)
    scope ← reads (λ g. done (decide_scope g ids))
    search_scope str_id scope

  -- what is found in `Object`, or else what the nesting gave
  or_nesting : Outcome → Outcome → Outcome
  or_nesting (Outcome.resolved id linearization) outcome =
      Outcome.resolved id (linearization_of outcome)
  or_nesting _ outcome = outcome

  fall_back : ℕ → Outcome → Bool → Action Outcome
  fall_back str_id outcome false = pure outcome
  fall_back str_id outcome true = do
    object_outcome ← search_ancestors (object_id xxh3_64) str_id
    pure (or_nesting object_outcome outcome)

  after_nesting : ℕ → Outcome × Option ℕ → Action Outcome
  after_nesting str_id (Outcome.resolved id linearization, _) =
      pure (Outcome.resolved id linearization)
  after_nesting str_id (outcome, nesting_decl_id) = do
    is_module ← reads (λ g. done (has_fallback g nesting_decl_id))
    fall_back str_id outcome (is_module || chain_incomplete outcome)

  after_scopes : ℕ → ℕ → Outcome → Action Outcome
  after_scopes str_id nesting outcome =
      let onward = (do
        name ← reads (λ g. unwrap (get nesting g.names))
        found ← search_nesting str_id name
        after_nesting str_id found) in
      if is_resolved_or_retry outcome then pure outcome else onward

  unfoldable pub run_resolution : Name → Action Outcome
  unfolding after_scopes after_nesting fall_back or_nesting
  run_resolution name =
      case_option name.nesting (search_ancestors (object_id xxh3_64) name.str) λ nesting. do
        outcome ← reads (λ g. search_lexical_scopes g name name.str)
        after_scopes name.str nesting outcome

  record_outcome : ℕ → Outcome → Action Outcome
  record_outcome name_id (Outcome.resolved id linearization) = do
    updates (record_resolved_name name_id id)
    pure (Outcome.resolved id linearization)
  record_outcome name_id outcome = pure outcome

  -- the outcome, recorded if it is a resolution
  unfoldable pub recorded : ℕ → Action Outcome → Action Outcome
  unfolding record_outcome
  recorded name_id m = do outcome ← m; record_outcome name_id outcome

  -- the singleton class of a resolved receiver
  create_attached : ℕ → Option ℕ → Action Outcome
  create_attached name_id none = pure (Outcome.unresolved none)
  create_attached name_id (some singleton_id) = do
    updates (record_resolved_name name_id singleton_id)
    pure (Outcome.resolved singleton_id (some singleton_id))

  attach_to : ℕ → Option ℕ → Action Outcome
  attach_to name_id none = pure (Outcome.unresolved none)
  attach_to name_id (some target) = do
    singleton ← queue_singleton_class xxh3_64 target
    create_attached name_id singleton

  -- an alias is followed first
  attach_targets : ℕ → List ℕ → Bool → Action Outcome
  attach_targets name_id ids true = pure (Outcome.retry none)
  attach_targets name_id ids false = do
    target ← reads (λ g. done (first_namespace g ids))
    attach_to name_id target

  attach_declaration : ℕ → ℕ → Declaration → Action Outcome
  attach_declaration name_id target (Declaration.constant_alias d) = do
    ids ← reads (λ g. resolve_alias_chains g target)
    unfinished ← reads (λ g. done (any_alias g ids))
    attach_targets name_id ids unfinished
  attach_declaration name_id target _ = attach_to name_id (some target)

  -- `ParentScope::Attached`
  unfoldable pub resolve_attached : ℕ → NameRef → Action Outcome
  unfolding attach_declaration attach_targets attach_to create_attached
  resolve_attached name_id (NameRef.unresolved n) = pure (Outcome.retry none)
  resolve_attached name_id (NameRef.resolved r) = do
    d ← reads (λ g. unwrap (get r.declaration_id g.declarations))
    attach_declaration name_id r.declaration_id d

  -- the end of the loop over the targets of the parent scope
  unfoldable pub not_found : Bool → Option ℕ → Outcome
  not_found false missing = Outcome.unresolved none
  not_found true none = Outcome.retry none
  not_found true (some id) = Outcome.unresolved (some id)

  -- `get_or_insert`
  unfoldable pub first_missing : Option ℕ → Option ℕ → Option ℕ
  first_missing none b = b
  first_missing (some a) b = some a

  -- the loop; `again` is the rest of it
  after_target : ℕ → Outcome → Option ℕ → (Option ℕ → Action Outcome) → Action Outcome
  after_target name_id (Outcome.resolved id linearization) missing again = do
    updates (record_resolved_name name_id id)
    pure (Outcome.resolved id linearization)
  after_target name_id (Outcome.unresolved m) missing again = again (first_missing missing m)
  after_target name_id (Outcome.retry none) missing again = reads (λ g. panic)
  after_target name_id (Outcome.retry (some m)) missing again =
      again (first_missing missing (some m))

  search_target :
      ℕ
      → ℕ
      → ℕ
      → Option Declaration
      → Bool
      → Option ℕ
      → (Bool → Option ℕ → Action Outcome)
      → Action Outcome
  search_target name_id str_id id (some (Declaration.constant_alias d)) found missing again =
      pure (Outcome.retry none)
  search_target name_id str_id id (some (Declaration.namespace n)) found missing again = do
    outcome ← search_ancestors id str_id
    after_target name_id outcome missing (again true)
  search_target name_id str_id id _ found missing again = again found missing

  unfoldable pub search_targets : ℕ → ℕ → List ℕ → Bool → Option ℕ → Action Outcome
  unfolding search_target after_target
  search_targets name_id str_id [] found missing = pure (not_found found missing)
  search_targets name_id str_id (id ∷ ids) found missing = do
    d ← reads (λ g. done (get id g.declarations))
    search_target name_id str_id id d found missing (search_targets name_id str_id ids)

  -- `ParentScope::Some`
  unfoldable pub resolve_qualified : ℕ → ℕ → NameRef → Action Outcome
  resolve_qualified name_id str_id (NameRef.unresolved n) = pure (Outcome.retry none)
  resolve_qualified name_id str_id (NameRef.resolved r) = do
    ids ← reads (λ g. resolve_alias_chains g r.declaration_id)
    search_targets name_id str_id ids false none

  unfoldable pub resolve_in : ℕ → Name → ParentScope → Action Outcome
  resolve_in name_id name top_level =
      recorded name_id (search_ancestors (object_id xxh3_64) name.str)
  resolve_in name_id name no_parent = recorded name_id (run_resolution name)
  resolve_in name_id name (attached scope) = do
    parent_scope ← reads (λ g. unwrap (get scope g.names))
    resolve_attached name_id parent_scope
  resolve_in name_id name (parent scope) = do
    parent_scope ← reads (λ g. unwrap (get scope g.names))
    resolve_qualified name_id name.str parent_scope

  unfoldable pub resolve_ref : ℕ → NameRef → Action Outcome
  resolve_ref name_id (NameRef.resolved r) = pure (Outcome.resolved r.declaration_id none)
  resolve_ref name_id (NameRef.unresolved name) = resolve_in name_id name name.parent_scope

  unfoldable pub resolve_constant_internal : ℕ → Action Outcome
  resolve_constant_internal name_id = do
    name_ref ← reads (λ g. unwrap (get name_id g.names))
    resolve_ref name_id name_ref

  resolution : Outcome → Option ℕ
  resolution (Outcome.resolved id linearization) = some id
  resolution _ = none

  unfoldable pub resolve_constant : ℕ → Action (Option ℕ)
  unfolding resolution
  resolve_constant name_id = do
    outcome ← resolve_constant_internal name_id
    pure (resolution outcome)
