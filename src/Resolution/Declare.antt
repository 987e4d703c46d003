-- ===== src/Resolution/Declare.antt =====
-- How the definition of a constant gets its declaration, of rust/rubydex/src/resolution.rs.
pub mod Growing
use rubydex.Base
use rubydex.Base.{
  ℕ, zero, suc, Bool, true, false, not, ◌&&◌, Option, none, some, List, [], ◌∷◌, ◌++◌, Checked,
  done, panic, out_of_fuel, unwrap, if◌then◌else◌, ◌==◌, length,
}
use rubydex.Base.Map.{get, insert, is_some}
use rubydex.Model.Ids.{Text, codes, Hash, id_from}
use rubydex.Model.StringRef.{StringRef}
use rubydex.Model.Name
use rubydex.Model.Name.{Name, NameRef, ParentScope, top_level, parent_id}
use rubydex.Model.Declaration.{
  Declaration, Namespace, as_namespace, base_of, new_namespace, on_namespace,
}
use rubydex.Graph.{Graph, WorkUnit}
use rubydex.Graph.Declarations.{
  add_declaration, add_member, promote_constant_to_namespace, all_definitions_promotable,
  is_namespace_definition, is_promotable_declaration,
}
use rubydex.Graph.Lookup.{object_id}
use rubydex.Graph.Names.{record_resolved_name}
use rubydex.Resolution.{
  Outcome, Action, pure, reads, changes, updates, push_back, ◌>>=◌, ◌>>◌, case_option,
}
use rubydex.Resolution.Chains.{resolve_to_primary_namespace}
use rubydex.Resolution.Singleton.{module_declaration, queue_ancestors}
use rubydex.Resolution.Linearize.{on_namespace_at}
use rubydex.Resolution.Constants.{resolve_constant_internal}

-- the text of a string
unfoldable pub text_of : ℕ → Graph → Checked Text
text_of str_id g = Base.◌>>=◌ (unwrap (get str_id g.strings)) λ s. done s.value

-- the name of a declaration
unfoldable pub declaration_name : ℕ → Graph → Checked Text
declaration_name id g = Base.◌>>=◌ (unwrap (get id g.declarations)) λ d. done (base_of d).name

unfoldable pub is_top_level : ParentScope → Bool
is_top_level top_level = true
is_top_level _ = false

-- whether `add_declaration` calls the function that builds a new declaration
unfoldable pub builds : Hash → ℕ → Text → Graph → Bool
builds xxh3_64 definition_id name g = elim (get (id_from xxh3_64 name) g.declarations) [
  | none ↦ true
  | some existing ↦ is_namespace_definition g definition_id && is_promotable_declaration g existing
]

module _ (xxh3_64 : Hash) (fuel : ℕ) where
  -- what the owner is when the parent scope has been resolved
  owner_after : Bool → Outcome → Action Outcome
  owner_after preserve_retry (Outcome.resolved id linearization) =
      reads (λ g. resolve_to_primary_namespace g id linearization)
  owner_after preserve_retry (Outcome.retry none) =
      pure (if preserve_retry then Outcome.retry none else Outcome.unresolved none)
  owner_after preserve_retry outcome = pure outcome

  owner_of_nesting : NameRef → Action Outcome
  owner_of_nesting (NameRef.resolved r) =
      reads (λ g. resolve_to_primary_namespace g r.declaration_id none)
  owner_of_nesting (NameRef.unresolved n) = pure (Outcome.retry none)

  owner_in : Option ℕ → Action Outcome
  owner_in none = pure (Outcome.resolved (object_id xxh3_64) none)
  owner_in (some nesting_id) = do
    nesting ← reads (λ g. unwrap (get nesting_id g.names))
    owner_of_nesting nesting

  unfoldable pub name_owner_id : ℕ → Bool → Action Outcome
  unfolding owner_after owner_in owner_of_nesting
  name_owner_id name_id preserve_retry = do
    name_ref ← reads (λ g. unwrap (get name_id g.names))
    let name = Name.inner name_ref
    case_option (parent_id name.parent_scope)
        (owner_in (if is_top_level name.parent_scope then none else name.nesting))
        λ parent_scope. do
          outcome ← resolve_constant_internal xxh3_64 fuel parent_scope
          owner_after preserve_retry outcome

  -- `Object`, unless the outcome is a declaration
  or_object : Outcome → ℕ
  or_object (Outcome.resolved id linearization) = id
  or_object _ = object_id xxh3_64

  -- the qualified name of what the owner holds
  qualified : ℕ → ℕ → Graph → Checked Text
  qualified owner_id str_id g = Base.◌>>=◌ (text_of str_id g) λ name.
      let prefixed =
        Base.◌>>=◌ (declaration_name owner_id g) λ owner. done (owner ++ (codes "::" ++ name)) in
      if owner_id == object_id xxh3_64 then done name else prefixed

  -- a new placeholder, if there is no declaration of the name
  insert_todo : ℕ → Text → ℕ → Graph → Checked (Graph × ℕ)
  insert_todo owner_id name str_id g =
      let id = id_from xxh3_64 name in
      let todo = Declaration.namespace (Namespace.todo (new_namespace name owner_id)) in
      let added =
        Base.◌>>=◌
          (add_member owner_id id str_id
            (record g { declarations = insert id todo g.declarations }))
          (λ g'. done (g', id)) in
      if is_some (get id g.declarations) then done (g, id) else added

  -- the owner of the placeholder; `again` is the recursive call
  todo_owner : (ℕ → Action ℕ) → ℕ → Outcome → Action ℕ
  todo_owner again parent_scope (Outcome.resolved id linearization) = pure id
  todo_owner again parent_scope _ = again parent_scope

  todo_owner_id : (ℕ → Action ℕ) → ℕ → Bool → Action ℕ
  todo_owner_id again parent_scope false = pure (object_id xxh3_64)
  todo_owner_id again parent_scope true = do
    outcome ← name_owner_id parent_scope false
    todo_owner again parent_scope outcome

  unfoldable pub todo_loop : ℕ → ℕ → Action ℕ
  unfolding todo_owner_id todo_owner or_object qualified insert_todo
  todo_loop zero name_id = reads (λ g. out_of_fuel)
  todo_loop (suc rounds) name_id = do
    name_ref ← reads (λ g. unwrap (get name_id g.names))
    parent_scope ← reads (λ g. unwrap (parent_id (Name.inner name_ref).parent_scope))
    parent_name ← reads (λ g. unwrap (get parent_scope g.names))
    let qualifies = is_some (parent_id (Name.inner parent_name).parent_scope)
    owner ← todo_owner_id (todo_loop rounds) parent_scope qualifies
    outcome ← reads (λ g. resolve_to_primary_namespace g owner none)
    name ← reads (qualified (or_object outcome) (Name.inner parent_name).str)
    changes (insert_todo (or_object outcome) name (Name.inner parent_name).str)

  -- The fuel counts the parent scopes of the name.
  unfoldable pub create_todo_for_parent : ℕ → Action ℕ
  create_todo_for_parent name_id = do
    count ← reads (λ g. done (length g.names))
    todo_loop count name_id

  -- an unknown owner gets a placeholder, but not for a singleton class
  or_todo : ℕ → Bool → Outcome → Action Outcome
  or_todo name_id true (Outcome.unresolved none) = pure (Outcome.retry none)
  or_todo name_id false (Outcome.unresolved none) = do
    id ← create_todo_for_parent name_id
    pure (Outcome.resolved id none)
  or_todo name_id singleton outcome = pure outcome

  -- a promotable owner becomes a module
  promote_owner : ℕ → Bool → Action (Unit {0})
  promote_owner owner_id false = pure tt
  promote_owner owner_id true = do
    updates (promote_constant_to_namespace owner_id module_declaration)
    queue_ancestors owner_id

  is_promotable_constant : Declaration → Graph → Bool
  is_promotable_constant (Declaration.constant d) g =
      all_definitions_promotable g (Declaration.constant d)
  is_promotable_constant _ g = false

  -- the owner's side of the membership
  own : ℕ → ℕ → ℕ → Bool → Bool → Action (Unit {0})
  own owner_id declaration_id str_id false singleton = pure tt
  own owner_id declaration_id str_id true true =
      updates
        (on_namespace_at owner_id (λ n. record n { singleton_class_id = some declaration_id }))
  own owner_id declaration_id str_id true false =
      updates (add_member owner_id declaration_id str_id)

  -- the declaration in the owner that was found, and whether it was built
  declare_in :
      ℕ → ℕ → ℕ → Bool → (Text → ℕ → Declaration) → ℕ → Option ℕ → Bool → Action (Outcome × Bool)
  declare_in name_id definition_id str_id singleton builder owner_id linearization owned = do
    name ← reads (qualified owner_id str_id)
    built ← reads (λ g. done (builds xxh3_64 definition_id name g))
    id ← changes (add_declaration xxh3_64 definition_id name (λ n. builder n owner_id))
    own owner_id id str_id owned singleton
    updates (record_resolved_name name_id id)
    pure (Outcome.resolved id linearization, built)

  skip_or : Bool → Action (Outcome × Bool) → Action (Outcome × Bool)
  skip_or true m = pure (Outcome.unresolved none, false)
  skip_or false m = m

  declare_after : ℕ → ℕ → ℕ → Bool → (Text → ℕ → Declaration) → Outcome → Action (Outcome × Bool)
  declare_after name_id definition_id str_id singleton builder (Outcome.resolved owner_id l) = do
    text ← reads (text_of str_id)
    owner ← reads (λ g. unwrap (get owner_id g.declarations))
    promotable ← reads (λ g. done (is_promotable_constant owner g))
    promote_owner owner_id promotable
    owner' ← reads (λ g. unwrap (get owner_id g.declarations))
    let owned = is_some (as_namespace owner')
    skip_or (singleton && not owned)
        (declare_in name_id definition_id str_id singleton builder owner_id l owned)
  declare_after name_id definition_id str_id singleton builder outcome = pure (outcome, false)

  -- the outcome, and whether a new declaration was built
  unfoldable pub handle_constant_declaration :
      ℕ → ℕ → Bool → (Text → ℕ → Declaration) → Action (Outcome × Bool)
  unfolding or_todo declare_after promote_owner is_promotable_constant skip_or declare_in own
      qualified
  handle_constant_declaration name_id definition_id singleton builder = do
    name_ref ← reads (λ g. unwrap (get name_id g.names))
    owner ← name_owner_id name_id singleton
    outcome ← or_todo name_id singleton owner
    declare_after name_id definition_id (Name.inner name_ref).str singleton builder outcome
