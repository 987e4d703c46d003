-- ===== src/Resolution/Declare/Growing.antt =====
-- What the declaration of a constant keeps.
use rubydex.Base.{
  ℕ, zero, suc, Bool, true, false, Option, none, some, done, refl, Ensures->>=, Bool-cases, inl,
  inr,
}
use rubydex.Base.Map.{get, insert, is_some}
use rubydex.Model.Ids.{Text, Hash, id_from}
use rubydex.Model.Name.{NameRef}
use rubydex.Model.Declaration.{Declaration, Namespace, new_namespace}
use rubydex.Graph.{Graph}
use rubydex.Graph.Declarations.{add_member}
use rubydex.Resolution.{Outcome, Action}
use rubydex.Resolution.Grows.{
  IsGrowing, growing_rules, IsGrowing-updates, IsGrowing-changes, IsGrowing-reads, IsGrowing->>=,
  Grows, Grows-refl, Grows-trans, GrowsTo,
}
use rubydex.Resolution.Grows.Steps.{
  Grows-insert, promote-Grows, add_declaration-Grows, add_member-Grows, record_resolved_name-Grows,
}
use rubydex.Resolution.Singleton.{module_declaration}
use rubydex.Resolution.Singleton.Growing.{queue_ancestors-IsGrowing}
use rubydex.Resolution.Linearize.Growing.{on_namespace_at-Grows}
use rubydex.Resolution.Constants.Growing.{resolve_constant_internal-IsGrowing}
use rubydex.Resolution.Declare.{
  owner_after, owner_of_nesting, owner_in, name_owner_id, insert_todo, todo_owner, todo_owner_id,
  todo_loop, create_todo_for_parent, or_todo, promote_owner, own, declare_in, skip_or,
  declare_after, handle_constant_declaration,
}

module _ (xxh3_64 : Hash) (fuel : ℕ) where
  owner_after-IsGrowing : (b : Bool) (o : Outcome) → IsGrowing (owner_after xxh3_64 fuel b o)
  unfolding owner_after
  owner_after-IsGrowing b (Outcome.resolved id l) = search growing_rules
  owner_after-IsGrowing b (Outcome.retry none) = search growing_rules
  owner_after-IsGrowing b (Outcome.retry (some l)) = search growing_rules
  owner_after-IsGrowing b (Outcome.unresolved l) = search growing_rules

  owner_of_nesting-IsGrowing : (n : NameRef) → IsGrowing (owner_of_nesting xxh3_64 fuel n)
  unfolding owner_of_nesting
  owner_of_nesting-IsGrowing (NameRef.resolved r) = search growing_rules
  owner_of_nesting-IsGrowing (NameRef.unresolved n) = search growing_rules

  owner_in-IsGrowing : (o : Option ℕ) → IsGrowing (owner_in xxh3_64 fuel o)
  unfolding owner_in
  owner_in-IsGrowing none = search growing_rules
  owner_in-IsGrowing (some id) = search (growing_rules, owner_of_nesting-IsGrowing)

  name_owner_id-IsGrowing :
      (name_id : ℕ) (b : Bool) → IsGrowing (name_owner_id xxh3_64 fuel name_id b)
  unfolding name_owner_id
  name_owner_id-IsGrowing name_id b = search (
    growing_rules, owner_in-IsGrowing, owner_after-IsGrowing, resolve_constant_internal-IsGrowing,
  )

  insert_todo-Grows :
      (owner_id : ℕ) (name : Text) (str_id : ℕ)
      → GrowsTo (λ x. x.0) (insert_todo xxh3_64 fuel owner_id name str_id)
  unfolding insert_todo
  insert_todo-Grows owner_id name str_id g =
      let id = id_from xxh3_64 name in
      let todo = Declaration.namespace (Namespace.todo (new_namespace name owner_id)) in
      let g' : Graph = record g { declarations = insert id todo g.declarations } in
      elim (Bool-cases (is_some (get id g.declarations))) [
        | inl there ↦ rw there (Grows-refl g)
        | inr absent ↦ rw absent (
            Ensures->>= (λ h. Grows g' h) (λ x. Grows g x.0) (add_member owner_id id str_id g')
              (λ h. done (h, id)) (add_member-Grows owner_id id str_id g')
              (λ h more. Grows-trans g g' h (Grows-insert g id todo (λ k. refl)) more))
      ]

  todo_owner-IsGrowing :
      (again : ℕ → Action ℕ) (id : ℕ) (o : Outcome)
      → ((id : ℕ) → IsGrowing (again id))
      → IsGrowing (todo_owner xxh3_64 fuel again id o)
  unfolding todo_owner
  todo_owner-IsGrowing again id (Outcome.resolved d l) h = search growing_rules
  todo_owner-IsGrowing again id (Outcome.unresolved l) h = h id
  todo_owner-IsGrowing again id (Outcome.retry l) h = h id

  todo_owner_id-IsGrowing :
      (again : ℕ → Action ℕ) (id : ℕ) (b : Bool)
      → ((id : ℕ) → IsGrowing (again id))
      → IsGrowing (todo_owner_id xxh3_64 fuel again id b)
  unfolding todo_owner_id
  todo_owner_id-IsGrowing again id false h = search growing_rules
  todo_owner_id-IsGrowing again id true h =
      IsGrowing->>= _ _ (name_owner_id-IsGrowing id false) λ o. todo_owner-IsGrowing again id o h

  todo_loop-IsGrowing : (rounds id : ℕ) → IsGrowing (todo_loop xxh3_64 fuel rounds id)
  unfolding todo_loop
  todo_loop-IsGrowing zero id = IsGrowing-reads _
  todo_loop-IsGrowing (suc rounds) id = IsGrowing->>= _ _ (IsGrowing-reads _) λ name.
      IsGrowing->>= _ _ (IsGrowing-reads _) λ scope.
        IsGrowing->>= _ _ (IsGrowing-reads _) λ parent_name.
          IsGrowing->>= _ _
            (todo_owner_id-IsGrowing (todo_loop xxh3_64 fuel rounds) scope _
              (todo_loop-IsGrowing rounds))
            λ owner. search (growing_rules, IsGrowing-changes, insert_todo-Grows)

  create_todo-IsGrowing : (id : ℕ) → IsGrowing (create_todo_for_parent xxh3_64 fuel id)
  unfolding create_todo_for_parent
  create_todo-IsGrowing id = search (growing_rules, todo_loop-IsGrowing)

  or_todo-IsGrowing : (id : ℕ) (b : Bool) (o : Outcome) → IsGrowing (or_todo xxh3_64 fuel id b o)
  unfolding or_todo
  or_todo-IsGrowing id true (Outcome.unresolved none) = search growing_rules
  or_todo-IsGrowing id false (Outcome.unresolved none) =
      search (growing_rules, create_todo-IsGrowing)
  or_todo-IsGrowing id true (Outcome.unresolved (some l)) = search growing_rules
  or_todo-IsGrowing id false (Outcome.unresolved (some l)) = search growing_rules
  or_todo-IsGrowing id true (Outcome.retry l) = search growing_rules
  or_todo-IsGrowing id false (Outcome.retry l) = search growing_rules
  or_todo-IsGrowing id true (Outcome.resolved d l) = search growing_rules
  or_todo-IsGrowing id false (Outcome.resolved d l) = search growing_rules

  promote_owner-IsGrowing : (id : ℕ) (b : Bool) → IsGrowing (promote_owner xxh3_64 fuel id b)
  unfolding promote_owner
  promote_owner-IsGrowing id false = search growing_rules
  promote_owner-IsGrowing id true =
      IsGrowing->>= _ _ (IsGrowing-updates _ (promote-Grows id module_declaration))
        λ u. queue_ancestors-IsGrowing id

  own-IsGrowing :
      (owner_id id str_id : ℕ) (owned singleton : Bool)
      → IsGrowing (own xxh3_64 fuel owner_id id str_id owned singleton)
  unfolding own
  own-IsGrowing owner_id id str_id false singleton = search growing_rules
  own-IsGrowing owner_id id str_id true true =
      IsGrowing-updates _ (on_namespace_at-Grows owner_id _)
  own-IsGrowing owner_id id str_id true false =
      IsGrowing-updates _ (add_member-Grows owner_id id str_id)

  declare_in-IsGrowing :
      (name_id definition_id str_id : ℕ) (singleton : Bool) (builder : Text → ℕ → Declaration)
      (owner_id : ℕ) (l : Option ℕ) (owned : Bool)
      → IsGrowing
          (declare_in xxh3_64 fuel name_id definition_id str_id singleton builder owner_id l owned)
  unfolding declare_in
  declare_in-IsGrowing name_id definition_id str_id singleton builder owner_id l owned =
      IsGrowing->>= _ _ (IsGrowing-reads _) λ name. IsGrowing->>= _ _ (IsGrowing-reads _) λ built.
        IsGrowing->>= _ _
          (IsGrowing-changes _
            (add_declaration-Grows xxh3_64 definition_id name (λ n. builder n owner_id)))
          λ id. search (growing_rules, own-IsGrowing, IsGrowing-updates, record_resolved_name-Grows)

  skip_or-IsGrowing :
      (b : Bool) (m : Action (Outcome × Bool)) → IsGrowing m → IsGrowing (skip_or xxh3_64 fuel b m)
  unfolding skip_or
  skip_or-IsGrowing true m h = search growing_rules
  skip_or-IsGrowing false m h = h

  declare_after-IsGrowing :
      (name_id definition_id str_id : ℕ) (singleton : Bool) (builder : Text → ℕ → Declaration)
      (o : Outcome)
      → IsGrowing (declare_after xxh3_64 fuel name_id definition_id str_id singleton builder o)
  unfolding declare_after
  declare_after-IsGrowing name_id definition_id str_id singleton builder
        (Outcome.resolved owner_id l) =
      IsGrowing->>= _ _ (IsGrowing-reads _) λ text. IsGrowing->>= _ _ (IsGrowing-reads _) λ owner.
        IsGrowing->>= _ _ (IsGrowing-reads _) λ promotable.
          IsGrowing->>= _ _ (promote_owner-IsGrowing owner_id promotable) λ u.
            IsGrowing->>= _ _ (IsGrowing-reads _) λ owner'.
              skip_or-IsGrowing _ _
                (declare_in-IsGrowing name_id definition_id str_id singleton builder owner_id l _)
  declare_after-IsGrowing name_id definition_id str_id singleton builder (Outcome.unresolved l) =
      search growing_rules
  declare_after-IsGrowing name_id definition_id str_id singleton builder (Outcome.retry l) =
      search growing_rules

  pub handle_constant-IsGrowing :
      (name_id definition_id : ℕ) (singleton : Bool) (builder : Text → ℕ → Declaration)
      → IsGrowing (handle_constant_declaration xxh3_64 fuel name_id definition_id singleton builder)
  unfolding handle_constant_declaration
  handle_constant-IsGrowing name_id definition_id singleton builder =
      search (growing_rules, name_owner_id-IsGrowing, or_todo-IsGrowing, declare_after-IsGrowing)
