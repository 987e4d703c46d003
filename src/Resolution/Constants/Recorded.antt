-- ===== src/Resolution/Constants/Recorded.antt =====
-- A constant that is reported to be resolved has its name resolved in the graph.

use rubydex.Base.{
  ℕ, Bool, true, false, Option, none, some, List, [], ◌∷◌, done, panic, ◌≡◌, refl, Ensures,
  Ensures-read, Ensures->>=, arith, subst,
}
use rubydex.Base.Map.{get, remove, get-insert}
use rubydex.Model.Ids.{Hash}
use rubydex.Model.Name.{
  Name, NameRef, ResolvedName, ParentScope, no_parent, top_level, parent, attached,
}
use rubydex.Model.Declaration.{Declaration}
use rubydex.Graph.{Graph}
use rubydex.Graph.Names.{record_resolved_name}
use rubydex.Resolution.{Outcome, Resolver, Action, pure, reads, updates, ◌>>=◌, ◌>>◌}
use rubydex.Resolution.Constants.{
  record_outcome, recorded, create_attached, attach_to, attach_targets, attach_declaration,
  resolve_attached, not_found, after_target, search_target, search_targets, resolve_qualified,
  resolve_in, resolve_ref, resolve_constant_internal,
}

abbrev pub IsResolved : ℕ → Graph → Type 0
IsResolved name_id g = (n : ResolvedName) × (get name_id g.names ≡ some (NameRef.resolved n))

-- what a reported resolution says of the graph
abbrev pub Reports : ℕ → Outcome → Graph → Type 0
Reports name_id (Outcome.resolved id l) g = IsResolved name_id g
Reports name_id _ g = Unit

record IsReporting (name_id : ℕ) (m : Action Outcome) : Type 0 where
  at : (r : Resolver) → Ensures (λ x. Reports name_id x.0 (x.1).graph) (m r)

record_resolved_name-IsResolved :
    (name_id id : ℕ) (g : Graph) → Ensures (IsResolved name_id) (record_resolved_name name_id id g)
unfolding record_resolved_name
record_resolved_name-IsResolved name_id id g = named (get name_id g.names) refl
  where
    named :
        (o : Option NameRef)
        → get name_id g.names ≡ o
        → Ensures (IsResolved name_id) (record_resolved_name name_id id g)
    named none e = rw (e, Ensures, record_resolved_name) tt
    named (some (NameRef.resolved n)) e = rw (e, Ensures, record_resolved_name) (n, e)
    named (some (NameRef.unresolved n)) e =
        let now : ResolvedName = record { name = n; declaration_id = id } in
        rw (e, Ensures, record_resolved_name)
          (
            now,
            ground
                (arith, get-insert name_id name_id (NameRef.resolved now) (remove name_id g.names)),
          )

IsReporting->>= :
    {A : Type 0} (name_id : ℕ) (m : Action A) (f : A → Action Outcome)
    → ((a : A) → IsReporting name_id (f a))
    → IsReporting name_id (m >>= f)
unfolding ◌>>=◌
IsReporting->>= name_id m f h = record {
  at = λ r.
      Ensures-read (λ x. Reports name_id x.0 (x.1).graph) (m r) (λ (a, r'). f a r')
        λ (a, r'). (h a).at r';
}

-- a name that is recorded before it is reported
IsReporting-record :
    (name_id id : ℕ) (o : Outcome)
    → IsReporting name_id (updates (record_resolved_name name_id id) >> pure o)
unfolding ◌>>=◌ updates pure
IsReporting-record name_id id o = record {
  at = λ r.
      Ensures->>= (λ x. IsResolved name_id (x.1).graph) (λ x. Reports name_id x.0 (x.1).graph)
        (updates (record_resolved_name name_id id) r) (λ (u, r'). pure o r')
        (Ensures->>= (IsResolved name_id) (λ x. IsResolved name_id (x.1).graph)
          (record_resolved_name name_id id r.graph) (λ g. done (tt, record r { graph = g }))
          (record_resolved_name-IsResolved name_id id r.graph) λ g h. h)
        λ (u, r') h. outcome o r' h;
}
  where
    outcome :
        (o : Outcome) (r' : Resolver) → IsResolved name_id r'.graph → Reports name_id o r'.graph
    outcome (Outcome.resolved d l) r' h = h
    outcome (Outcome.unresolved l) r' h = tt
    outcome (Outcome.retry l) r' h = tt

IsReporting-unresolved :
    (name_id : ℕ) (l : Option ℕ) → IsReporting name_id (pure (Outcome.unresolved l))
unfolding pure
IsReporting-unresolved name_id l = record { at = λ r. tt }

IsReporting-retry : (name_id : ℕ) (l : Option ℕ) → IsReporting name_id (pure (Outcome.retry l))
unfolding pure
IsReporting-retry name_id l = record { at = λ r. tt }

IsReporting-panic : (name_id : ℕ) → IsReporting name_id (reads (λ g. panic))
unfolding reads
IsReporting-panic name_id = record { at = λ r. tt }

ruleset reporting_rules = (
  IsReporting->>=, IsReporting-record, IsReporting-unresolved, IsReporting-retry, IsReporting-panic,
)

module _ (xxh3_64 : Hash) (fuel name_id : ℕ) where
  record_outcome-IsReporting :
      (o : Outcome) → IsReporting name_id (record_outcome xxh3_64 fuel name_id o)
  unfolding record_outcome
  record_outcome-IsReporting (Outcome.resolved id l) = search reporting_rules
  record_outcome-IsReporting (Outcome.unresolved l) = search reporting_rules
  record_outcome-IsReporting (Outcome.retry l) = search reporting_rules

  recorded-IsReporting :
      (m : Action Outcome) → IsReporting name_id (recorded xxh3_64 fuel name_id m)
  unfolding recorded
  recorded-IsReporting m = IsReporting->>= name_id m _ record_outcome-IsReporting

  create_attached-IsReporting :
      (o : Option ℕ) → IsReporting name_id (create_attached xxh3_64 fuel name_id o)
  unfolding create_attached
  create_attached-IsReporting none = search reporting_rules
  create_attached-IsReporting (some id) = search reporting_rules

  attach_to-IsReporting : (o : Option ℕ) → IsReporting name_id (attach_to xxh3_64 fuel name_id o)
  unfolding attach_to
  attach_to-IsReporting none = search reporting_rules
  attach_to-IsReporting (some id) = IsReporting->>= name_id _ _ create_attached-IsReporting

  attach_targets-IsReporting :
      (ids : List ℕ) (b : Bool) → IsReporting name_id (attach_targets xxh3_64 fuel name_id ids b)
  unfolding attach_targets
  attach_targets-IsReporting ids true = search reporting_rules
  attach_targets-IsReporting ids false = IsReporting->>= name_id _ _ attach_to-IsReporting

  attach_declaration-IsReporting :
      (id : ℕ) (d : Declaration)
      → IsReporting name_id (attach_declaration xxh3_64 fuel name_id id d)
  unfolding attach_declaration
  attach_declaration-IsReporting id (Declaration.constant_alias d) =
      IsReporting->>= name_id _ _
        λ ids. IsReporting->>= name_id _ _ (attach_targets-IsReporting ids)
  attach_declaration-IsReporting id (Declaration.namespace d) = attach_to-IsReporting _
  attach_declaration-IsReporting id (Declaration.constant d) = attach_to-IsReporting _
  attach_declaration-IsReporting id (Declaration.method d) = attach_to-IsReporting _
  attach_declaration-IsReporting id (Declaration.global_variable d) = attach_to-IsReporting _
  attach_declaration-IsReporting id (Declaration.instance_variable d) = attach_to-IsReporting _
  attach_declaration-IsReporting id (Declaration.class_variable d) = attach_to-IsReporting _

  resolve_attached-IsReporting :
      (n : NameRef) → IsReporting name_id (resolve_attached xxh3_64 fuel name_id n)
  unfolding resolve_attached
  resolve_attached-IsReporting (NameRef.unresolved n) = search reporting_rules
  resolve_attached-IsReporting (NameRef.resolved r) =
      IsReporting->>= name_id _ _ (attach_declaration-IsReporting r.declaration_id)

  not_found-IsReporting :
      (found : Bool) (missing : Option ℕ)
      → IsReporting name_id (pure (not_found xxh3_64 fuel found missing))
  unfolding not_found
  not_found-IsReporting false missing = search reporting_rules
  not_found-IsReporting true none = search reporting_rules
  not_found-IsReporting true (some id) = search reporting_rules

  after_target-IsReporting :
      (o : Outcome) (missing : Option ℕ) (again : Option ℕ → Action Outcome)
      → ((missing : Option ℕ) → IsReporting name_id (again missing))
      → IsReporting name_id (after_target xxh3_64 fuel name_id o missing again)
  unfolding after_target
  after_target-IsReporting (Outcome.resolved id l) missing again h = search reporting_rules
  after_target-IsReporting (Outcome.unresolved l) missing again h = h _
  after_target-IsReporting (Outcome.retry none) missing again h = search reporting_rules
  after_target-IsReporting (Outcome.retry (some l)) missing again h = h _

  search_target-IsReporting :
      (str_id id : ℕ) (o : Option Declaration) (found : Bool) (missing : Option ℕ)
      (again : Bool → Option ℕ → Action Outcome)
      → ((found : Bool) (missing : Option ℕ) → IsReporting name_id (again found missing))
      → IsReporting name_id (search_target xxh3_64 fuel name_id str_id id o found missing again)
  unfolding search_target
  search_target-IsReporting str_id id (some (Declaration.constant_alias d)) found missing again h =
      search reporting_rules
  search_target-IsReporting str_id id (some (Declaration.namespace d)) found missing again h =
      IsReporting->>= name_id _ _ λ o. after_target-IsReporting o missing (again true) (h true)
  search_target-IsReporting str_id id none found missing again h = h _ _
  search_target-IsReporting str_id id (some (Declaration.constant d)) found missing again h = h _ _
  search_target-IsReporting str_id id (some (Declaration.method d)) found missing again h = h _ _
  search_target-IsReporting str_id id (some (Declaration.global_variable d)) found missing again h =
      h _ _
  search_target-IsReporting str_id id (some (Declaration.instance_variable d)) found missing again
        h =
      h _ _
  search_target-IsReporting str_id id (some (Declaration.class_variable d)) found missing again h =
      h _ _

  search_targets-IsReporting :
      (str_id : ℕ) (ids : List ℕ) (found : Bool) (missing : Option ℕ)
      → IsReporting name_id (search_targets xxh3_64 fuel name_id str_id ids found missing)
  unfolding search_targets
  search_targets-IsReporting str_id [] found missing = not_found-IsReporting found missing
  search_targets-IsReporting str_id (id ∷ ids) found missing = IsReporting->>= name_id _ _ λ d.
      search_target-IsReporting str_id id d found missing
        (search_targets xxh3_64 fuel name_id str_id ids) (search_targets-IsReporting str_id ids)

  resolve_qualified-IsReporting :
      (str_id : ℕ) (n : NameRef)
      → IsReporting name_id (resolve_qualified xxh3_64 fuel name_id str_id n)
  unfolding resolve_qualified
  resolve_qualified-IsReporting str_id (NameRef.unresolved n) = search reporting_rules
  resolve_qualified-IsReporting str_id (NameRef.resolved r) =
      IsReporting->>= name_id _ _ λ ids. search_targets-IsReporting str_id ids false none

  resolve_in-IsReporting :
      (n : Name) (scope : ParentScope)
      → IsReporting name_id (resolve_in xxh3_64 fuel name_id n scope)
  unfolding resolve_in
  resolve_in-IsReporting n top_level = recorded-IsReporting _
  resolve_in-IsReporting n no_parent = recorded-IsReporting _
  resolve_in-IsReporting n (attached scope) =
      IsReporting->>= name_id _ _ resolve_attached-IsReporting
  resolve_in-IsReporting n (parent scope) =
      IsReporting->>= name_id _ _ (resolve_qualified-IsReporting n.str)

  named-Reports :
      (r : Resolver) (o : Option NameRef)
      → get name_id r.graph.names ≡ o
      → Ensures
          (λ x. Reports name_id x.0 (x.1).graph)
          (resolve_constant_internal xxh3_64 fuel name_id r)
  unfolding resolve_constant_internal resolve_ref ◌>>=◌ reads pure
  named-Reports r none e = rw (e, Ensures) tt
  named-Reports r (some (NameRef.resolved n)) e = rw (e, Ensures) (n, e)
  named-Reports r (some (NameRef.unresolved n)) e =
      rw (e, Ensures) ((resolve_in-IsReporting n n.parent_scope).at r)

  pub resolve_constant_internal-Reports :
      (r : Resolver)
      → Ensures
          (λ x. Reports name_id x.0 (x.1).graph)
          (resolve_constant_internal xxh3_64 fuel name_id r)
  resolve_constant_internal-Reports r = named-Reports r (get name_id r.graph.names) refl

  -- If the resolution of a constant returns a declaration, the name is resolved in the graph
  -- afterwards.
  pub resolve_constant_internal-IsResolved :
      (r r' : Resolver) (id : ℕ) (l : Option ℕ)
      → resolve_constant_internal xxh3_64 fuel name_id r ≡ done (Outcome.resolved id l, r')
      → IsResolved name_id r'.graph
  resolve_constant_internal-IsResolved r r' id l h =
      subst (Ensures (λ x. Reports name_id x.0 (x.1).graph)) h (resolve_constant_internal-Reports r)
