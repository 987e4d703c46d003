-- ===== src/Query/MethodAlias.antt =====
-- `follow_method_alias` of rust/rubydex/src/query.rs.
pub mod Follows
use rubydex.Base.{
  ℕ, zero, suc, ◌+◌, Bool, true, false, Option, none, some, List, [], ◌∷◌, Checked, done, panic,
  out_of_fuel, ◌>>=◌, unwrap, if◌then◌else◌, contains, set_insert, length, ltb,
}
use rubydex.Base.Map.{get}
use rubydex.Model.Ids.{Hash}
use rubydex.Model.Definition.{Definition}
use rubydex.Model.Declaration.{Declaration, SimpleDeclaration, base_of}
use rubydex.Graph.{Graph}
use rubydex.Graph.Lookup.{definition_id_to_declaration_id}
use rubydex.Query.Ancestors.{
  Result, ok, err, FindMemberError, declaration_not_found, not_namespace, member_not_found,
  find_member_in_ancestors,
}

pub data AliasResolutionError : Type 0 where
  not_an_alias unresolved_owner cycle target_not_found target_not_method : AliasResolutionError

abbrev pub Followed : Type 0
Followed = Checked (Result ℕ AliasResolutionError)

-- what the definitions of a method say: one that is no alias, or the smallest alias to go on with
pub data Trace : Type 0 where
  ends : Trace
  continues : Option ℕ → Trace

smaller : Option ℕ → ℕ → ℕ
smaller none b = b
smaller (some a) b = if ltb b a then b else a

-- the loop over the definitions of the target
unfoldable pub trace_definitions : Graph → Option ℕ → List ℕ → Checked Trace
unfolding smaller
trace_definitions g next [] = done (continues next)
trace_definitions g next (id ∷ ids) =
    let rest = trace_definitions g (some (smaller next id)) ids in
    elim (get id g.definitions) [
      | none ↦ panic
      | some (Definition.method_alias a) ↦ rest
      | some d ↦ done ends
    ]

-- the owner of the declaration that the alias belongs to
unfoldable pub alias_owner : Graph → Option ℕ → Option ℕ
alias_owner g none = none
alias_owner g (some id) = elim (get id g.declarations) [
  | none ↦ none
  | some d ↦ some (base_of d).owner_id
]

after_trace : (ℕ → Followed) → ℕ → Trace → Followed
after_trace again target ends = done (ok target)
after_trace again target (continues none) = done (err target_not_found)
after_trace again target (continues (some next)) = again next

-- the rest of a round, once the target is known
at_target : Graph → List ℕ → (List ℕ → ℕ → Followed) → ℕ → Followed
unfolding after_trace
at_target g seen again target =
    if contains seen target then done (err cycle) else elim (get target g.declarations) [
      | none ↦ panic
      | some (Declaration.method d) ↦
          trace_definitions g none d.definition_ids
          >>= after_trace (again (set_insert target seen)) target
      | some d ↦ done (err target_not_method)
    ]

after_search : Graph → List ℕ → (List ℕ → ℕ → Followed) → Result ℕ FindMemberError → Followed
unfolding at_target
after_search g seen again (ok target) = at_target g seen again target
after_search g seen again (err member_not_found) = done (err target_not_found)
after_search g seen again (err declaration_not_found) = panic
after_search g seen again (err not_namespace) = panic

after_owner : Graph → List ℕ → (List ℕ → ℕ → Followed) → ℕ → Option ℕ → Followed
unfolding after_search
after_owner g seen again str_id none = done (err unresolved_owner)
after_owner g seen again str_id (some owner) =
    find_member_in_ancestors g owner str_id false >>= after_search g seen again

-- one round of the loop; `lookup` is `definition_id_to_declaration_id`
unfoldable pub follow_round :
    Graph → (ℕ → Checked (Option ℕ)) → (List ℕ → ℕ → Followed) → List ℕ → ℕ → Followed
unfolding after_owner
follow_round g lookup again seen current = elim (get current g.definitions) [
  | some (Definition.method_alias a) ↦
      lookup current >>= λ id. after_owner g seen again a.old_name_str_id (alias_owner g id)
  | _ ↦ done (err not_an_alias)
]

unfoldable pub follow_loop : Graph → (ℕ → Checked (Option ℕ)) → ℕ → List ℕ → ℕ → Followed
follow_loop g lookup zero seen current = out_of_fuel
follow_loop g lookup (suc fuel) seen current =
    follow_round g lookup (follow_loop g lookup fuel) seen current

unfoldable pub follow_method_alias : Hash → Graph → ℕ → Followed
follow_method_alias xxh3_64 g alias_id =
    follow_loop g (definition_id_to_declaration_id xxh3_64 g) (length g.declarations + 1) []
      alias_id
