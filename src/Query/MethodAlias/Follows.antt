-- ===== src/Query/MethodAlias/Follows.antt =====
-- `follow_method_alias` ends, and what it returns.
use rubydex.Base.{
  ℕ, zero, suc, ◌+◌, ◌<◌, Bool, true, false, Option, none, some, List, [], ◌∷◌, Checked, done,
  panic, out_of_fuel, ◌≡◌, ◌≢◌, refl, arith, ◌>>=◌, ◌||◌, subst, contains, set_insert, length,
  Bool-cases, inl, inr,
}
use rubydex.Base.Map.{get, contains_key}
use rubydex.Base.Unseen.{unseen, unseen-le-length, unseen-set_insert-lt}
use rubydex.Model.Ids.{Hash}
use rubydex.Model.Definition.{Definition}
use rubydex.Model.Declaration.{Declaration, SimpleDeclaration}
use rubydex.Graph.{Graph}
use rubydex.Graph.Lookup.{definition_id_to_declaration_id}
use rubydex.Query.Ancestors.{
  Result, ok, err, FindMemberError, declaration_not_found, not_namespace, member_not_found,
  find_member_in_ancestors, Search,
}
use rubydex.Query.Ancestors.Found.{find_member-ends}
use rubydex.Query.MethodAlias.{
  AliasResolutionError, not_an_alias, unresolved_owner, cycle, target_not_found, target_not_method,
  smaller, Followed, Trace, ends, continues, trace_definitions, alias_owner, after_trace, at_target,
  after_search, after_owner, follow_round, follow_loop, follow_method_alias,
}

-- whether the definition is in the graph and no alias
abbrev pub is_plain : Graph → ℕ → Bool
is_plain g id = elim (get id g.definitions) [
  | none ↦ false
  | some (Definition.method_alias a) ↦ false
  | some d ↦ true
]

abbrev pub any_plain : Graph → List ℕ → Bool
any_plain g [] = false
any_plain g (id ∷ ids) = is_plain g id || any_plain g ids

-- The declaration is a method, and one of its definitions is in the graph and no alias.
pub record IsDefinedMethod (g : Graph) (target : ℕ) : Type 0 where
  pub declaration : SimpleDeclaration
  pub is_method : get target g.declarations ≡ some (Declaration.method declaration)
  pub plain : any_plain g declaration.definition_ids ≡ true

trace-ends :
    (g : Graph) (next : Option ℕ) (ids : List ℕ)
    → trace_definitions g next ids ≡ done ends
    → any_plain g ids ≡ true
unfolding trace_definitions
trace-ends g next [] h = cc
trace-ends g next (id ∷ ids) h = ground (arith, trace-ends g (some (smaller next id)) ids)

trace-ends_by_itself :
    (g : Graph) (next : Option ℕ) (ids : List ℕ) → trace_definitions g next ids ≢ out_of_fuel
unfolding trace_definitions
trace-ends_by_itself g next [] = ground arith
trace-ends_by_itself g next (id ∷ ids) =
    ground (arith, trace-ends_by_itself g (some (smaller next id)) ids)

module _ (g : Graph) (lookup : ℕ → Checked (Option ℕ)) where
  -- A round returns what the source returns at this point, or it goes on from a marked target.
  data Round (again : List ℕ → ℕ → Followed) (seen : List ℕ) : Followed → Type 0 where
    returns : (target : ℕ) → IsDefinedMethod g target → Round again seen (done (ok target))
    fails : (e : AliasResolutionError) → Round again seen (done (err e))
    panics : Round again seen panic
    stuck : (id : ℕ) → lookup id ≡ out_of_fuel → Round again seen out_of_fuel
    goes_on :
        (target next : ℕ)
        → contains_key target g.declarations ≡ true
        → contains seen target ≡ false
        → Round again seen (again (set_insert target seen) next)

  module _ (again : List ℕ → ℕ → Followed) (seen : List ℕ) where
    Round-after_trace :
        (target : ℕ) (d : SimpleDeclaration)
        → get target g.declarations ≡ some (Declaration.method d)
        → contains seen target ≡ false
        → (r : Checked Trace) → trace_definitions g none d.definition_ids ≡ r
        → Round again seen (r >>= after_trace (again (set_insert target seen)) target)
    unfolding after_trace
    Round-after_trace target d known new (done ends) e = returns target (record {
      declaration = d;
      is_method = known;
      plain = trace-ends g none d.definition_ids e;
    })
    Round-after_trace target d known new (done (continues none)) e = fails target_not_found
    Round-after_trace target d known new (done (continues (some next))) e =
        goes_on target next (rw known) new
    Round-after_trace target d known new panic e = panics
    Round-after_trace target d known new out_of_fuel e =
        absurd (trace-ends_by_itself g none d.definition_ids e)

    Round-declaration :
        (target : ℕ)
        → contains seen target ≡ false
        → (o : Option Declaration) → get target g.declarations ≡ o
        → Round again seen (elim o [
          | none ↦ panic
          | some (Declaration.method d) ↦
              trace_definitions g none d.definition_ids
              >>= after_trace (again (set_insert target seen)) target
          | some d ↦ done (err target_not_method)
        ])
    Round-declaration target new none e = panics
    Round-declaration target new (some (Declaration.method d)) e =
        Round-after_trace target d e new (trace_definitions g none d.definition_ids) refl
    Round-declaration target new (some d) e = fails target_not_method

    Round-at_target : (target : ℕ) → Round again seen (at_target g seen again target)
    unfolding at_target
    Round-at_target target = elim (Bool-cases (contains seen target)) [
      | inl old ↦ rw old (fails cycle)
      | inr new ↦ rw new (Round-declaration target new (get target g.declarations) refl)
    ]

    Round-after_search :
        (r : Result ℕ FindMemberError) → Round again seen (after_search g seen again r)
    unfolding after_search
    Round-after_search (ok target) = Round-at_target target
    Round-after_search (err member_not_found) = fails target_not_found
    Round-after_search (err declaration_not_found) = panics
    Round-after_search (err not_namespace) = panics

    Round-searched :
        (r : Search) → r ≢ out_of_fuel → Round again seen (r >>= after_search g seen again)
    Round-searched (done r) ends_itself = Round-after_search r
    Round-searched panic ends_itself = panics
    Round-searched out_of_fuel ends_itself = absurd (ends_itself refl)

    Round-after_owner :
        (str_id : ℕ) (owner : Option ℕ) → Round again seen (after_owner g seen again str_id owner)
    unfolding after_owner
    Round-after_owner str_id none = fails unresolved_owner
    Round-after_owner str_id (some owner) =
        Round-searched (find_member_in_ancestors g owner str_id false)
          (find_member-ends g owner str_id false)

    Round-looked_up :
        (id str_id : ℕ) (r : Checked (Option ℕ))
        → lookup id ≡ r
        → Round again seen (r >>= λ o. after_owner g seen again str_id (alias_owner g o))
    Round-looked_up id str_id (done o) e = Round-after_owner str_id (alias_owner g o)
    Round-looked_up id str_id panic e = panics
    Round-looked_up id str_id out_of_fuel e = stuck id e

    Round-follow_round : (current : ℕ) → Round again seen (follow_round g lookup again seen current)
    unfolding follow_round
    Round-follow_round current = go (get current g.definitions)
      where
        go :
            (o : Option Definition)
            → Round again seen (elim o [
              | some (Definition.method_alias a) ↦ lookup current >>= λ id.
                  after_owner g seen again a.old_name_str_id (alias_owner g id)
              | _ ↦ done (err not_an_alias)
            ])
        go none = fails not_an_alias
        go (some (Definition.method_alias a)) =
            Round-looked_up current a.old_name_str_id (lookup current) refl
        go (some d) = fails not_an_alias

  -- What a round returns is the result of the loop.
  data Good : Followed → Type 0 where
    returns : (target : ℕ) → IsDefinedMethod g target → Good (done (ok target))
    fails : (e : AliasResolutionError) → Good (done (err e))
    panics : Good panic
    stuck : (id : ℕ) → lookup id ≡ out_of_fuel → Good out_of_fuel

  follow_loop-Good :
      (fuel : ℕ) (seen : List ℕ) (current : ℕ)
      → unseen g.declarations seen < fuel
      → Good (follow_loop g lookup fuel seen current)
  unfolding follow_loop
  follow_loop-Good zero seen current h = absurd (omega arith)
  follow_loop-Good (suc fuel) seen current h =
      finish (Round-follow_round (follow_loop g lookup fuel) seen current) (λ target next known new.
        let falls = unseen-set_insert-lt g.declarations seen target known new in
        follow_loop-Good fuel (set_insert target seen) next (omega arith))
    where
      finish :
          {again : List ℕ → ℕ → Followed} {marks : List ℕ} {r : Followed}
          → Round again marks r
          → ((target next : ℕ)
              → contains_key target g.declarations ≡ true
              → contains marks target ≡ false
              → Good (again (set_insert target marks) next))
          → Good r
      finish (Round.returns target d) k = Good.returns target d
      finish (Round.fails e) k = Good.fails e
      finish Round.panics k = Good.panics
      finish (Round.stuck id e) k = Good.stuck id e
      finish (Round.goes_on target next known new) k = k target next known new

Good-ok :
    {g : Graph} {lookup : ℕ → Checked (Option ℕ)} {r : Followed} {target : ℕ}
    → Good g lookup r
    → r ≡ done (ok target)
    → IsDefinedMethod g target
Good-ok {g} (Good.returns t d) e = subst (IsDefinedMethod g) (cc) d
Good-ok (Good.fails x) e = cc
Good-ok Good.panics e = cc
Good-ok (Good.stuck id x) e = cc

Good-ends :
    {g : Graph} {lookup : ℕ → Checked (Option ℕ)} {r : Followed}
    → Good g lookup r
    → ((id : ℕ) → lookup id ≢ out_of_fuel)
    → r ≢ out_of_fuel
Good-ends (Good.returns t d) h e = cc
Good-ends (Good.fails x) h e = cc
Good-ends Good.panics h e = cc
Good-ends (Good.stuck id x) h e = h id x

module _ (xxh3_64 : Hash) (g : Graph) (alias_id : ℕ) where
  follow-Good :
      Good g (definition_id_to_declaration_id xxh3_64 g) (follow_method_alias xxh3_64 g alias_id)
  unfolding follow_method_alias
  follow-Good =
      follow_loop-Good g (definition_id_to_declaration_id xxh3_64 g) (length g.declarations + 1) []
        alias_id (omega (arith, unseen-le-length g.declarations []))

  -- What a method alias leads to is a method declaration of the graph, and at least one of its
  -- definitions is in the graph and is no alias.
  pub follow_method_alias-IsDefinedMethod :
      (target : ℕ)
      → follow_method_alias xxh3_64 g alias_id ≡ done (ok target)
      → IsDefinedMethod g target
  follow_method_alias-IsDefinedMethod target = Good-ok follow-Good

  -- The loop ends on every chain of method aliases, cyclic ones included, if the lookup of a
  -- definition's declaration does.
  pub follow_method_alias-ends :
      ((id : ℕ) → definition_id_to_declaration_id xxh3_64 g id ≢ out_of_fuel)
      → follow_method_alias xxh3_64 g alias_id ≢ out_of_fuel
  follow_method_alias-ends = Good-ends follow-Good
