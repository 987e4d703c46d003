-- ===== src/Tests/Queries.antt =====
-- Applications of the theorems on queries.
use rubydex.Base.{
  ℕ, suc, Bool, true, false, Option, none, some, List, [], ◌∷◌, Checked, done, out_of_fuel, ◌≡◌,
  ◌≢◌, ◌↔◌, refl, arith, ◌<◌,
}
use rubydex.Base.Map.{get}
use rubydex.Model.Ids.{codes}
use rubydex.Model.Declaration.{Ancestor}
use rubydex.Graph.Lookup.{
  namespace_at, definition_id_to_declaration_id, declaration_loop, definition_to_declaration_id,
  find_nested_declaration, find_member_declaration,
}
use rubydex.Graph.Alias.{
  resolve_alias, resolve_alias_loop, alias_targets, definition_target, collect_targets, push_new,
  is_constant_alias,
}
use rubydex.Graph.Alias.Chain.{resolve_alias_total, resolve_alias-iff-EndsIn, EndsIn}
use rubydex.Query.Score.{match_score}
use rubydex.Query.Score.Subsequence.{match_score-Subsequence, Subsequence}
use rubydex.Query.Search.{declaration_search, exact}
use rubydex.Query.Search.Parallel.{declaration_search-matching, matching}
use rubydex.Query.Ancestors.{find_member_in_ancestors, ok}
use rubydex.Query.Ancestors.Found.{find_member-first_member, first_member, outcome}
use rubydex.Query.MethodAlias.{follow_method_alias}
use rubydex.Query.MethodAlias.Follows.{
  follow_method_alias-IsDefinedMethod, IsDefinedMethod, follow_method_alias-ends,
}
use rubydex.Tests.{hash, world, class_named}

resolve_alias_total_example : (r : Option ℕ) × (resolve_alias world 3 ≡ done r)
resolve_alias_total_example = resolve_alias_total world 3

resolve_alias-iff-EndsIn_example :
    (resolve_alias world 3 ≡ done (some 1)) ↔ ((n : ℕ) × EndsIn world n 3 1)
resolve_alias-iff-EndsIn_example = resolve_alias-iff-EndsIn world 3 1

resolve_alias_3 : resolve_alias world 3 ≡ done (some 1)
unfolding resolve_alias resolve_alias_loop rubydex.Base.contains alias_targets get collect_targets
    push_new definition_target is_constant_alias rubydex.Base.set_insert
resolve_alias_3 = refl

match_score-Subsequence_example :
    (Subsequence (codes "fb") (codes "FooBar") → match_score (codes "fb") (codes "FooBar") ≡ 2)
    × (0 < match_score (codes "fb") (codes "FooBar") → Subsequence (codes "fb") (codes "FooBar"))
match_score-Subsequence_example = match_score-Subsequence (codes "fb") (codes "FooBar")

declaration_search-matching_example :
    declaration_search 3 world (codes "A") exact
    ≡ done (matching exact (codes "A") world.declarations)
unfolding get
declaration_search-matching_example =
    declaration_search-matching 3 world (codes "A") exact (omega arith)
      (refl, (refl, (refl, (refl, (refl, (refl, (refl, (refl, tt))))))))

find_member-first_member_example :
    find_member_in_ancestors world 1 11 true ≡ done (outcome (first_member world 11 (2 ∷ [])))
unfolding get namespace_at
find_member-first_member_example =
    find_member-first_member world 1 11 true
      (class_named "A" (101 ∷ []) ((10, 5) ∷ (12, 7) ∷ [])
        (Ancestor.complete 1 ∷ Ancestor.partial 299 ∷ Ancestor.complete 2 ∷ []))
      refl ((_, refl), ((_, refl), tt))

alias_107 : follow_method_alias hash world 107 ≡ done (ok 5)
unfolding follow_method_alias rubydex.Query.MethodAlias.follow_loop
    rubydex.Query.MethodAlias.follow_round get definition_id_to_declaration_id declaration_loop
    definition_to_declaration_id find_nested_declaration
    rubydex.Graph.Lookup.find_enclosing_namespace_name_id rubydex.Graph.Lookup.enclosing_loop
    find_member_declaration rubydex.Query.MethodAlias.alias_owner
    rubydex.Graph.Lookup.nesting_declaration rubydex.Graph.Names.name_id_to_declaration_id
    namespace_at find_member_in_ancestors rubydex.Query.Ancestors.search_ancestors
    rubydex.Base.contains rubydex.Query.MethodAlias.trace_definitions
alias_107 = refl

follow_method_alias-IsDefinedMethod_example : IsDefinedMethod world 5
follow_method_alias-IsDefinedMethod_example =
    follow_method_alias-IsDefinedMethod hash world 107 5 alias_107

world_lookup-ends : (id : ℕ) → definition_id_to_declaration_id hash world id ≢ out_of_fuel
unfolding definition_id_to_declaration_id declaration_loop definition_to_declaration_id get
    find_nested_declaration find_member_declaration
    rubydex.Graph.Lookup.find_enclosing_namespace_name_id rubydex.Graph.Lookup.enclosing_loop
world_lookup-ends id h = ground arith

follow_method_alias-ends_example : follow_method_alias hash world 107 ≢ out_of_fuel
follow_method_alias-ends_example = follow_method_alias-ends hash world 107 world_lookup-ends
