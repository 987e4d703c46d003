-- ===== src/Graph/Alias.antt =====
-- `alias_targets` and `resolve_alias` of rust/rubydex/src/model/graph.rs: the chain of constant
-- aliases that starts at a declaration.
pub mod Chain
use rubydex.Base.{
  ℕ, zero, suc, ◌+◌, Bool, true, false, Option, none, some, List, [], ◌∷◌, ◌++◌, Checked, done,
  out_of_fuel, if◌then◌else◌, contains, set_insert, length,
}
use rubydex.Base.Map.{get}
use rubydex.Model.Name.{resolved}
use rubydex.Model.Definition.{Definition}
use rubydex.Model.Declaration.{Declaration}
use rubydex.Graph.{Graph}

-- the declaration that the target of the alias definition is resolved to
unfoldable pub definition_target : Graph → ℕ → Option ℕ
definition_target g definition_id = elim (get definition_id g.definitions) [
  | some (Definition.constant_alias alias) ↦ elim (get alias.target_name_id g.names) [
    | some (resolved r) ↦ some r.declaration_id
    | _ ↦ none
  ]
  | _ ↦ none
]

unfoldable pub push_new : Option ℕ → List ℕ → List ℕ
push_new none targets = targets
push_new (some t) targets = if contains targets t then targets else targets ++ t ∷ []

unfoldable pub collect_targets : Graph → List ℕ → List ℕ → List ℕ
collect_targets g [] targets = targets
collect_targets g (id ∷ ids) targets =
    collect_targets g ids (push_new (definition_target g id) targets)

unfoldable pub alias_targets : Graph → ℕ → Option (List ℕ)
alias_targets g declaration_id = elim (get declaration_id g.declarations) [
  | some (Declaration.constant_alias d) ↦ some (collect_targets g d.definition_ids [])
  | _ ↦ none
]

-- `matches!(.., Some(Declaration::ConstantAlias(_)))`
unfoldable pub is_constant_alias : Graph → ℕ → Bool
is_constant_alias g id = elim (get id g.declarations) [
  | some (Declaration.constant_alias d) ↦ true
  | _ ↦ false
]

-- the loop of `resolve_alias`
unfoldable pub resolve_alias_loop : ℕ → Graph → List ℕ → ℕ → Checked (Option ℕ)
resolve_alias_loop zero g seen current = out_of_fuel
resolve_alias_loop (suc fuel) g seen current =
    let followed = resolve_alias_loop fuel g (set_insert current seen) in
    if contains seen current then done none else elim (alias_targets g current) [
      | some (first ∷ _) ↦
          let onward = followed first in
          if is_constant_alias g first then onward else done (some first)
      | _ ↦ done none
    ]

unfoldable pub resolve_alias : Graph → ℕ → Checked (Option ℕ)
resolve_alias g declaration_id = resolve_alias_loop (length g.declarations + 1) g [] declaration_id
