-- ===== src/Resolution/Chains.antt =====
-- `resolve_alias_chains`, `resolve_to_namespace` and `resolve_to_primary_namespace` of
-- rust/rubydex/src/resolution.rs. The queue of the first one has as much fuel as it can ever hold:
-- the declaration that it starts with and the targets of every alias.
pub mod Follows
use rubydex.Base.{
  ℕ, zero, suc, ◌+◌, Bool, true, false, Option, none, some, List, [], ◌∷◌, ◌++◌, Checked, done,
  panic, out_of_fuel, ◌>>=◌, unwrap, if◌then◌else◌, contains, set_insert, length,
}
use rubydex.Base.Map.{Map, get}
use rubydex.Model.Declaration.{Declaration, Namespace, inner, as_namespace}
use rubydex.Graph.{Graph}
use rubydex.Graph.Alias.{alias_targets, is_constant_alias}
use rubydex.Graph.Declarations.{is_namespace}
use rubydex.Resolution.{Outcome}

-- `alias_targets(..).unwrap_or_default()`
unfoldable pub targets : Graph → ℕ → List ℕ
targets g id = elim (alias_targets g id) [ none ↦ [] | some l ↦ l ]

unfoldable pub count_targets : Graph → Map Declaration → ℕ
count_targets g [] = 0
count_targets g ((id, d) ∷ m) = length (targets g id) + count_targets g m

-- where one declaration leads to, by what it is and its targets
unfoldable pub chains_step :
    Option Declaration → List ℕ → Checked (List ℕ) → (List ℕ → Checked (List ℕ)) → Checked (List ℕ)
chains_step none ts keep follow = panic
chains_step (some (Declaration.constant_alias d)) [] keep follow = keep
chains_step (some (Declaration.constant_alias d)) (t ∷ ts) keep follow = follow (t ∷ ts)
chains_step (some d) ts keep follow = keep

-- the loop of `resolve_alias_chains`
unfoldable pub chains_loop : ℕ → Graph → List ℕ → List ℕ → List ℕ → Checked (List ℕ)
chains_loop fuel g results seen [] = done results
chains_loop zero g results seen (current ∷ queue) = out_of_fuel
chains_loop (suc fuel) g results seen (current ∷ queue) =
    let skip = chains_loop fuel g results seen queue in
    let keep = chains_loop fuel g (results ++ current ∷ []) (set_insert current seen) queue in
    let follow =
      λ (ts : List ℕ). chains_loop fuel g results (set_insert current seen) (queue ++ ts) in
    if contains seen current
    then skip
    else chains_step (get current g.declarations) (targets g current) keep follow

unfoldable pub resolve_alias_chains : Graph → ℕ → Checked (List ℕ)
resolve_alias_chains g declaration_id =
    chains_loop (1 + count_targets g g.declarations) g [] [] (declaration_id ∷ [])

-- `.find(|id| self.graph.is_namespace(id))`
unfoldable pub first_namespace : Graph → List ℕ → Option ℕ
first_namespace g [] = none
first_namespace g (id ∷ ids) = if is_namespace g id then some id else first_namespace g ids

unfoldable pub resolve_to_namespace : Graph → ℕ → Checked (Option ℕ)
resolve_to_namespace g declaration_id = elim (get declaration_id g.declarations) [
  | some (Declaration.namespace n) ↦ done (some declaration_id)
  | some (Declaration.constant_alias d) ↦ do
    ids ← resolve_alias_chains g declaration_id
    done (first_namespace g ids)
  | _ ↦ done none
]

primary : Graph → Option ℕ → List ℕ → Outcome
primary g linearization [] = Outcome.retry none
primary g linearization (primary_id ∷ _) =
    if is_constant_alias g primary_id
    then Outcome.retry none
    else Outcome.resolved primary_id linearization

unfoldable pub resolve_to_primary_namespace : Graph → ℕ → Option ℕ → Checked Outcome
unfolding primary
resolve_to_primary_namespace g declaration_id linearization = do
  ids ← resolve_alias_chains g declaration_id
  done (primary g linearization ids)

-- `declarations().get(..).unwrap().as_namespace().unwrap().member(..)`
unfoldable pub member_of : Graph → ℕ → ℕ → Checked (Option ℕ)
member_of g str_id id = do
  d ← unwrap (get id g.declarations)
  n ← unwrap (as_namespace d)
  done (get str_id (inner n).members)
