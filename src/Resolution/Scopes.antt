-- ===== src/Resolution/Scopes.antt =====
-- `search_lexical_scopes` of rust/rubydex/src/resolution.rs. The walk up the nesting of a name has
-- as much fuel as the graph has names.
pub mod Innermost
use rubydex.Base.{
  ℕ, zero, suc, Option, none, some, Checked, done, panic, out_of_fuel, ◌>>=◌, length, unwrap,
}
use rubydex.Base.Map.{get}
use rubydex.Model.Name.{Name, NameRef}
use rubydex.Model.Declaration.{as_namespace, inner}
use rubydex.Graph.{Graph}
use rubydex.Resolution.{Outcome}
use rubydex.Resolution.Chains.{resolve_to_namespace}

-- the member of the namespace that the declaration leads to, if it leads to one
unfoldable pub scope_member : Graph → ℕ → ℕ → Checked (Option ℕ)
scope_member g str_id declaration_id = do
  namespace_id ← resolve_to_namespace g declaration_id
  elim namespace_id [
    | none ↦ done none
    | some id ↦ do
      d ← unwrap (get id g.declarations)
      elim (as_namespace d) [ none ↦ done none | some n ↦ done (get str_id (inner n).members) ]
  ]

-- what follows once the scope has been searched
unfoldable pub found_or : Option ℕ → Checked Outcome → Checked Outcome
found_or (some member) next = done (Outcome.resolved member none)
found_or none next = next

unfoldable pub scopes_loop : ℕ → Graph → ℕ → Option ℕ → Checked Outcome
scopes_loop fuel g str_id none = done (Outcome.unresolved none)
scopes_loop zero g str_id (some nesting_id) = out_of_fuel
scopes_loop (suc fuel) g str_id (some nesting_id) = elim (get nesting_id g.names) [
  | none ↦ panic
  | some (NameRef.unresolved n) ↦ done (Outcome.retry none)
  | some (NameRef.resolved r) ↦ do
    member ← scope_member g str_id r.declaration_id
    found_or member (scopes_loop fuel g str_id r.name.nesting)
]

unfoldable pub search_lexical_scopes : Graph → Name → ℕ → Checked Outcome
search_lexical_scopes g name str_id = scopes_loop (length g.names) g str_id name.nesting
