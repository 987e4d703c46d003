-- ===== src/Resolution/Scopes/Innermost.antt =====
-- The search of the lexical scopes ends, and finds the member of the innermost one that has it.

use rubydex.Base.{
  ℕ, zero, suc, ◌<◌, Option, none, some, List, [], ◌∷◌, done, ◌≡◌, refl, ap, All, arith,
  Option-cases, inl, inr, length, ◌∙◌,
}
use rubydex.Base.Map.{get}
use rubydex.Model.Name.{Name, NameRef, ResolvedName, inner}
use rubydex.Graph.{Graph}
use rubydex.Resolution.{Outcome}
use rubydex.Resolution.Scopes.{scope_member, found_or, scopes_loop, search_lexical_scopes}

-- The nesting of names is well founded: a name is deeper than its nesting, which is known, and no
-- depth reaches the number of names.
pub record IsNested (g : Graph) (depth : ℕ → ℕ) : Type 0 where
  pub present :
      (id outer : ℕ) (n : NameRef)
      → get id g.names ≡ some n
      → (inner n).nesting ≡ some outer
      → (o : NameRef) × (get outer g.names ≡ some o)
  pub deeper :
      (id outer : ℕ) (n : NameRef)
      → get id g.names ≡ some n
      → (inner n).nesting ≡ some outer
      → depth outer < depth id
  pub bounded : (id : ℕ) (n : NameRef) → get id g.names ≡ some n → depth id < length g.names

module _ (g : Graph) (str_id : ℕ) where
  -- the resolved names that are met from one nesting out to another
  pub data Nests : Option ℕ → List ResolvedName → Option ℕ → Type 0 where
    start : {a : Option ℕ} → Nests a [] a
    outwards :
        {id : ℕ} {r : ResolvedName} {l : List ResolvedName} {b : Option ℕ}
        → get id g.names ≡ some (NameRef.resolved r)
        → Nests r.name.nesting l b
        → Nests (some id) (r ∷ l) b

  -- a scope without the member
  abbrev pub Lacks : ResolvedName → Type 0
  Lacks r = scope_member g str_id r.declaration_id ≡ done none

  -- where the search ends, with what outcome
  pub data IsInnermost (from : Option ℕ) (o : Outcome) : Type 0 where
    member :
        (l : List ResolvedName) (id m : ℕ) (r : ResolvedName)
        → Nests from l (some id)
        → All Lacks l
        → get id g.names ≡ some (NameRef.resolved r)
        → scope_member g str_id r.declaration_id ≡ done (some m)
        → o ≡ Outcome.resolved m none
        → IsInnermost from o
    unfinished :
        (l : List ResolvedName) (id : ℕ) (n : Name)
        → Nests from l (some id)
        → All Lacks l
        → get id g.names ≡ some (NameRef.unresolved n)
        → o ≡ Outcome.retry none
        → IsInnermost from o
    exhausted :
        (l : List ResolvedName)
        → Nests from l none
        → All Lacks l
        → o ≡ Outcome.unresolved none
        → IsInnermost from o

  -- every scope can be searched
  abbrev pub AreSearchable : Type 0
  AreSearchable =
      (id : ℕ) (r : ResolvedName)
      → get id g.names ≡ some (NameRef.resolved r)
      → (m : Option ℕ) × (scope_member g str_id r.declaration_id ≡ done m)

  IsInnermost-outwards :
      (id : ℕ) (r : ResolvedName) (o : Outcome)
      → get id g.names ≡ some (NameRef.resolved r)
      → Lacks r
      → IsInnermost r.name.nesting o
      → IsInnermost (some id) o
  IsInnermost-outwards id r o there lacks (member l j m s path all known has is) =
      member (r ∷ l) j m s (outwards there path) (lacks, all) known has is
  IsInnermost-outwards id r o there lacks (unfinished l j n path all known is) =
      unfinished (r ∷ l) j n (outwards there path) (lacks, all) known is
  IsInnermost-outwards id r o there lacks (exhausted l path all is) =
      exhausted (r ∷ l) (outwards there path) (lacks, all) is

  scopes_loop-none : (fuel : ℕ) → scopes_loop fuel g str_id none ≡ done (Outcome.unresolved none)
  unfolding scopes_loop
  scopes_loop-none zero = refl
  scopes_loop-none (suc fuel) = refl

  Ends : ℕ → Option ℕ → Type 0
  Ends fuel from = (o : Outcome) × (scopes_loop fuel g str_id from ≡ done o) × IsInnermost from o

  module _ (depth : ℕ → ℕ) (nested : IsNested g depth) (searchable : AreSearchable) where
    scopes_loop-IsInnermost :
        (fuel id : ℕ) (n : NameRef)
        → get id g.names ≡ some n
        → depth id < fuel
        → Ends fuel (some id)
    unfolding scopes_loop found_or Ends
    scopes_loop-IsInnermost zero id n known h = absurd (omega arith)
    scopes_loop-IsInnermost (suc fuel) id (NameRef.unresolved n) known h =
        (Outcome.retry none, rw (known, scopes_loop) refl, unfinished [] id n start tt known refl)
    scopes_loop-IsInnermost (suc fuel) id (NameRef.resolved r) known h =
        let (m, searched) = searchable id r known in
        elim (Option-cases m) [
          | inr (found, is) ↦
              let has = searched ∙ ap done is in
              (
                Outcome.resolved found none,
                rw (known, scopes_loop, has) refl,
                member [] id found r start tt known has refl,
              )
          | inl lacking ↦
              let lacks = searched ∙ ap done lacking in
              elim (Option-cases r.name.nesting) [
                | inl top ↦ (
                  Outcome.unresolved none,
                  rw (known, scopes_loop, lacks, top) (scopes_loop-none fuel),
                  exhausted (r ∷ []) (outwards known (rw top start)) (lacks, tt) refl,
                )
                | inr (outer, up) ↦
                    let (o, there) = nested.present id outer (NameRef.resolved r) known up in
                    let below = nested.deeper id outer (NameRef.resolved r) known up in
                    let (outcome, runs, innermost) =
                      scopes_loop-IsInnermost fuel outer o there (omega (arith, below, h)) in
                    (
                      outcome,
                      rw (known, scopes_loop, lacks, up) runs,
                      IsInnermost-outwards id r outcome known lacks (rw up innermost),
                    )
              ]
        ]

    -- If names are well nested and every scope can be searched, then the search of the lexical scopes
    -- of a name with a known nesting returns: the member of the innermost scope that has it, or a
    -- retry at the first scope that is unresolved, if none inside of it has the member, or that the
    -- constant is not found, if no scope has it.
    pub search_lexical_scopes-IsInnermost :
        (name : Name) (id : ℕ) (n : NameRef)
        → name.nesting ≡ some id
        → get id g.names ≡ some n
        → (o : Outcome) × (search_lexical_scopes g name str_id ≡ done o) × IsInnermost (some id) o
    unfolding search_lexical_scopes Ends
    search_lexical_scopes-IsInnermost name id n nesting known =
        rw nesting (scopes_loop-IsInnermost (length g.names) id n known (nested.bounded id n known))
