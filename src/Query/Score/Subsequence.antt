-- ===== src/Query/Score/Subsequence.antt =====
-- A query scores exactly where it is a subsequence.
use rubydex.Base.{
  ℕ, ◌+◌, ◌<◌, true, false, [], ◌∷◌, ◌≡◌, refl, ◌⊎◌, inl, inr, arith, length, Bool-cases,
}
use rubydex.Model.Ids.{Text}
use rubydex.Query.Score.{eq_ignore_ascii_case, match_loop, match_score}

-- The characters of the query occur in the target in this order, up to the case of letters.
pub data Subsequence : Text → Text → Type 0 where
  nil : (target : Text) → Subsequence [] target
  skip : {query target : Text} (t : ℕ) → Subsequence query target → Subsequence query (t ∷ target)
  take :
      {query target : Text} (q t : ℕ)
      → eq_ignore_ascii_case q t ≡ true
      → Subsequence query target
      → Subsequence (q ∷ query) (t ∷ target)

-- the rest of a query that matches, matches
rest_of : {query target : Text} (q : ℕ) → Subsequence (q ∷ query) target → Subsequence query target
rest_of q (skip t s) = skip t (rest_of q s)
rest_of q (take q' t e s) = skip t s

-- a character that fits can be taken at once
advance :
    {query target : Text} (q t : ℕ)
    → Subsequence (q ∷ query) (t ∷ target)
    → Subsequence query target
advance q t (skip t' s) = rest_of q s
advance q t (take q' t' e s) = s

-- a character that does not fit is skipped
stay :
    {query target : Text} (q t : ℕ)
    → eq_ignore_ascii_case q t ≡ false
    → Subsequence (q ∷ query) (t ∷ target)
    → Subsequence (q ∷ query) target
stay q t h (skip t' s) = s
stay q t h (take q' t' e s) = cc

match_all : (target : Text) (score : ℕ) → match_loop [] target score ≡ score
unfolding match_loop
match_all [] score = refl
match_all (t ∷ target) score = match_all target score

module _ (q t : ℕ) (query target : Text) (score : ℕ) where
  loop_take :
      eq_ignore_ascii_case q t ≡ true
      → match_loop (q ∷ query) (t ∷ target) score ≡ match_loop query target (score + 1)
  unfolding match_loop
  loop_take h = ground arith

  loop_skip :
      eq_ignore_ascii_case q t ≡ false
      → match_loop (q ∷ query) (t ∷ target) score ≡ match_loop (q ∷ query) target score
  unfolding match_loop
  loop_skip h = ground arith

loop_missed : (q : ℕ) (query : Text) (score : ℕ) → match_loop (q ∷ query) [] score ≡ 0
unfolding match_loop
loop_missed q query score = refl

no_match : {q : ℕ} {query : Text} → ¬ Subsequence (q ∷ query) []
no_match s = elim s [ ]

match-hit :
    (query target : Text) (score : ℕ)
    → Subsequence query target
    → match_loop query target score ≡ score + length query
match-hit [] target score s = rw (match_all target score) (omega arith)
match-hit (q ∷ query) [] score s = absurd (no_match s)
match-hit (q ∷ query) (t ∷ target) score s = elim (Bool-cases (eq_ignore_ascii_case q t)) [
  | inl fits ↦ omega (
    arith,
    loop_take q t query target score fits,
    match-hit query target (score + 1) (advance q t s),
  )
  | inr other ↦ omega (
    arith,
    loop_skip q t query target score other,
    match-hit (q ∷ query) target score (stay q t other s),
  )
]

match-miss :
    (query target : Text) (score : ℕ)
    → Subsequence query target ⊎ (match_loop query target score ≡ 0)
match-miss [] target score = inl (nil target)
match-miss (q ∷ query) [] score = inr (loop_missed q query score)
match-miss (q ∷ query) (t ∷ target) score = elim (Bool-cases (eq_ignore_ascii_case q t)) [
  | inl fits ↦ elim (match-miss query target (score + 1)) [
    | inl s ↦ inl (take q t fits s)
    | inr none ↦ inr (omega (arith, loop_take q t query target score fits))
  ]
  | inr other ↦ elim (match-miss (q ∷ query) target score) [
    | inl s ↦ inl (skip t s)
    | inr none ↦ inr (omega (arith, loop_skip q t query target score other))
  ]
]

-- A query that is a subsequence of the target, up to the case of ASCII letters, scores its length.
-- Conversely a positive score shows that it is a subsequence. So a non-empty query scores above
-- zero exactly where it is one.
pub match_score-Subsequence :
    (query target : Text)
    → (Subsequence query target → match_score query target ≡ length query)
      × (0 < match_score query target → Subsequence query target)
unfolding match_score
match_score-Subsequence query target = (
  λ s. omega (arith, match-hit query target 0 s),
  λ positive. elim (match-miss query target 0) [ inl s ↦ s | inr none ↦ absurd (omega arith) ],
)
