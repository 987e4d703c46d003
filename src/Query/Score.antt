-- ===== src/Query/Score.antt =====
-- `match_score` of rust/rubydex/src/query.rs: fuzzy matching.
pub mod Subsequence
use rubydex.Base.{
  ℕ, zero, suc, ◌+◌, Bool, true, false, ◌&&◌, List, [], ◌∷◌, ◌==◌, leb, if◌then◌else◌,
}
use rubydex.Model.Ids.{Text}

-- `to_ascii_lowercase`
unfoldable pub ascii_lower : ℕ → ℕ
ascii_lower c = if leb b'A' c && leb c b'Z' then c + 32 else c

-- `eq_ignore_ascii_case`
unfoldable pub eq_ignore_ascii_case : ℕ → ℕ → Bool
unfolding ascii_lower
eq_ignore_ascii_case a b = ascii_lower a == ascii_lower b

-- the loop over the target, with the characters of the query that are left
unfoldable pub match_loop : Text → Text → ℕ → ℕ
match_loop [] [] score = score
match_loop (q ∷ query) [] score = 0
match_loop [] (t ∷ target) score = match_loop [] target score
match_loop (q ∷ query) (t ∷ target) score =
    match_loop (if eq_ignore_ascii_case q t then query else q ∷ query) target
      (if eq_ignore_ascii_case q t then score + 1 else score)

unfoldable pub match_score : Text → Text → ℕ
match_score query target = match_loop query target 0
