-- ===== src/Query/Search.antt =====
-- `declaration_search` of rust/rubydex/src/query.rs: the declarations whose name matches a query.
-- Each chunk of the ids is filtered on a thread of its own, and the threads are joined in order.
pub mod Parallel
use rubydex.Base.{
  ℕ, zero, suc, ◌+◌, ◌-◌, ◌/◌, Bool, true, false, ◌||◌, ◌&&◌, Option, none, some, List, [], ◌∷◌,
  ◌++◌, Checked, done, panic, ◌>>=◌, unwrap, ltb, ◌==◌, if◌then◌else◌, length,
}
use rubydex.Base.Map.{Map, get, keys}
use rubydex.Model.Ids.{Text}
use rubydex.Model.Declaration.{Declaration, base_of}
use rubydex.Graph.{Graph}
use rubydex.Query.Score.{match_score}

pub data MatchMode : Type 0 where
  fuzzy exact : MatchMode

starts_with : Text → Text → Bool
starts_with [] text = true
starts_with (p ∷ prefix) [] = false
starts_with (p ∷ prefix) (c ∷ text) = p == c && starts_with prefix text

-- `str::contains`
unfoldable pub contains_text : Text → Text → Bool
unfolding starts_with
contains_text query [] = starts_with query []
contains_text query (c ∷ text) = starts_with query (c ∷ text) || contains_text query text

is_empty : Text → Bool
is_empty [] = true
is_empty (c ∷ text) = false

-- whether a name is wanted
unfoldable pub name_matches : MatchMode → Text → Text → Bool
unfolding is_empty
name_matches fuzzy query name = is_empty query || ltb 0 (match_score query name)
name_matches exact query name = contains_text query name

-- the work of one thread; a missing declaration is a panic
unfoldable pub filter_chunk : Graph → MatchMode → Text → List ℕ → Checked (List ℕ)
filter_chunk g mode query [] = done []
filter_chunk g mode query (id ∷ ids) = do
  d ← unwrap (get id g.declarations)
  rest ← filter_chunk g mode query ids
  done (if name_matches mode query (base_of d).name then id ∷ rest else rest)

module _ {ℓ} {A : Type ℓ} where
  unfoldable pub take : ℕ → List A → List A
  take zero l = []
  take (suc n) [] = []
  take (suc n) (x ∷ l) = x ∷ take n l

  unfoldable pub drop : ℕ → List A → List A
  drop zero l = l
  drop (suc n) [] = []
  drop (suc n) (x ∷ l) = drop n l

  -- `slice::chunks`, at most as many as there are elements
  unfoldable pub chunks : ℕ → ℕ → List A → List (List A)
  chunks zero size l = []
  chunks (suc fuel) size [] = []
  chunks (suc fuel) size (x ∷ l) = take size (x ∷ l) ∷ chunks fuel size (drop size (x ∷ l))

-- the joined results of the threads
unfoldable pub join_all : Graph → MatchMode → Text → List (List ℕ) → Checked (List ℕ)
join_all g mode query [] = done []
join_all g mode query (chunk ∷ rest) = do
  found ← filter_chunk g mode query chunk
  more ← join_all g mode query rest
  done (found ++ more)

unfoldable pub div_ceil : ℕ → ℕ → ℕ
div_ceil a b = (a + b - 1) / b

-- `num_threads` is what the system offers
unfoldable pub declaration_search : ℕ → Graph → Text → MatchMode → Checked (List ℕ)
declaration_search num_threads g query mode =
    let ids = keys g.declarations in
    let chunk_size = div_ceil (length ids) num_threads in
    if chunk_size == 0 then done [] else join_all g mode query (chunks (length ids) chunk_size ids)
