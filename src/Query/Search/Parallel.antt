-- ===== src/Query/Search/Parallel.antt =====
-- The search on any number of threads finds what a search on one does, in the same order.
use rubydex.Base.{
  ℕ, zero, suc, ◌+◌, ◌-◌, ◌/◌, ◌<◌, ◌≤◌, Bool, true, false, Option, none, some, List, [], ◌∷◌, ◌++◌,
  Checked, done, panic, ◌≡◌, refl, ap, arith, ◌>>=◌, unwrap, ◌==◌, if◌then◌else◌, length, sym, ◌∙◌,
  out_of_fuel, ==_refl, >>=-done,
}
use native.Mathlib.Nat.{div-eq_of_lt, div-eq-sub-div}
use rubydex.Base.Map.{UniqueKeys, Map, get, keys}
use rubydex.Model.Ids.{Text}
use rubydex.Model.Declaration.{Declaration, base_of}
use rubydex.Graph.{Graph}
use rubydex.Query.Search.{
  MatchMode, name_matches, filter_chunk, take, drop, chunks, join_all, div_ceil, declaration_search,
}

-- what is wanted of the declarations, entry by entry
abbrev pub matching : MatchMode → Text → Map Declaration → List ℕ
matching mode query [] = []
matching mode query ((id, d) ∷ m) =
    if name_matches mode query (base_of d).name
    then id ∷ matching mode query m
    else matching mode query m

take-append-drop {ℓ} : {A : Type ℓ} (n : ℕ) (l : List A) → take n l ++ drop n l ≡ l
unfolding take drop
take-append-drop zero l = refl
take-append-drop (suc n) [] = refl
take-append-drop (suc n) (x ∷ l) = ap (◌∷◌ x) (take-append-drop n l)

length-drop {ℓ} : {A : Type ℓ} (n : ℕ) (l : List A) → length (drop n l) ≡ length l - n
unfolding drop
length-drop zero l = omega arith
length-drop (suc n) [] = omega arith
length-drop (suc n) (x ∷ l) = omega (arith, length-drop n l)

-- the entry `x` kept or dropped before or after a further chunk is appended
keep_append :
    (b : Bool) (x : ℕ) (m n : Checked (List ℕ))
    → ((m >>= λ a. n >>= λ c. done (a ++ c)) >>= λ rest. done (if b then x ∷ rest else rest))
      ≡ ((m >>= λ rest. done (if b then x ∷ rest else rest)) >>= λ a. n >>= λ c. done (a ++ c))
keep_append true x (done a) (done c) = refl
keep_append false x (done a) (done c) = refl
keep_append b x (done a) panic = refl
keep_append b x (done a) out_of_fuel = refl
keep_append b x panic n = refl
keep_append b x out_of_fuel n = refl

keep_found_append :
    (mode : MatchMode) (query : Text) (o : Option Declaration) (x : ℕ) (m n : Checked (List ℕ))
    → (unwrap o >>= λ d. (m >>= λ a. n >>= λ c. done (a ++ c)) >>= λ rest.
        done (if name_matches mode query (base_of d).name then x ∷ rest else rest))
      ≡ ((unwrap o >>= λ d. m >>= λ rest.
            done (if name_matches mode query (base_of d).name then x ∷ rest else rest))
          >>= λ a. n >>= λ c. done (a ++ c))
keep_found_append mode query none x m n = refl
keep_found_append mode query (some d) x m n =
    keep_append (name_matches mode query (base_of d).name) x m n

module _ (g : Graph) (mode : MatchMode) (query : Text) where
  filter_chunk-append :
      (xs ys : List ℕ)
      → filter_chunk g mode query (xs ++ ys) ≡ (
          filter_chunk g mode query xs >>= λ a. filter_chunk g mode query ys >>= λ b. done (a ++ b))
  unfolding filter_chunk
  filter_chunk-append [] ys = sym (>>=-done (filter_chunk g mode query ys))
  filter_chunk-append (x ∷ xs) ys =
      ap
        (λ m. unwrap (get x g.declarations) >>= λ d.
          m >>= λ rest. done (if name_matches mode query (base_of d).name then x ∷ rest else rest))
        (filter_chunk-append xs ys)
      ∙ keep_found_append mode query (get x g.declarations) x (filter_chunk g mode query xs)
          (filter_chunk g mode query ys)

  join_all-chunks :
      (fuel size : ℕ) (ids : List ℕ)
      → 0 < size
      → length ids ≤ fuel
      → join_all g mode query (chunks fuel size ids) ≡ filter_chunk g mode query ids
  unfolding join_all chunks filter_chunk
  join_all-chunks zero size [] h k = refl
  join_all-chunks zero size (x ∷ ids) h k = absurd (omega (arith, k))
  join_all-chunks (suc fuel) size [] h k = refl
  join_all-chunks (suc fuel) zero (x ∷ ids) h k = absurd (omega (arith, h))
  join_all-chunks (suc fuel) (suc size) (x ∷ ids) h k =
      let l = x ∷ ids in
      ap (λ m. filter_chunk g mode query (take (suc size) l) >>= λ a. m >>= λ b. done (a ++ b))
        (join_all-chunks fuel (suc size) (drop (suc size) l) h
          (omega (arith, length-drop (suc size) l, k)))
      ∙ sym (filter_chunk-append (take (suc size) l) (drop (suc size) l))
      ∙ ap (filter_chunk g mode query) (take-append-drop (suc size) l)

  filter_chunk-keys :
      (m : Map Declaration)
      → UniqueKeys m
      → ((id : ℕ) (d : Declaration) → get id m ≡ some d → get id g.declarations ≡ some d)
      → filter_chunk g mode query (keys m) ≡ done (matching mode query m)
  unfolding filter_chunk get
  filter_chunk-keys [] unique known = refl
  filter_chunk-keys ((id, d) ∷ m) unique known =
      let rest = filter_chunk-keys m unique.1 (λ j e h. known j e (ground (arith, h, unique.0))) in
      let first = known id d (ground (arith, ==_refl id)) in ground (arith, rest, first)

div_ceil-pos : (a b : ℕ) → 0 < a → 0 < b → 0 < div_ceil a b
unfolding div_ceil
div_ceil-pos a b h k =
    let t : (a + b - 1) / b ≡ (a + b - 1 - b) / b + 1 = div-eq-sub-div k (omega (arith, h)) in
    omega (arith, t)

div_ceil-zero : (b : ℕ) → 0 < b → div_ceil 0 b ≡ 0
unfolding div_ceil
div_ceil-zero b k = div-eq_of_lt (omega (arith, k))

search_chunks :
    (n : ℕ) (g : Graph) (query : Text) (mode : MatchMode) (ids : List ℕ)
    → 0 < n
    → (if div_ceil (length ids) n == 0
        then done []
        else join_all g mode query (chunks (length ids) (div_ceil (length ids) n) ids))
      ≡ filter_chunk g mode query ids
unfolding filter_chunk
search_chunks n g query mode [] h = ground (arith, div_ceil-zero n h)
search_chunks n g query mode (x ∷ ids) h =
    let size = div_ceil-pos (length (x ∷ ids)) n (omega arith) h in
    ground (
      arith,
      size,
      join_all-chunks g mode query (length (x ∷ ids)) (div_ceil (length (x ∷ ids)) n) (x ∷ ids) size
          (omega arith),
    )

-- On any positive number of threads the search panics on no graph whose declarations are keyed
-- uniquely, and returns the ids of exactly the declarations whose names match, in the order of the
-- map: no chunk is dropped, repeated or reordered, whatever the number of threads.
pub declaration_search-matching :
    (num_threads : ℕ) (g : Graph) (query : Text) (mode : MatchMode)
    → 0 < num_threads
    → UniqueKeys g.declarations
    → declaration_search num_threads g query mode ≡ done (matching mode query g.declarations)
unfolding declaration_search
declaration_search-matching n g query mode h unique =
    let all = filter_chunk-keys g mode query g.declarations unique (λ id d known. known) in
    search_chunks n g query mode (keys g.declarations) h ∙ all
