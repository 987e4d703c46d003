-- ===== src/Graph/Counts/RoundTrip.antt =====
-- Counting a use and dropping it again leaves the strings and the names as they were.
use rubydex.Base.{ℕ, ◌+◌, ◌<◌, Option, none, some, done, ◌≡◌, arith, Option-cases, inl, inr}
use rubydex.Base.Map.{get, insert, remove, get-insert, get-remove}
use rubydex.Model.Ids.{Text, Hash, id_from}
use rubydex.Model.StringRef
use rubydex.Model.StringRef.{StringRef}
use rubydex.Graph.{Graph}
use rubydex.Graph.Counts.{intern_string, untrack_string}

abbrev pub StringsCounted : Graph → Type 0
StringsCounted g = (id : ℕ) (s : StringRef) → get id g.strings ≡ some s → 0 < s.ref_count

-- What an interned string leaves behind, once it is untracked again.
after_intern : Option StringRef → ℕ → Graph → Graph
after_intern none id g' = record g' { strings = remove id g'.strings }
after_intern (some s) id g' = record g' { strings = insert id s g'.strings }

untrack_new :
    (xxh3_64 : Hash) (t : Text) (g g' : Graph) (id : ℕ)
    → get (id_from xxh3_64 t) g.strings ≡ none
    → intern_string xxh3_64 t g ≡ done (g', id)
    → untrack_string id g' ≡ done (after_intern none id g')
unfolding intern_string untrack_string StringRef.increment_ref_count StringRef.decrement_ref_count
    StringRef.new after_intern
untrack_new xxh3_64 t g g' id e h =
    ground (arith, get-insert (id_from xxh3_64 t) id (StringRef.new t) g.strings)

untrack_old :
    (xxh3_64 : Hash) (t : Text) (g g' : Graph) (id : ℕ) (s : StringRef)
    → get (id_from xxh3_64 t) g.strings ≡ some s
    → 0 < s.ref_count
    → intern_string xxh3_64 t g ≡ done (g', id)
    → untrack_string id g' ≡ done (after_intern (some s) id g')
unfolding intern_string untrack_string StringRef.increment_ref_count StringRef.decrement_ref_count
    after_intern
untrack_old xxh3_64 t g g' id s e pos h =
    ground (
      arith,
      get-insert (id_from xxh3_64 t) id (record s { ref_count = s.ref_count + 1 }) g.strings,
    )

intern_string-id :
    (xxh3_64 : Hash) (t : Text) (g g' : Graph) (id : ℕ)
    → intern_string xxh3_64 t g ≡ done (g', id)
    → (id_from xxh3_64 t ≡ id)
unfolding intern_string StringRef.increment_ref_count
intern_string-id xxh3_64 t g g' id h = ground arith

-- the strings, up to the order of the map
after_intern-strings :
    (xxh3_64 : Hash) (t : Text) (g g' : Graph) (id k : ℕ)
    → intern_string xxh3_64 t g ≡ done (g', id)
    → get k (after_intern (get id g.strings) id g').strings ≡ get k g.strings
unfolding intern_string StringRef.increment_ref_count after_intern
after_intern-strings xxh3_64 t g g' id k h =
    let key = id_from xxh3_64 t in
    elim (Option-cases (get key g.strings)) [
      | inl e ↦
          let new = StringRef.new t in
          ground
            (arith, e, get-insert key k new g.strings, get-remove key k (insert key new g.strings))
      | inr (s, e) ↦
          let bumped = record s { ref_count = s.ref_count + 1 } in
          ground (
            arith,
            e,
            get-insert key k bumped g.strings,
            get-insert key k s (insert key bumped g.strings),
          )
    ]

-- If every string in the graph has a positive count and interning a text does not overflow,
-- untracking the returned id does not panic, and every string is then as it was before: with the
-- count that it had, or absent.
pub untrack_string-intern_string :
    (xxh3_64 : Hash) (t : Text) (g g' : Graph) (id : ℕ)
    → StringsCounted g
    → intern_string xxh3_64 t g ≡ done (g', id)
    → (g'' : Graph) × (untrack_string id g' ≡ done g'')
      × ((k : ℕ) → get k g''.strings ≡ get k g.strings)
untrack_string-intern_string xxh3_64 t g g' id counted e =
    let key = intern_string-id xxh3_64 t g g' id e in
    (
      after_intern (get id g.strings) id g',
      elim (Option-cases (get id g.strings)) [
        | inl new ↦ rw new (untrack_new xxh3_64 t g g' id (rw key new) e)
        | inr (s, old) ↦ rw old (untrack_old xxh3_64 t g g' id s (rw key old) (counted id s old) e)
      ],
      λ k. after_intern-strings xxh3_64 t g g' id k e,
    )
