-- ===== src/Resolution/Order/Counts.antt =====
-- How many units and definitions `prepare_units` sorts, before and after the sorts.
use rubydex.Base.{
  ℕ, ◌+◌, ◌==◌, Bool, false, List, [], ◌∷◌, ◌++◌, map, ◌≡◌, refl, ap, arith, count, if◌then◌else◌,
  Bool-cases, inl, inr,
}
use rubydex.Graph.{WorkUnit}
use rubydex.Resolution.Order.{
  Keyed, Other, Sorted, keyed_le, other_le, insert_sorted, sort, unit_of, id_of, queue_of,
  others_of,
}

-- whether the unit is that of the definition, of the reference, of the ancestors
abbrev pub is_definition : ℕ → WorkUnit → Bool
is_definition id (WorkUnit.definition d) = d == id
is_definition id _ = false

abbrev pub is_reference : ℕ → WorkUnit → Bool
is_reference id (WorkUnit.constant_ref r) = r == id
is_reference id _ = false

abbrev pub is_ancestors : ℕ → WorkUnit → Bool
is_ancestors id (WorkUnit.ancestors d) = d == id
is_ancestors id _ = false

-- how many units pass the test
unfoldable pub tally : (WorkUnit → Bool) → List WorkUnit → ℕ
tally p [] = 0
tally p (u ∷ l) = (if p u then 1 else 0) + tally p l

module _ (p : WorkUnit → Bool) where
  pub tally-append : (l k : List WorkUnit) → tally p (l ++ k) ≡ tally p l + tally p k
  unfolding tally
  tally-append [] k = omega arith
  tally-append (u ∷ l) k = omega (arith, tally-append l k)

  -- sorting only reorders
  tally-insert_sorted :
      (k : Keyed) (l : List Keyed)
      → tally p (map unit_of (insert_sorted keyed_le k l))
        ≡ (if p k.unit then 1 else 0) + tally p (map unit_of l)
  unfolding insert_sorted tally
  tally-insert_sorted k [] = refl
  tally-insert_sorted k (b ∷ l) = elim (Bool-cases (keyed_le k b)) [
    | inl le ↦ rw le refl
    | inr gt ↦ rw gt (omega (arith, tally-insert_sorted k l))
  ]

  tally-sort : (l : List Keyed) → tally p (map unit_of (sort keyed_le l)) ≡ tally p (map unit_of l)
  unfolding sort tally
  tally-sort [] = refl
  tally-sort (k ∷ l) = omega (arith, tally-insert_sorted k (sort keyed_le l), tally-sort l)

count-insert_sorted :
    (id : ℕ) (o : Other) (l : List Other)
    → count id (map id_of (insert_sorted other_le o l))
      ≡ (if o.id == id then 1 else 0) + count id (map id_of l)
unfolding insert_sorted count
count-insert_sorted id o [] = refl
count-insert_sorted id o (b ∷ l) = elim (Bool-cases (other_le o b)) [
  | inl le ↦ rw le refl
  | inr gt ↦ rw gt (omega (arith, count-insert_sorted id o l))
]

pub count-sort :
    (id : ℕ) (l : List Other) → count id (map id_of (sort other_le l)) ≡ count id (map id_of l)
unfolding sort count
count-sort id [] = refl
count-sort id (o ∷ l) = omega (arith, count-insert_sorted id o (sort other_le l), count-sort id l)

-- the ancestors' units
pub tally-map :
    (id : ℕ) (l : List ℕ) → tally (is_ancestors id) (map WorkUnit.ancestors l) ≡ count id l
unfolding tally count
tally-map id [] = refl
tally-map id (a ∷ l) = omega (arith, tally-map id l)

pub tally-map_other :
    (p : WorkUnit → Bool)
    → ((a : ℕ) → p (WorkUnit.ancestors a) ≡ false)
    → (l : List ℕ) → tally p (map WorkUnit.ancestors l) ≡ 0
unfolding tally
tally-map_other p misses [] = refl
tally-map_other p misses (a ∷ l) = ground (arith, misses a, tally-map_other p misses l)

-- how many units in the lists pass the test, and how often the definition is set aside
unfoldable pub units_in : (WorkUnit → Bool) → Sorted → ℕ
units_in p s =
    tally p (map unit_of s.definitions)
    + tally p (map unit_of s.const_refs)
    + tally p s.singleton_methods
    + tally p (map WorkUnit.ancestors s.ancestors)

unfoldable pub others_in : ℕ → Sorted → ℕ
others_in id s = count id (map id_of s.others)

pub tally-queue_of : (p : WorkUnit → Bool) (s : Sorted) → tally p (queue_of s) ≡ units_in p s
unfolding units_in queue_of
tally-queue_of p s =
    let refs = map unit_of (sort keyed_le s.const_refs) in
    let rest = map WorkUnit.ancestors s.ancestors in
    omega (
      arith,
      tally-append p (map unit_of (sort keyed_le s.definitions))
          (refs ++ (s.singleton_methods ++ rest)),
      tally-append p refs (s.singleton_methods ++ rest),
      tally-append p s.singleton_methods rest,
      tally-sort p s.definitions,
      tally-sort p s.const_refs,
    )

pub count-others_of : (id : ℕ) (s : Sorted) → count id (others_of s) ≡ others_in id s
unfolding others_in others_of
count-others_of id s = count-sort id s.others

pub map-append_one :
    {A B : Type 0} (f : A → B) (l : List A) (a : A) → map f (l ++ a ∷ []) ≡ map f l ++ f a ∷ []
map-append_one f [] a = refl
map-append_one f (b ∷ l) a = ap (◌∷◌ (f b)) (map-append_one f l a)
