-- ===== src/Resolution/Order/Tracked.antt =====
-- What is sorted once for each id, as units of the pending work are seen.

use rubydex.Base.{
  ℕ, ◌+◌, ◌==◌, Bool, true, false, ◌&&◌, ◌||◌, List, [], ◌∷◌, ◌≡◌, refl, ap, arith, count, contains,
  if◌then◌else◌, Bool-cases, inl, inr,
}
use rubydex.Base.Map.{contains_key}
use rubydex.Model.Ids.{Hash}
use rubydex.Graph.{Graph, WorkUnit}
use rubydex.Resolution.Order.{Sorted, built_in_ids}
use rubydex.Resolution.Order.Counts.{units_in, others_in, is_definition, is_reference, is_ancestors}
use rubydex.Resolution.Order.Places.{queues, sets_aside, Places}

-- whether a unit of the pending work passes the test
abbrev pub is_pending : (WorkUnit → Bool) → List WorkUnit → Bool
is_pending p [] = false
is_pending p (u ∷ work) = p u || is_pending p work

-- Each of what has been seen and is there counts once, beyond what there was before.
abbrev pub Tracked : (ℕ → ℕ) → (ℕ → Bool) → (ℕ → ℕ) → List ℕ → Type 0
Tracked base there n seen =
    (id : ℕ) → n id ≡ base id + (if contains seen id && there id then 1 else 0)

module _ (base : ℕ → ℕ) (there : ℕ → Bool) (n n' : ℕ → ℕ) (seen seen' : List ℕ) where
  Tracked-same :
      Tracked base there n seen
      → ((j : ℕ) → n' j ≡ n j)
      → seen' ≡ seen
      → Tracked base there n' seen'
  Tracked-same was same kept j =
      let has = ap (λ l. contains l j) kept in ground (arith, was j, same j, has)

  Tracked-more :
      (id : ℕ) (b : Bool)
      → Tracked base there n seen
      → contains seen id ≡ false
      → there id ≡ b
      → ((j : ℕ) → n' j ≡ (if b && id == j then 1 else 0) + n j)
      → seen' ≡ id ∷ seen
      → Tracked base there n' seen'
  unfolding contains
  Tracked-more id b was new known adds kept j =
      let has = ap (λ l. contains l j) kept in
      let before = was j in
      let now = adds j in
      elim (Bool-cases (id == j)) [
        | inl e ↦
            let same : id ≡ j = ground (arith, e) in
            let fresh : contains seen id ≡ contains seen j = ap (contains seen) same in
            let at : there id ≡ there j = ap there same in
            ground (arith, before, now, has, fresh, at, new, known, e)
        | inr e ↦ ground (arith, before, now, has, e)
      ]

module _ (xxh3_64 : Hash) (g : Graph) where
  -- Each definition, reference and list of ancestors that has been seen and is there is in one of
  -- the lists, once; the built-in ancestors come on top.
  pub record IsOnce (s : Sorted) : Type 0 where
    pub definitions : Tracked (λ id. 0) (queues g) (λ id. units_in (is_definition id) s) s.seen_defs
    pub others : Tracked (λ id. 0) (sets_aside g) (λ id. others_in id s) s.seen_defs
    pub references :
        Tracked
          (λ id. 0)
          (λ id. contains_key id g.constant_references)
          (λ id. units_in (is_reference id) s)
          s.seen_references
    pub ancestors :
        Tracked
          (λ id. count id (built_in_ids xxh3_64))
          (λ id. contains_key id g.declarations)
          (λ id. units_in (is_ancestors id) s)
          s.seen_ancestors

  -- what has been seen is what had been and the work
  pub record Sees (work : List WorkUnit) (s s' : Sorted) : Type 0 where
    pub defs :
        (id : ℕ)
        → contains s'.seen_defs id ≡ (contains s.seen_defs id || is_pending (is_definition id) work)
    pub refs :
        (id : ℕ)
        → contains s'.seen_references id
          ≡ (contains s.seen_references id || is_pending (is_reference id) work)
    pub ancs :
        (id : ℕ)
        → contains s'.seen_ancestors id
          ≡ (contains s.seen_ancestors id || is_pending (is_ancestors id) work)

  abbrev pub IsNext : List WorkUnit → Sorted → Sorted → Type 0
  IsNext work s s' = IsOnce s' × Sees work s s'

  -- a unit that has been seen before
  pub already :
      (seen : List ℕ) (id j : ℕ)
      → contains seen id ≡ true
      → contains seen j ≡ (contains seen j || id == j)
  already seen id j old = elim (Bool-cases (id == j)) [
    | inl e ↦
        let same : id ≡ j = ground (arith, e) in
        let there : contains seen id ≡ contains seen j = ap (contains seen) same in
        ground (arith, old, there)
    | inr e ↦ ground (arith, e)
  ]

  module _ (s s' : Sorted) (once : IsOnce s) (id : ℕ) where
    pub definition-IsNext :
        contains s.seen_defs id ≡ false
        → Places
            (WorkUnit.definition id)
            (queues g id)
            (sets_aside g id)
            (record s { seen_defs = id ∷ s.seen_defs })
            s'
        → IsNext (WorkUnit.definition id ∷ []) s s'
    unfolding units_in others_in contains
    definition-IsNext new placed = (
      record {
        definitions =
            Tracked-more _ (queues g) _ _ s.seen_defs _ id (queues g id) once.definitions new refl
              (λ j. placed.units (is_definition j)) placed.seen.seen_defs;
        others =
            Tracked-more _ (sets_aside g) _ _ s.seen_defs _ id (sets_aside g id) once.others new
              refl (λ j. placed.others j) placed.seen.seen_defs;
        references =
            Tracked-same _ _ _ _ _ _ once.references
              (λ j. let n = placed.units (is_reference j) in ground (arith, n))
              placed.seen.seen_references;
        ancestors =
            Tracked-same _ _ _ _ _ _ once.ancestors
              (λ j. let n = placed.units (is_ancestors j) in ground (arith, n))
              placed.seen.seen_ancestors;
      },
      record {
        defs = λ j. let e = ap (λ l. contains l j) placed.seen.seen_defs in ground (arith, e);
        refs = λ j. let e = ap (λ l. contains l j) placed.seen.seen_references in ground (arith, e);
        ancs = λ j. let e = ap (λ l. contains l j) placed.seen.seen_ancestors in ground (arith, e);
      },
    )

    pub reference-IsNext :
        (b : Bool)
        → contains s.seen_references id ≡ false
        → contains_key id g.constant_references ≡ b
        → Places
            (WorkUnit.constant_ref id)
            b
            false
            (record s { seen_references = id ∷ s.seen_references })
            s'
        → IsNext (WorkUnit.constant_ref id ∷ []) s s'
    unfolding units_in others_in contains
    reference-IsNext b new known placed = (
      record {
        definitions =
            Tracked-same _ _ _ _ _ _ once.definitions
              (λ j. let n = placed.units (is_definition j) in ground (arith, n))
              placed.seen.seen_defs;
        others =
            Tracked-same _ _ _ _ _ _ once.others (λ j. let n = placed.others j in ground (arith, n))
              placed.seen.seen_defs;
        references =
            Tracked-more _ (λ i. contains_key i g.constant_references) _ _ s.seen_references _ id b
              once.references new known (λ j. placed.units (is_reference j))
              placed.seen.seen_references;
        ancestors =
            Tracked-same _ _ _ _ _ _ once.ancestors
              (λ j. let n = placed.units (is_ancestors j) in ground (arith, n))
              placed.seen.seen_ancestors;
      },
      record {
        defs = λ j. let e = ap (λ l. contains l j) placed.seen.seen_defs in ground (arith, e);
        refs = λ j. let e = ap (λ l. contains l j) placed.seen.seen_references in ground (arith, e);
        ancs = λ j. let e = ap (λ l. contains l j) placed.seen.seen_ancestors in ground (arith, e);
      },
    )

    pub ancestors-IsNext :
        (b : Bool)
        → contains s.seen_ancestors id ≡ false
        → contains_key id g.declarations ≡ b
        → Places
            (WorkUnit.ancestors id)
            b
            false
            (record s { seen_ancestors = id ∷ s.seen_ancestors })
            s'
        → IsNext (WorkUnit.ancestors id ∷ []) s s'
    unfolding units_in others_in contains
    ancestors-IsNext b new known placed = (
      record {
        definitions =
            Tracked-same _ _ _ _ _ _ once.definitions
              (λ j. let n = placed.units (is_definition j) in ground (arith, n))
              placed.seen.seen_defs;
        others =
            Tracked-same _ _ _ _ _ _ once.others (λ j. let n = placed.others j in ground (arith, n))
              placed.seen.seen_defs;
        references =
            Tracked-same _ _ _ _ _ _ once.references
              (λ j. let n = placed.units (is_reference j) in ground (arith, n))
              placed.seen.seen_references;
        ancestors =
            Tracked-more _ (λ i. contains_key i g.declarations) _ _ s.seen_ancestors _ id b
              once.ancestors new known (λ j. placed.units (is_ancestors j))
              placed.seen.seen_ancestors;
      },
      record {
        defs = λ j. let e = ap (λ l. contains l j) placed.seen.seen_defs in ground (arith, e);
        refs = λ j. let e = ap (λ l. contains l j) placed.seen.seen_references in ground (arith, e);
        ancs = λ j. let e = ap (λ l. contains l j) placed.seen.seen_ancestors in ground (arith, e);
      },
    )
