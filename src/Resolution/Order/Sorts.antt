-- ===== src/Resolution/Order/Sorts.antt =====
-- The lists that `prepare_units` splits the pending work into hold each unit once.

use rubydex.Base.{
  ℕ, true, false, List, [], ◌∷◌, refl, ap, arith, count, contains, Bool-cases, Option-cases, inl,
  inr, Ensures, Ensures->>=, Ensures-map,
}
use rubydex.Base.Map.{Map, get, is_some}
use rubydex.Model.Ids.{Hash}
use rubydex.Graph.{Graph, WorkUnit}
use rubydex.Resolution.Order.{Sorted, sort_unit, sort_units, nothing_sorted, built_in_ids}
use rubydex.Resolution.Order.Counts.{
  tally, tally-map, tally-map_other, units_in, others_in, is_definition, is_reference,
}
use rubydex.Resolution.Order.Places.{
  Places-nothing, sort_definition-Places, keyed-Places, ancestors-Places,
}
use rubydex.Resolution.Order.Tracked.{
  IsOnce, Sees, IsNext, already, definition-IsNext, reference-IsNext, ancestors-IsNext,
}

module _ (xxh3_64 : Hash) (g : Graph) where
  sort_unit-IsNext :
      (depths : Map ℕ) (s : Sorted) (u : WorkUnit)
      → IsOnce xxh3_64 g s
      → Ensures (IsNext xxh3_64 g (u ∷ []) s) (sort_unit depths g s u)
  unfolding sort_unit
  sort_unit-IsNext depths s (WorkUnit.definition id) once =
      elim (Bool-cases (contains s.seen_defs id)) [
        | inl old ↦
            rw (old, Ensures)
              (
                once,
                record {
                  defs = λ j. let e = already xxh3_64 g s.seen_defs id j old in ground (arith, e);
                  refs = λ j. ground arith;
                  ancs = λ j. ground arith;
                },
              )
        | inr new ↦
            rw (new, Ensures)
              (Ensures-map _ _ _
                (sort_definition-Places g depths id (record s { seen_defs = id ∷ s.seen_defs })
                  (get id g.definitions))
                λ s' placed. definition-IsNext xxh3_64 g s s' once id new placed)
      ]
  sort_unit-IsNext depths s (WorkUnit.constant_ref id) once =
      let s1 : Sorted = record s { seen_references = id ∷ s.seen_references } in
      elim (Bool-cases (contains s.seen_references id)) [
        | inl old ↦
            rw (old, Ensures)
              (
                once,
                record {
                  defs = λ j. ground arith;
                  refs = λ j.
                      let e = already xxh3_64 g s.seen_references id j old in ground (arith, e);
                  ancs = λ j. ground arith;
                },
              )
        | inr new ↦
            rw (new, Ensures)
              (elim (Option-cases (get id g.constant_references)) [
                | inl e ↦
                    rw (e, Ensures)
                      (reference-IsNext xxh3_64 g s s1 once id false new (ap is_some e)
                        (Places-nothing (WorkUnit.constant_ref id) s1))
                | inr (r, e) ↦
                    rw (e, Ensures)
                      (Ensures-map _ _ _ (keyed-Places g depths id r.name_id r.uri_id r.offset s1)
                        λ s' placed.
                          reference-IsNext xxh3_64 g s s' once id true new (ap is_some e) placed)
              ])
      ]
  sort_unit-IsNext depths s (WorkUnit.ancestors id) once =
      let s1 : Sorted = record s { seen_ancestors = id ∷ s.seen_ancestors } in
      elim (Bool-cases (contains s.seen_ancestors id)) [
        | inl old ↦ rw old (
          once,
          record {
            defs = λ j. ground arith;
            refs = λ j. ground arith;
            ancs = λ j. let e = already xxh3_64 g s.seen_ancestors id j old in ground (arith, e);
          },
        )
        | inr new ↦ rw new (elim (Bool-cases (is_some (get id g.declarations))) [
          | inl e ↦
              rw e (ancestors-IsNext xxh3_64 g s _ once id true new e (ancestors-Places g id s1))
          | inr e ↦ rw e (
              ancestors-IsNext xxh3_64 g s s1 once id false new e
                (Places-nothing (WorkUnit.ancestors id) s1))
        ])
      ]

  Sees-rest :
      (u : WorkUnit) (work : List WorkUnit) (s s' s'' : Sorted)
      → Sees xxh3_64 g (u ∷ []) s s'
      → Sees xxh3_64 g work s' s''
      → Sees xxh3_64 g (u ∷ work) s s''
  Sees-rest u work s s' s'' first rest = record {
    defs = λ j. let a = first.defs j in let b = rest.defs j in ground (arith, a, b);
    refs = λ j. let a = first.refs j in let b = rest.refs j in ground (arith, a, b);
    ancs = λ j. let a = first.ancs j in let b = rest.ancs j in ground (arith, a, b);
  }

  pub sort_units-IsNext :
      (depths : Map ℕ) (work : List WorkUnit) (s : Sorted)
      → IsOnce xxh3_64 g s
      → Ensures (IsNext xxh3_64 g work s) (sort_units depths g work s)
  unfolding sort_units
  sort_units-IsNext depths [] s once = (
    once,
    record { defs = λ j. ground arith; refs = λ j. ground arith; ancs = λ j. ground arith },
  )
  sort_units-IsNext depths (u ∷ work) s once =
      Ensures->>= (IsNext xxh3_64 g (u ∷ []) s) (IsNext xxh3_64 g (u ∷ work) s)
        (sort_unit depths g s u) (sort_units depths g work) (sort_unit-IsNext depths s u once)
        λ s' (once', seen).
          Ensures-map (IsNext xxh3_64 g work s') (IsNext xxh3_64 g (u ∷ work) s)
            (sort_units depths g work s') (sort_units-IsNext depths work s' once')
            λ s'' (once'', rest). (once'', Sees-rest u work s s' s'' seen rest)

  pub nothing_sorted-IsOnce : IsOnce xxh3_64 g (nothing_sorted xxh3_64)
  unfolding nothing_sorted units_in others_in tally count contains
  nothing_sorted-IsOnce =
      let ids = built_in_ids xxh3_64 in
      record {
        definitions = λ id. omega (arith, tally-map_other (is_definition id) (λ a. refl) ids);
        others = λ id. omega arith;
        references = λ id. omega (arith, tally-map_other (is_reference id) (λ a. refl) ids);
        ancestors = λ id. omega (arith, tally-map id ids);
      }
