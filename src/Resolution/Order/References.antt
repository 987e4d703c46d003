-- ===== src/Resolution/Order/References.antt =====
-- The references among the pending work, which `prepare_units` all puts into the queue.
use rubydex.Base.{
  ℕ, ◌<◌, ◌==◌, true, ◌||◌, List, [], ◌∷◌, ◌≡◌, refl, arith, ap, Checked, done, panic, out_of_fuel,
  Ensures,
}
use rubydex.Base.Map.{contains_key}
use rubydex.Model.Ids.{Hash}
use rubydex.Graph.{WorkUnit}
use rubydex.Resolution.{Resolver}
use rubydex.Resolution.Grows.{has_reference}
use rubydex.Resolution.Order.{prepare_units}
use rubydex.Resolution.Order.Counts.{tally, is_reference}
use rubydex.Resolution.Order.Once.{prepare_units-once}
use rubydex.Resolution.Order.Tracked.{is_pending}

has_reference-is_pending :
    (id : ℕ) (l : List WorkUnit) → has_reference id l ≡ is_pending (is_reference id) l
unfolding has_reference
has_reference-is_pending id [] = refl
has_reference-is_pending id (WorkUnit.constant_ref r ∷ l) =
    ap (◌||◌ (r == id)) (has_reference-is_pending id l)
has_reference-is_pending id (WorkUnit.definition d ∷ l) = has_reference-is_pending id l
has_reference-is_pending id (WorkUnit.ancestors d ∷ l) = has_reference-is_pending id l

has_reference-tally :
    (id : ℕ) (l : List WorkUnit) → 0 < tally (is_reference id) l → has_reference id l ≡ true
unfolding has_reference tally
has_reference-tally id [] h = absurd (omega (arith, h))
has_reference-tally id (WorkUnit.constant_ref r ∷ l) h = ground (arith, h, has_reference-tally id l)
has_reference-tally id (WorkUnit.definition d ∷ l) h = has_reference-tally id l (omega (arith, h))
has_reference-tally id (WorkUnit.ancestors d ∷ l) h = has_reference-tally id l (omega (arith, h))

module _ (xxh3_64 : Hash) where
  -- the references among the work are in the queue, which keeps what it had
  abbrev pub TakesReferences : Resolver → Resolver → Type 0
  TakesReferences r r' =
      ((id : ℕ)
        → has_reference id r.graph.pending_work ≡ true
        → contains_key id r.graph.constant_references ≡ true
        → has_reference id r'.unit_queue ≡ true)
      × (r'.graph ≡ record r.graph { pending_work = [] })

  takes :
      (r : Resolver) (x : Checked (List ℕ × Resolver))
      → prepare_units xxh3_64 r ≡ x
      → Ensures (λ x. TakesReferences r x.1) x
  takes r (done (ids, r')) e =
      let (definitions, others, references, ancestors, kept) =
        prepare_units-once xxh3_64 r r' ids e in
      (
        λ id pends known.
            let moved = references id in
            let same = has_reference-is_pending id r.graph.pending_work in
            has_reference-tally id r'.unit_queue (ground (arith, moved, same, pends, known)),
        kept,
      )
  takes r panic e = tt
  takes r out_of_fuel e = tt

  pub prepare_units-TakesReferences :
      (r : Resolver) → Ensures (λ x. TakesReferences r x.1) (prepare_units xxh3_64 r)
  prepare_units-TakesReferences r = takes r (prepare_units xxh3_64 r) refl
