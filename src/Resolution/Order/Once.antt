-- ===== src/Resolution/Order/Once.antt =====
-- What `prepare_units` makes of the pending work.

use rubydex.Base
use rubydex.Base.{
  ℕ, ◌+◌, ◌==◌, Bool, true, false, ◌&&◌, ◌||◌, List, [], ◌∷◌, ◌++◌, Checked, done, ◌≡◌, refl, ap,
  subst, arith, count, contains, if◌then◌else◌, Bool-cases, Option-cases, inl, inr, Ensures,
  Ensures->>=, >>=_assoc, Ensures-all, Ensures-map,
}
use rubydex.Base.Map.{contains_key}
use rubydex.Model.Ids.{Hash}
use rubydex.Graph.{Graph, WorkUnit}
use rubydex.Graph.Names.{take_pending_work}
use rubydex.Resolution.{Resolver, changes, reads, pure, Action, ◌>>=◌}
use rubydex.Resolution.Depth.{compute_name_depths}
use rubydex.Resolution.Order.{
  Sorted, sort_units, nothing_sorted, prepare_units, enqueue, queue_of, built_in_ids, compared,
  is_comparable,
}
use rubydex.Resolution.Order.Counts.{
  tally, tally-append, tally-queue_of, count-others_of, units_in, is_definition, is_reference,
  is_ancestors,
}
use rubydex.Resolution.Order.Places.{queues, sets_aside}
use rubydex.Resolution.Order.Tracked.{is_pending, IsNext}
use rubydex.Resolution.Order.Sorts.{sort_units-IsNext, nothing_sorted-IsOnce}

Ensures-reads :
    {A B : Type 0} (P : A → Type 0) (Q : B × Resolver → Type 0) (f : Graph → Checked A)
    (k : A → Action B) (r : Resolver)
    → Ensures P (f r.graph)
    → ((a : A) → P a → Ensures Q (k a r))
    → Ensures Q ((reads f >>= k) r)
unfolding reads ◌>>=◌
Ensures-reads {A = A} {B = B} P Q f k r h next =
    let run : A × Resolver → Checked (B × Resolver) = λ (a, r'). k a r' in
    rw (>>=_assoc (f r.graph) (λ a. done (a, r)) run)
      (Ensures->>= P Q (f r.graph) (λ a. k a r) h next)

compared-Ensures : (P : Sorted → Type 0) (s : Sorted) → P s → Ensures P (compared s)
unfolding compared
compared-Ensures P s h =
    elim (Bool-cases (is_comparable s.definitions && is_comparable s.const_refs)) [
      | inl fine ↦ rw (fine, Ensures) h
      | inr fails ↦ rw (fails, Ensures) tt
    ]

module _ (xxh3_64 : Hash) where
  -- what there is to resolve afterwards
  abbrev Prepares : Resolver → List ℕ × Resolver → Type 0
  Prepares r (ids, r') =
      ((id : ℕ)
        → tally (is_definition id) r'.unit_queue
          ≡ tally (is_definition id) r.unit_queue
            + (if is_pending (is_definition id) r.graph.pending_work && queues r.graph id
                then 1
                else 0))
      × ((id : ℕ)
          → count id ids ≡ (
              if is_pending (is_definition id) r.graph.pending_work && sets_aside r.graph id
              then 1
              else 0))
      × ((id : ℕ)
          → tally (is_reference id) r'.unit_queue
            ≡ tally (is_reference id) r.unit_queue
              + (if is_pending (is_reference id) r.graph.pending_work
                    && contains_key id r.graph.constant_references
                  then 1
                  else 0))
      × ((id : ℕ)
          → tally (is_ancestors id) r'.unit_queue
            ≡ tally (is_ancestors id) r.unit_queue
              + (count id (built_in_ids xxh3_64)
                  + (if is_pending (is_ancestors id) r.graph.pending_work
                        && contains_key id r.graph.declarations
                      then 1
                      else 0)))
      × (r'.graph ≡ record r.graph { pending_work = [] })

  prepare_units-Prepares : (r : Resolver) → Ensures (Prepares r) (prepare_units xxh3_64 r)
  unfolding prepare_units enqueue take_pending_work changes reads pure ◌>>=◌ nothing_sorted contains
  prepare_units-Prepares r =
      let g : Graph = record r.graph { pending_work = [] } in
      Ensures-reads (λ depths. Unit) (Prepares r) (λ g'. compute_name_depths g'.names) _
        (record r { graph = g })
        (Ensures-all (λ depths. Unit) (compute_name_depths g.names) λ depths. tt)
        λ depths _.
          let Next = IsNext xxh3_64 g r.graph.pending_work (nothing_sorted xxh3_64) in
          Ensures-reads Next (Prepares r)
            (λ g'.
              Base.◌>>=◌ (sort_units depths g' r.graph.pending_work (nothing_sorted xxh3_64))
                compared)
            _ (record r { graph = g })
            (Ensures->>= Next Next
              (sort_units depths g r.graph.pending_work (nothing_sorted xxh3_64)) compared
              (sort_units-IsNext xxh3_64 g depths r.graph.pending_work (nothing_sorted xxh3_64)
                (nothing_sorted-IsOnce xxh3_64 g))
              (compared-Ensures Next))
            λ s (once, seen).
              let all : (p : WorkUnit → Bool)
                  → tally p (r.unit_queue ++ queue_of s) ≡ tally p r.unit_queue + units_in p s =
                λ p. omega (arith, tally-append p r.unit_queue (queue_of s), tally-queue_of p s) in
              (
                λ id.
                    let a = once.definitions id in
                    let b = seen.defs id in ground (arith, a, b, all (is_definition id)),
                λ id.
                    let a = once.others id in
                    let b = seen.defs id in ground (arith, a, b, count-others_of id s),
                λ id.
                    let a = once.references id in
                    let b = seen.refs id in ground (arith, a, b, all (is_reference id)),
                λ id.
                    let a = once.ancestors id in
                    let b = seen.ancs id in ground (arith, a, b, all (is_ancestors id)),
                refl,
              )

  -- If preparing the units does not panic, what is pending is moved, once for each id, whatever
  -- number of units of it are pending. A pending definition that is there gets one more unit in the
  -- queue if it is a class, module, singleton class, constant, constant alias or a method of `self`,
  -- and is else returned once among the other definitions, which are no more than that. A pending
  -- reference that is there, and the ancestors of a pending declaration that is there, get one more
  -- unit in the queue; each built-in declaration gets one for its ancestors besides. No other
  -- definition, reference or ancestors are added, and the graph keeps all but the pending work.
  pub prepare_units-once :
      (r r' : Resolver) (ids : List ℕ)
      → prepare_units xxh3_64 r ≡ done (ids, r')
      → ((id : ℕ)
          → tally (is_definition id) r'.unit_queue
            ≡ tally (is_definition id) r.unit_queue
              + (if is_pending (is_definition id) r.graph.pending_work && queues r.graph id
                  then 1
                  else 0))
        × ((id : ℕ)
            → count id ids ≡ (
                if is_pending (is_definition id) r.graph.pending_work && sets_aside r.graph id
                then 1
                else 0))
        × ((id : ℕ)
            → tally (is_reference id) r'.unit_queue
              ≡ tally (is_reference id) r.unit_queue
                + (if is_pending (is_reference id) r.graph.pending_work
                      && contains_key id r.graph.constant_references
                    then 1
                    else 0))
        × ((id : ℕ)
            → tally (is_ancestors id) r'.unit_queue
              ≡ tally (is_ancestors id) r.unit_queue
                + (count id (built_in_ids xxh3_64)
                    + (if is_pending (is_ancestors id) r.graph.pending_work
                          && contains_key id r.graph.declarations
                        then 1
                        else 0)))
        × (r'.graph ≡ record r.graph { pending_work = [] })
  prepare_units-once r r' ids h = subst (Ensures (Prepares r)) h (prepare_units-Prepares r)
