-- ===== src/Resolution/Units/Kept.antt =====
-- What the whole resolution keeps, and that no reference gets lost in it.

use rubydex.Base.{
  ℕ, zero, suc, true, false, not, ◌||◌, none, some, List, [], ◌∷◌, ◌++◌, done, Ensures, Ensures->>=,
  Ensures-map, Ensures-both, ◌≡◌, ◌∙◌, subst, arith, ◌⊎◌, inl, inr, length, Bool-cases, List-cases,
  Option-cases, ap,
}
use rubydex.Base.Map.{get, contains_key}
use rubydex.Model.Ids.{Hash}
use rubydex.Model.Reference.{ConstantReference}
use rubydex.Graph.{Graph, WorkUnit}
use rubydex.Graph.Names.{extend_work}
use rubydex.Resolution.{Outcome, Resolver, new, push_back, reads, ◌>>=◌}
use rubydex.Resolution.Grows.{
  Grows, Grows-refl, Grows-trans, NameGrows, Advances, has_reference, has_reference-append,
  has_reference-cons,
}
use rubydex.Resolution.Grows.Steps.{extend_work-Grows}
use rubydex.Resolution.Singleton.{queue_ancestors}
use rubydex.Resolution.Constants.{resolve_constant_internal}
use rubydex.Resolution.Constants.Growing.{resolve_constant_internal-IsGrowing}
use rubydex.Resolution.Constants.Recorded.{IsResolved, Reports, resolve_constant_internal-Reports}
use rubydex.Resolution.Remaining.{handle_remaining_definitions}
use rubydex.Resolution.Remaining.Growing.{remaining_definitions-IsGrowing}
use rubydex.Resolution.Order.{prepare_units}
use rubydex.Resolution.Order.References.{TakesReferences, prepare_units-TakesReferences}
use rubydex.Resolution.Units.Growing.{after_reference-IsGrowing, handle_unit-IsGrowing}
use rubydex.Resolution.Units.{
  after_reference, handle_reference_unit, handle_unit, pass, is_empty, resolve_loop, drain, resolve,
}

-- the reference is there, and its name is resolved
abbrev pub IsSettled : ℕ → Graph → Type 0
IsSettled id g =
    (c : ConstantReference) × (get id g.constant_references ≡ some c) × IsResolved c.name_id g

IsSettled-Grows : (id : ℕ) (g g' : Graph) → Grows g g' → IsSettled id g → IsSettled id g'
IsSettled-Grows id g g' grows (c, there, (n, resolved)) = (
  c,
  ap (get id) grows.constant_references ∙ there,
  (n, subst (λ o. NameGrows o (get c.name_id g'.names)) resolved (grows.names c.name_id)),
)

-- the reference is in the queue or settled
abbrev Settled : ℕ → Resolver → Type 0
Settled id r = (has_reference id r.unit_queue ≡ true) ⊎ IsSettled id r.graph

Settled-Advances : (id : ℕ) (r r' : Resolver) → Advances r r' → Settled id r → Settled id r'
Settled-Advances id r r' h (inl queued) = inl (h.queue id queued)
Settled-Advances id r r' h (inr settled) = inr (IsSettled-Grows id r.graph r'.graph h.grows settled)

-- the graph grows, and what is queued or settled stays so
record Carries (r r' : Resolver) : Type 0 where
  grows : Grows r.graph r'.graph
  settled : (id : ℕ) → Settled id r → Settled id r'

Carries-refl : (r : Resolver) → Carries r r
Carries-refl r = record { grows = Grows-refl r.graph; settled = λ id h. h }

Carries-trans : (a b c : Resolver) → Carries a b → Carries b c → Carries a c
Carries-trans a b c h k = record {
  grows = Grows-trans a.graph b.graph c.graph h.grows k.grows;
  settled = λ id s. k.settled id (h.settled id s);
}

module _ (xxh3_64 : Hash) (fuel : ℕ) where
  after_reference-Settled :
      (id : ℕ) (c : ConstantReference) (o : Outcome) (r : Resolver)
      → get id r.graph.constant_references ≡ some c
      → Reports c.name_id o r.graph
      → Ensures (λ x. Settled id x.1) (after_reference xxh3_64 fuel id o r)
  unfolding after_reference queue_ancestors push_back ◌>>=◌ has_reference
  after_reference-Settled id c (Outcome.retry none) r there h =
      inl (ground (arith, has_reference-append id r.unit_queue (WorkUnit.constant_ref id ∷ [])))
  after_reference-Settled id c (Outcome.unresolved none) r there h =
      inl (ground (arith, has_reference-append id r.unit_queue (WorkUnit.constant_ref id ∷ [])))
  after_reference-Settled id c (Outcome.retry (some l)) r there h =
      inl (queued_before id r.unit_queue l)
    where
      queued_before :
          (id : ℕ) (q : List WorkUnit) (l : ℕ)
          → has_reference id ((q ++ WorkUnit.constant_ref id ∷ []) ++ WorkUnit.ancestors l ∷ [])
            ≡ true
      queued_before id q l = ground (
        arith,
        has_reference-append id q (WorkUnit.constant_ref id ∷ []),
        has_reference-append id (q ++ WorkUnit.constant_ref id ∷ []) (WorkUnit.ancestors l ∷ []),
      )
  after_reference-Settled id c (Outcome.unresolved (some l)) r there h = inl (
      ground (
        arith,
        has_reference-append id r.unit_queue (WorkUnit.constant_ref id ∷ []),
        has_reference-append id (r.unit_queue ++ WorkUnit.constant_ref id ∷ [])
            (WorkUnit.ancestors l ∷ []),
      ))
  after_reference-Settled id c (Outcome.resolved d l) r there h =
      Ensures-map (λ x. Advances r x.1) _ (after_reference xxh3_64 fuel id (Outcome.resolved d l) r)
        ((after_reference-IsGrowing xxh3_64 fuel id (Outcome.resolved d l)).at r)
        λ x advances. Settled-Advances id r x.1 advances (inr (c, there, h))

  -- the outcome of a reference, and what follows
  outcome-Settled :
      (id : ℕ) (c : ConstantReference) (r : Resolver)
      → get id r.graph.constant_references ≡ some c
      → Ensures
          (λ x. Settled id x.1)
          ((resolve_constant_internal xxh3_64 fuel c.name_id >>= after_reference xxh3_64 fuel id) r)
  unfolding ◌>>=◌
  outcome-Settled id c r there =
      let m = resolve_constant_internal xxh3_64 fuel c.name_id in
      Ensures->>= (λ x. Advances r x.1 × Reports c.name_id x.0 (x.1).graph) (λ x. Settled id x.1)
        (m r) (λ (o, r'). after_reference xxh3_64 fuel id o r')
        (Ensures-both (λ x. Advances r x.1) (λ x. Reports c.name_id x.0 (x.1).graph) (m r)
          ((resolve_constant_internal-IsGrowing xxh3_64 fuel c.name_id).at r)
          (resolve_constant_internal-Reports xxh3_64 fuel c.name_id r))
        λ (o, r') (advances, reports).
          after_reference-Settled id c o r' (ap (get id) advances.grows.constant_references ∙ there)
            reports

  handle_reference_unit-Settled :
      (id : ℕ) (r : Resolver)
      → Ensures (λ x. Settled id x.1) (handle_reference_unit xxh3_64 fuel id r)
  unfolding handle_reference_unit reads ◌>>=◌
  handle_reference_unit-Settled id r = elim (Option-cases (get id r.graph.constant_references)) [
    | inl absent ↦ rw (absent, Ensures) tt
    | inr (c, there) ↦ rw (there, Ensures) (outcome-Settled id c r there)
  ]

  -- a unit that has been taken from the queue
  Handled : WorkUnit → Resolver → Resolver → Type 0
  Handled unit r r' =
      Advances r r' × ((id : ℕ) → has_reference id (unit ∷ []) ≡ true → Settled id r')

  handle_unit-Handled :
      (unit : WorkUnit) (r : Resolver)
      → Ensures (λ x. Handled unit r x.1) (handle_unit xxh3_64 fuel unit r)
  unfolding Handled has_reference handle_unit handle_reference_unit
  handle_unit-Handled (WorkUnit.definition d) r =
      Ensures-map (λ x. Advances r x.1) _ (handle_unit xxh3_64 fuel (WorkUnit.definition d) r)
        ((handle_unit-IsGrowing xxh3_64 fuel (WorkUnit.definition d)).at r) λ x h. (h, λ id is. cc)
  handle_unit-Handled (WorkUnit.ancestors d) r =
      Ensures-map (λ x. Advances r x.1) _ (handle_unit xxh3_64 fuel (WorkUnit.ancestors d) r)
        ((handle_unit-IsGrowing xxh3_64 fuel (WorkUnit.ancestors d)).at r) λ x h. (h, λ id is. cc)
  handle_unit-Handled (WorkUnit.constant_ref d) r =
      let m = handle_unit xxh3_64 fuel (WorkUnit.constant_ref d) r in
      Ensures-map (λ x. Advances r x.1 × Settled d x.1) _ m
        (Ensures-both (λ x. Advances r x.1) (λ x. Settled d x.1) m
          ((handle_unit-IsGrowing xxh3_64 fuel (WorkUnit.constant_ref d)).at r) (handled r))
        λ x (h, s).
          (h, λ id is. let same : d ≡ id = ground (arith, is) in subst (λ i. Settled i x.1) same s)
    where
      handled :
          (r : Resolver)
          → Ensures (λ x. Settled d x.1) (handle_unit xxh3_64 fuel (WorkUnit.constant_ref d) r)
      handled r = handle_reference_unit-Settled d r

  -- what was queued behind the unit, or is settled
  Handled-Carries :
      (unit : WorkUnit) (rest : List WorkUnit) (r r' : Resolver)
      → r.unit_queue ≡ unit ∷ rest
      → Handled unit (record r { unit_queue = rest }) r'
      → Carries r r'
  unfolding Handled
  Handled-Carries unit rest r r' queue (advances, settles) = record {
    grows = advances.grows;
    settled = λ id. elim [
      | inl queued ↦
          let split = ap (has_reference id) queue ∙ has_reference-cons id unit rest in
          elim (Bool-cases (has_reference id (unit ∷ []))) [
            | inl it ↦ settles id it
            | inr other ↦ inl (advances.queue id (ground (arith, queued, split, other)))
          ]
      | inr s ↦ inr (IsSettled-Grows id r.graph r'.graph advances.grows s)
    ];
  }

  pass-Carries : (n : ℕ) (r : Resolver) → Ensures (λ x. Carries r x.1) (pass xxh3_64 fuel n r)
  unfolding pass ◌>>=◌
  pass-Carries zero r = Carries-refl r
  pass-Carries (suc n) r = elim (List-cases r.unit_queue) [
    | inl empty ↦ rw (empty, Ensures) (Carries-refl r)
    | inr (unit, rest, more) ↦
        rw (more, Ensures)
          (Ensures->>= (λ x. Handled unit (record r { unit_queue = rest }) x.1) (λ x. Carries r x.1)
            (handle_unit xxh3_64 fuel unit (record r { unit_queue = rest }))
            (λ (u, r'). pass xxh3_64 fuel n r')
            (handle_unit-Handled unit (record r { unit_queue = rest }))
            λ (u, r') handled.
              Ensures-map (λ x. Carries r' x.1) (λ x. Carries r x.1) (pass xxh3_64 fuel n r')
                (pass-Carries n r')
                λ x later.
                  Carries-trans r r' x.1 (Handled-Carries unit rest r r' more handled) later)
  ]

  resolve_loop-Carries :
      (rounds : ℕ) (r : Resolver)
      → Ensures (λ x. Carries r x.1) (resolve_loop xxh3_64 fuel rounds r)
  unfolding resolve_loop
  resolve_loop-Carries zero r = tt
  resolve_loop-Carries (suc rounds) r =
      let start : Resolver = record r { made_progress = false } in
      Ensures->>= (λ x. Carries start x.1) (λ x. Carries r x.1)
        (pass xxh3_64 fuel (length r.unit_queue) start) _ (pass-Carries (length r.unit_queue) start)
        λ (u, r') h.
          let so_far : Carries r r' = record {
            grows = h.grows;
            settled = λ id s. h.settled id s;
          } in
          elim (Bool-cases (not r'.made_progress || is_empty xxh3_64 fuel r'.unit_queue)) [
            | inl over ↦ rw (over, Ensures) so_far
            | inr more ↦
                rw (more, Ensures)
                  (Ensures-map (λ x. Carries r' x.1) (λ x. Carries r x.1)
                    (resolve_loop xxh3_64 fuel rounds r') (resolve_loop-Carries rounds r')
                    λ x later. Carries-trans r r' x.1 so_far later)
          ]

  -- the end of a resolution
  abbrev Leaves : Graph → Graph → Type 0
  Leaves g g' =
      Grows (record g { pending_work = [] }) g'
      × ((id : ℕ)
          → has_reference id g.pending_work ≡ true
          → contains_key id g.constant_references ≡ true
          → (has_reference id g'.pending_work ≡ true) ⊎ IsSettled id g')

  -- what is left in the queue is pending afterwards
  drained-Settled :
      (id : ℕ) (r : Resolver) (g' : Graph)
      → Grows (extend_work r.unit_queue r.graph) g'
      → Settled id r
      → (has_reference id g'.pending_work ≡ true) ⊎ IsSettled id g'
  unfolding extend_work
  drained-Settled id r g' grows (inl queued) = inl (
      grows.pending id
        (ground (arith, queued, has_reference-append id r.graph.pending_work r.unit_queue)))
  drained-Settled id r g' grows (inr settled) = inr (
      IsSettled-Grows id r.graph g'
        (Grows-trans r.graph (extend_work r.unit_queue r.graph) g'
          (extend_work-Grows r.unit_queue r.graph) grows)
        settled)

  resolve-Leaves :
      (rounds : ℕ) (g : Graph)
      → Ensures (λ x. Leaves g (x.1).graph) (resolve xxh3_64 fuel rounds (new g))
  unfolding resolve ◌>>=◌ new drain
  resolve-Leaves rounds g =
      Ensures->>= (λ x. TakesReferences xxh3_64 (new g) x.1) (λ x. Leaves g (x.1).graph)
        (prepare_units xxh3_64 (new g)) _ (prepare_units-TakesReferences xxh3_64 (new g))
        λ (ids, r1) (takes, same).
          Ensures->>= (λ x. Carries r1 x.1) (λ x. Leaves g (x.1).graph)
            (resolve_loop xxh3_64 fuel rounds r1) _ (resolve_loop-Carries rounds r1)
            λ (u, r2) carries.
              let r3 : Resolver = record r2 {
                graph = extend_work r2.unit_queue r2.graph;
                unit_queue = [];
              } in
              Ensures-map (λ x. Advances r3 x.1) (λ x. Leaves g (x.1).graph)
                (handle_remaining_definitions xxh3_64 fuel ids r3)
                ((remaining_definitions-IsGrowing xxh3_64 fuel ids).at r3)
                λ x advances.
                  let drained =
                    Grows-trans r2.graph r3.graph (x.1).graph
                      (extend_work-Grows r2.unit_queue r2.graph) advances.grows in
                  (
                    subst (λ g0. Grows g0 (x.1).graph) same
                        (Grows-trans r1.graph r2.graph (x.1).graph carries.grows drained),
                    λ id h known.
                        drained-Settled id r2 (x.1).graph advances.grows
                          (carries.settled id (inl (takes id h known))),
                  )

  -- If the resolution of a graph returns, then in the new graph the definitions, strings, references
  -- and the reverse index are as they were, the documents are so but for their diagnostics, every
  -- name is as it was or has gone from unresolved to resolved, every declaration is still declared,
  -- and every namespace is still a namespace.
  pub resolve-Grows :
      (rounds : ℕ) (g : Graph) (r : Resolver)
      → resolve xxh3_64 fuel rounds (new g) ≡ done (tt, r)
      → Grows (record g { pending_work = [] }) r.graph
  resolve-Grows rounds g r h =
      (subst (Ensures (λ x. Leaves g (x.1).graph)) h (resolve-Leaves rounds g)).0

  -- If the resolution of a graph returns, then every constant reference that was pending and is in
  -- the graph is pending again, or it is still there and its name is resolved: no reference is lost.
  pub resolve-IsSettled :
      (rounds : ℕ) (g : Graph) (r : Resolver) (id : ℕ)
      → resolve xxh3_64 fuel rounds (new g) ≡ done (tt, r)
      → has_reference id g.pending_work ≡ true
      → contains_key id g.constant_references ≡ true
      → (has_reference id r.graph.pending_work ≡ true) ⊎ IsSettled id r.graph
  resolve-IsSettled rounds g r id h =
      (subst (Ensures (λ x. Leaves g (x.1).graph)) h (resolve-Leaves rounds g)).1 id
