-- ===== src/JobQueue/Progress.antt =====
-- A run of the job queue does not get stuck while there is work.
use rubydex.Base.{
  ℕ, zero, suc, ◌+◌, ◌<◌, ◌≤◌, true, none, some, List, [], ◌∷◌, ◌≡◌, refl, arith, length, ◌==◌,
  ==_refl, Bool-cases, inl, inr,
}
use rubydex.Base.Map.{UniqueKeys, Map, get, insert, get-insert}
use rubydex.JobQueue.{
  Phase, idle, working, pushing, exited, panicked, Worker, JobQueue, idle_workers, spawn_workers,
  Step, pops, takes, steals, counts, pushes, returns, panics, exits, Reachable, starts, steps,
}
use rubydex.JobQueue.Measure.{total, total-ge, running, load, is_exited}
use rubydex.JobQueue.Finished.{Reachable-IsCounted}

-- a positive sum has a positive part
total-positive :
    (f : Worker → ℕ) (m : Map Worker)
    → UniqueKeys m
    → 0 < total f m
    → (v : ℕ) × (w : Worker) × (get v m ≡ some w) × (0 < f w)
unfolding total get
total-positive f [] unique h = absurd (omega (arith, h))
total-positive f ((k, w) ∷ m) unique h = elim (Bool-cases (0 == f w)) [
  | inr some_here ↦ (k, w, ground (arith, ==_refl k), ground arith)
  | inl none_here ↦
      let (v, u, there, positive) = total-positive f m unique.1 (ground arith) in
      (v, u, ground (arith, there, unique.0), positive)
]

UniqueKeys-insert : (k : ℕ) (w : Worker) (m : Map Worker) → UniqueKeys m → UniqueKeys (insert k w m)
unfolding insert get
UniqueKeys-insert k w [] unique = (refl, tt)
UniqueKeys-insert k w ((j, u) ∷ m) unique = elim (Bool-cases (j == k)) [
  | inl same ↦ rw same (ground (arith, same, unique.0), unique.1)
  | inr other ↦
      rw other
        (ground (arith, other, get-insert k j w m, unique.0), UniqueKeys-insert k w m unique.1)
]

get-idle_workers : (n k : ℕ) → n ≤ k → get k (idle_workers n) ≡ none
unfolding idle_workers get
get-idle_workers zero k h = refl
get-idle_workers (suc n) k h = ground (arith, get-idle_workers n k (omega (arith, h)))

idle_workers-UniqueKeys : (n : ℕ) → UniqueKeys (idle_workers n)
unfolding idle_workers
idle_workers-UniqueKeys zero = tt
idle_workers-UniqueKeys (suc n) = (get-idle_workers n n (omega arith), idle_workers-UniqueKeys n)

-- a worker with an empty queue is not the one with a job in it
not-same :
    (job : ℕ) (rest : List ℕ) (k v : ℕ) (m : Map Worker) (phase : Phase)
    → get k m ≡ some (record { local = []; phase = idle })
    → get v m ≡ some (record { local = job ∷ rest; phase = phase })
    → (v == k) ≡ true
    → ⊥
not-same job rest k v m phase at there same =
    let here : v ≡ k = ground arith in
    let one : get k m ≡ some (record { local = job ∷ rest; phase = phase }) = rw (← here) there in
    ground arith

module _ (spawns : ℕ → List ℕ) where
  Step-UniqueKeys :
      {q q' : JobQueue} → Step spawns q q' → UniqueKeys q.workers → UniqueKeys q'.workers
  Step-UniqueKeys (pops q k job rest at) u = UniqueKeys-insert k _ q.workers u
  Step-UniqueKeys (takes q k job batch rest at front) u = UniqueKeys-insert k _ q.workers u
  Step-UniqueKeys (steals q k v job batch rest phase other at there) u =
      UniqueKeys-insert k _ _ (UniqueKeys-insert v _ q.workers u)
  Step-UniqueKeys (counts q k job local rest at) u = UniqueKeys-insert k _ q.workers u
  Step-UniqueKeys (pushes q k job local rest at) u = UniqueKeys-insert k _ q.workers u
  Step-UniqueKeys (returns q k local at) u = UniqueKeys-insert k _ q.workers u
  Step-UniqueKeys (panics q k local rest at) u = UniqueKeys-insert k _ q.workers u
  Step-UniqueKeys (exits q k at none_left) u = UniqueKeys-insert k _ q.workers u

  -- a worker that runs a job goes on
  busy-Step :
      (q : JobQueue) (k : ℕ) (local : List ℕ) (phase : Phase)
      → get k q.workers ≡ some (record { local = local; phase = phase })
      → 0 < running phase
      → (q' : JobQueue) × Step spawns q q'
  busy-Step q k l idle at h = absurd (omega (arith, h))
  busy-Step q k l (working []) at h = (_, returns q k l at)
  busy-Step q k l (working (job ∷ rest)) at h = (_, counts q k job l rest at)
  busy-Step q k l (pushing job rest) at h = (_, pushes q k job l rest at)
  busy-Step q k l exited at h = absurd (omega (arith, h))
  busy-Step q k l panicked at h = absurd (omega (arith, h))

module _ (spawns : ℕ → List ℕ) (jobs : List ℕ) (worker_count : ℕ) where
  Reachable-UniqueKeys :
      {q : JobQueue} → Reachable spawns jobs worker_count q → UniqueKeys q.workers
  unfolding spawn_workers
  Reachable-UniqueKeys starts = idle_workers-UniqueKeys worker_count
  Reachable-UniqueKeys (steps r s) = Step-UniqueKeys spawns s (Reachable-UniqueKeys r)

  -- an idle worker with an empty queue finds a job in the injector or at another worker
  search-Step :
      (q : JobQueue) (k : ℕ)
      → UniqueKeys q.workers
      → get k q.workers ≡ some (record { local = []; phase = idle })
      → (injector : List ℕ) → q.injector ≡ injector
      → 0 < length injector + total load q.workers
      → (q' : JobQueue) × Step spawns q q'
  search-Step q k u at (job ∷ rest) front h = (_, takes q k job [] rest at front)
  search-Step q k u at [] front h =
      let (v, w, there, loaded) = total-positive load q.workers u (omega (arith, h)) in
      steal-Step v w.local w.phase there loaded
    where
      steal-Step :
          (v : ℕ) (local : List ℕ) (phase : Phase)
          → get v q.workers ≡ some (record { local = local; phase = phase })
          → 0 < length local + running phase
          → (q' : JobQueue) × Step spawns q q'
      steal-Step v [] phase there loaded =
          busy-Step spawns q v [] phase there (omega (arith, loaded))
      steal-Step v (job ∷ rest) phase there loaded = elim (Bool-cases (v == k)) [
        | inl same ↦ absurd (not-same job rest k v q.workers phase at there same)
        | inr other ↦ (_, steals q k v job [] rest phase other at there)
      ]

  -- In every reachable state of the queue that has jobs in flight and a worker that has not
  -- panicked, some worker can take a step.
  pub active-Step :
      (q : JobQueue) (k : ℕ) (local : List ℕ) (phase : Phase)
      → Reachable spawns jobs worker_count q
      → 0 < q.in_flight
      → get k q.workers ≡ some (record { local = local; phase = phase })
      → (phase ≡ panicked → ⊥)
      → (q' : JobQueue) × Step spawns q q'
  active-Step q k (job ∷ rest) idle r h at lives = (_, pops q k job rest at)
  active-Step q k [] idle r h at lives =
      let c = Reachable-IsCounted spawns jobs worker_count r in
      search-Step q k (Reachable-UniqueKeys r) at q.injector refl (omega (arith, c.in_flight, h))
  active-Step q k local (working rest) r h at lives =
      busy-Step spawns q k local (working rest) at (omega arith)
  active-Step q k local (pushing job rest) r h at lives =
      busy-Step spawns q k local (pushing job rest) at (omega arith)
  active-Step q k local exited r h at lives =
      let c = Reachable-IsCounted spawns jobs worker_count r in
      let gone : Worker = record { local = local; phase = exited } in
      absurd (omega (arith, h, c.left (omega (arith, total-ge is_exited k gone q.workers at))))
  active-Step q k local panicked r h at lives = absurd (lives refl)
