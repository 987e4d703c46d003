-- ===== src/JobQueue/Finished.antt =====
-- What the count of jobs in flight says: a worker leaves its loop only when all is done.
use rubydex.Base.{
  ℕ, zero, suc, ◌+◌, some, List, [], ◌∷◌, ◌++◌, ◌≡◌, ◌<◌, refl, ap, arith, length, length-append,
  count, count-append,
}
use rubydex.Base.Map.{get, insert, get-insert}
use rubydex.JobQueue.{
  idle, working, pushing, exited, panicked, Worker, JobQueue, new, push, push_all, idle_workers,
  spawn_workers, Step, pops, takes, steals, counts, pushes, returns, panics, exits, Reachable,
  starts, steps,
}
use rubydex.JobQueue.Measure.{
  length-zero, count-le-length, total-insert, total-ge, total-le, total, running, load, is_exited,
  held,
}

-- The count is that of the jobs in all queues and at all workers; no job is lost or taken twice;
-- and once a worker has left, none is in flight.
pub record IsCounted (q : JobQueue) : Type 0 where
  pub in_flight : q.in_flight ≡ length q.injector + total load q.workers
  pub jobs :
      (job : ℕ)
      → count job q.pushed ≡ count job q.taken + count job q.injector + total (held job) q.workers
  pub left : 0 < total is_exited q.workers → q.in_flight ≡ 0

module _ (spawns : ℕ → List ℕ) where
  Step-IsCounted : {q q' : JobQueue} → Step spawns q q' → IsCounted q → IsCounted q'
  unfolding count
  Step-IsCounted (pops q k job rest at) c =
      let old : Worker = record { local = job ∷ rest; phase = idle } in
      let w : Worker = record { local = rest; phase = working (spawns job) } in
      let holds = total-ge load k old q.workers at in
      record {
        in_flight = omega (arith, c.in_flight, holds, total-insert load k w old q.workers at);
        jobs = λ j. ground (
          arith,
          c.jobs j,
          total-insert (held j) k w old q.workers at,
          count-append j q.taken (job ∷ []),
        );
        left = λ e.
            let none_left =
              c.left (omega (arith, e, total-insert is_exited k w old q.workers at)) in
            omega (arith, none_left, c.in_flight, holds);
      }
  Step-IsCounted (takes q k job batch rest at front) c =
      let old : Worker = record { local = []; phase = idle } in
      let w : Worker = record { local = batch; phase = working (spawns job) } in
      let all : length q.injector ≡ suc (length (batch ++ rest)) = ap length front in
      record {
        in_flight = omega (
          arith,
          c.in_flight,
          all,
          length-append batch rest,
          total-insert load k w old q.workers at,
        );
        jobs = λ j.
            let split : count j q.injector ≡ count j (job ∷ batch ++ rest) = ap (count j) front in
            ground (
              arith,
              c.jobs j,
              split,
              total-insert (held j) k w old q.workers at,
              count-append j q.taken (job ∷ []),
              count-append j batch rest,
            );
        left = λ e. c.left (omega (arith, e, total-insert is_exited k w old q.workers at));
      }
  Step-IsCounted (steals q k v job batch rest phase other at there) c =
      let old : Worker = record { local = []; phase = idle } in
      let w : Worker = record { local = batch; phase = working (spawns job) } in
      let victim : Worker = record { local = job ∷ batch ++ rest; phase = phase } in
      let robbed : Worker = record { local = rest; phase = phase } in
      let mid = insert v robbed q.workers in
      let at' : get k mid ≡ some old = ground (arith, get-insert v k robbed q.workers, other, at) in
      record {
        in_flight = omega (
          arith,
          c.in_flight,
          length-append batch rest,
          total-insert load v robbed victim q.workers there,
          total-insert load k w old mid at',
        );
        jobs = λ j. ground (
          arith,
          c.jobs j,
          total-insert (held j) v robbed victim q.workers there,
          total-insert (held j) k w old mid at',
          count-append j q.taken (job ∷ []),
          count-append j batch rest,
        );
        left = λ e. c.left (
            omega (
              arith,
              e,
              total-insert is_exited v robbed victim q.workers there,
              total-insert is_exited k w old mid at',
            ));
      }
  Step-IsCounted (counts q k job local rest at) c =
      let old : Worker = record { local = local; phase = working (job ∷ rest) } in
      let w : Worker = record { local = local; phase = pushing job rest } in
      let holds = total-ge load k old q.workers at in
      record {
        in_flight = omega (arith, c.in_flight, holds, total-insert load k w old q.workers at);
        jobs = λ j. ground (arith, c.jobs j, total-insert (held j) k w old q.workers at);
        left = λ e.
            let none_left =
              c.left (omega (arith, e, total-insert is_exited k w old q.workers at)) in
            omega (arith, none_left, c.in_flight, holds);
      }
  Step-IsCounted (pushes q k job local rest at) c =
      let old : Worker = record { local = local; phase = pushing job rest } in
      let w : Worker = record { local = local; phase = working rest } in
      let holds = total-ge load k old q.workers at in
      record {
        in_flight = omega (
          arith,
          c.in_flight,
          holds,
          total-insert load k w old q.workers at,
          length-append q.injector (job ∷ []),
        );
        jobs = λ j. ground (
          arith,
          c.jobs j,
          total-insert (held j) k w old q.workers at,
          count-append j q.injector (job ∷ []),
          count-append j q.pushed (job ∷ []),
        );
        left = λ e.
            let none_left =
              c.left (omega (arith, e, total-insert is_exited k w old q.workers at)) in
            omega (arith, none_left, c.in_flight, holds);
      }
  Step-IsCounted (returns q k local at) c =
      let old : Worker = record { local = local; phase = working [] } in
      let w : Worker = record { local = local; phase = idle } in
      let holds = total-ge load k old q.workers at in
      record {
        in_flight = omega (arith, c.in_flight, holds, total-insert load k w old q.workers at);
        jobs = λ j. ground (arith, c.jobs j, total-insert (held j) k w old q.workers at);
        left = λ e.
            let none_left =
              c.left (omega (arith, e, total-insert is_exited k w old q.workers at)) in
            omega (arith, none_left, c.in_flight, holds);
      }
  Step-IsCounted (panics q k local rest at) c =
      let old : Worker = record { local = local; phase = working rest } in
      let w : Worker = record { local = local; phase = panicked } in
      let holds = total-ge load k old q.workers at in
      record {
        in_flight = omega (arith, c.in_flight, holds, total-insert load k w old q.workers at);
        jobs = λ j. ground (arith, c.jobs j, total-insert (held j) k w old q.workers at);
        left = λ e.
            let none_left =
              c.left (omega (arith, e, total-insert is_exited k w old q.workers at)) in
            omega (arith, none_left, c.in_flight, holds);
      }
  Step-IsCounted (exits q k at none_left) c =
      let old : Worker = record { local = []; phase = idle } in
      let w : Worker = record { local = []; phase = exited } in
      record {
        in_flight = omega (arith, c.in_flight, total-insert load k w old q.workers at);
        jobs = λ j. ground (arith, c.jobs j, total-insert (held j) k w old q.workers at);
        left = λ e. none_left;
      }

idle_workers-total :
    (f : Worker → ℕ) (n : ℕ)
    → f (record { local = []; phase = idle }) ≡ 0
    → total f (idle_workers n) ≡ 0
unfolding total idle_workers
idle_workers-total f zero h = refl
idle_workers-total f (suc n) h = omega (arith, h, idle_workers-total f n h)

-- pushing from outside counts each job
push_all-IsCounted :
    (jobs : List ℕ) (q : JobQueue)
    → (q.in_flight ≡ length q.injector)
      × ((j : ℕ) → count j q.pushed ≡ count j q.taken + count j q.injector)
    → ((push_all jobs q).in_flight ≡ length (push_all jobs q).injector)
      × ((j : ℕ)
          → count j (push_all jobs q).pushed
            ≡ count j (push_all jobs q).taken + count j (push_all jobs q).injector)
unfolding push_all push
push_all-IsCounted [] q h = h
push_all-IsCounted (job ∷ jobs) q (counted, same) = push_all-IsCounted jobs (push job q) (
  omega (arith, counted, length-append q.injector (job ∷ [])),
  λ j.
      omega
        (arith, same j, count-append j q.pushed (job ∷ []), count-append j q.injector (job ∷ [])),
)

spawn_workers-IsCounted :
    (n : ℕ) (q : JobQueue)
    → (q.in_flight ≡ length q.injector)
      × ((j : ℕ) → count j q.pushed ≡ count j q.taken + count j q.injector)
    → IsCounted (spawn_workers n q)
unfolding spawn_workers count
spawn_workers-IsCounted n q (counted, same) = record {
  in_flight = omega (arith, counted, idle_workers-total load n refl);
  jobs = λ j. omega (arith, same j, idle_workers-total (held j) n refl);
  left = λ e. absurd (omega (arith, e, idle_workers-total is_exited n refl));
}

module _ (spawns : ℕ → List ℕ) (jobs : List ℕ) (worker_count : ℕ) where
  pub Reachable-IsCounted : {q : JobQueue} → Reachable spawns jobs worker_count q → IsCounted q
  unfolding new count
  Reachable-IsCounted starts =
      spawn_workers-IsCounted worker_count (push_all jobs new)
        (push_all-IsCounted jobs new (refl, λ j. refl))
  Reachable-IsCounted (steps r s) = Step-IsCounted spawns s (Reachable-IsCounted r)

  -- In every interleaving of the workers, once one of them has left its loop, no job is left in the
  -- injector or in a queue of a worker, no worker runs a job, and each job has been taken to be run
  -- as often as it was pushed, whether jobs push others, return or panic.
  pub exited-Finished :
      (q : JobQueue) (k : ℕ) (local : List ℕ)
      → Reachable spawns jobs worker_count q
      → get k q.workers ≡ some (record { local = local; phase = exited })
      → (q.injector ≡ [])
        × ((v : ℕ) (w : Worker) → get v q.workers ≡ some w → (w.local ≡ []) × (running w.phase ≡ 0))
        × ((job : ℕ) → count job q.pushed ≡ count job q.taken)
  unfolding count
  exited-Finished q k local r at =
      let c = Reachable-IsCounted r in
      let one : Worker = record { local = local; phase = exited } in
      let none_left = c.left (omega (arith, total-ge is_exited k one q.workers at)) in
      let empty : length q.injector ≡ 0 = omega (arith, c.in_flight, none_left) in
      (
        length-zero q.injector empty,
        λ v w there.
            let unloaded = total-ge load v w q.workers there in
            (
              length-zero w.local (omega (arith, unloaded, c.in_flight, none_left)),
              omega (arith, unloaded, c.in_flight, none_left),
            ),
        λ job. omega (
          arith,
          c.jobs job,
          c.in_flight,
          none_left,
          count-le-length job q.injector,
          total-le (held job) load q.workers (λ w. omega (arith, count-le-length job w.local)),
        ),
      )
