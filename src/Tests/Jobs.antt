-- ===== src/Tests/Jobs.antt =====
-- A run of the job queue: one worker takes the only job, which pushes no other, and leaves.
use rubydex.Base.{arith, some, ℕ, [], ◌∷◌, List, ◌≡◌, refl, count}
use rubydex.Base.Map.{get, Map}
use rubydex.JobQueue
use rubydex.JobQueue.{
  JobQueue, Worker, idle, working, exited, new, push_all, spawn_workers, take_job, Reachable, Step,
  starts, steps, takes, returns, exits,
}
use rubydex.JobQueue.Finished.{exited-Finished}
use rubydex.JobQueue.Measure.{running}
use rubydex.JobQueue.Progress.{active-Step}

abbrev spawns : ℕ → List ℕ
spawns job = []

abbrev finished : JobQueue
finished = record {
  injector = [];
  in_flight = 0;
  workers = (0, record { local = []; phase = exited }) ∷ [];
  pushed = 7 ∷ [];
  taken = 7 ∷ [];
}

abbrev started : JobQueue
started = spawn_workers 1 (push_all (7 ∷ []) new)

abbrev at_work : JobQueue
at_work = record (take_job spawns 0 7 [] started) { injector = [] }

abbrev returned : JobQueue
returned = record at_work { in_flight = 0; workers = (0, record { local = []; phase = idle }) ∷ [] }

finished-Reachable : Reachable spawns (7 ∷ []) 1 finished
unfolding spawn_workers push_all new get JobQueue.idle_workers JobQueue.push rubydex.Base.Map.insert
finished-Reachable =
    steps {q = returned}
      (steps {q = at_work} (steps starts (takes started 0 7 [] [] refl refl))
        (returns at_work 0 [] refl))
      (exits returned 0 refl refl)

exited-Finished_example :
    (finished.injector ≡ [])
    × ((v : ℕ) (w : Worker)
        → get v finished.workers ≡ some w
        → (w.local ≡ []) × (running w.phase ≡ 0))
    × ((job : ℕ) → count job finished.pushed ≡ count job finished.taken)
unfolding get
exited-Finished_example = exited-Finished spawns (7 ∷ []) 1 finished 0 [] finished-Reachable refl

active-Step_example : (q' : JobQueue) × Step spawns started q'
unfolding spawn_workers push_all new get JobQueue.idle_workers JobQueue.push
active-Step_example =
    active-Step spawns (7 ∷ []) 1 started 0 [] idle starts (omega arith) refl (λ e. cc)
