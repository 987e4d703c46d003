-- ===== src/JobQueue.antt =====
-- rust/rubydex/src/job_queue.rs: workers that take jobs from a shared queue, from their own and from
-- each other's. A job is a number, and `spawns` says which jobs it pushes as it runs. The threads
-- are interleaved step by step, in a sequentially consistent order. The queues of the crate
-- `crossbeam_deque` do what they document: a batch is taken from the front, one of it is returned
-- and the others come into the local queue of the thief.
pub mod Measure
pub mod Finished
pub mod Progress
use rubydex.Base.{
  ℕ, zero, suc, ◌+◌, ◌-◌, Option, none, some, List, [], ◌∷◌, ◌++◌, ◌≡◌, Bool, true, false, length,
  ◌==◌,
}
use rubydex.Base.Map.{Map, get, insert}

-- where a worker stands in its loop, and in the `push`es of the job that it runs
pub data Phase : Type 0 where
  idle : Phase
  -- the job still has to push these
  working : List ℕ → Phase
  -- the job is counted, but not yet in the injector
  pushing : ℕ → List ℕ → Phase
  exited panicked : Phase

pub record Worker : Type 0 where
  pub local : List ℕ
  pub phase : Phase

-- `pushed` and `taken` record what has happened: the jobs pushed, and those taken to be run
pub record JobQueue : Type 0 where
  pub injector : List ℕ
  pub in_flight : ℕ
  pub workers : Map Worker
  pub pushed : List ℕ
  pub taken : List ℕ

unfoldable pub new : JobQueue
new = record { injector = []; in_flight = 0; workers = []; pushed = []; taken = [] }

-- `push` before any worker is started
unfoldable pub push : ℕ → JobQueue → JobQueue
push job q = record q {
  in_flight = q.in_flight + 1;
  injector = q.injector ++ job ∷ [];
  pushed = q.pushed ++ job ∷ [];
}

unfoldable pub push_all : List ℕ → JobQueue → JobQueue
push_all [] q = q
push_all (job ∷ jobs) q = push_all jobs (push job q)

unfoldable pub idle_workers : ℕ → Map Worker
idle_workers zero = []
idle_workers (suc n) = (n, record { local = []; phase = idle }) ∷ idle_workers n

unfoldable pub spawn_workers : ℕ → JobQueue → JobQueue
spawn_workers worker_count q = record q { workers = idle_workers worker_count }

-- the worker takes a job, and has the batch in its own queue
abbrev pub take_job : (ℕ → List ℕ) → ℕ → ℕ → List ℕ → JobQueue → JobQueue
take_job spawns k job batch q = record q {
  workers = insert k (record { local = batch; phase = working (spawns job) }) q.workers;
  taken = q.taken ++ job ∷ [];
}

-- One step of one worker `k`.
pub data Step (spawns : ℕ → List ℕ) : JobQueue → JobQueue → Type 0 where
  -- `local.pop()`
  pops :
      (q : JobQueue) (k job : ℕ) (rest : List ℕ)
      → get k q.workers ≡ some (record { local = job ∷ rest; phase = idle })
      → Step spawns q (take_job spawns k job rest q)
  -- `injector.steal_batch_and_pop(local)`
  takes :
      (q : JobQueue) (k job : ℕ) (batch rest : List ℕ)
      → get k q.workers ≡ some (record { local = []; phase = idle })
      → q.injector ≡ job ∷ batch ++ rest
      → Step spawns q (record (take_job spawns k job batch q) { injector = rest })
  -- `stealer.steal_batch_and_pop(local)`, from the worker `v`, in whatever phase it is
  steals :
      (q : JobQueue) (k v job : ℕ) (batch rest : List ℕ) (phase : Phase)
      → (v == k) ≡ false
      → get k q.workers ≡ some (record { local = []; phase = idle })
      → get v q.workers ≡ some (record { local = job ∷ batch ++ rest; phase = phase })
      → Step spawns q (
          take_job spawns k job batch
            (record q { workers = insert v (record { local = rest; phase = phase }) q.workers }))
  -- `push` in a running job: the count, and then the queue
  counts :
      (q : JobQueue) (k job : ℕ) (local rest : List ℕ)
      → get k q.workers ≡ some (record { local = local; phase = working (job ∷ rest) })
      → Step spawns q (record q {
        in_flight = q.in_flight + 1;
        workers = insert k (record { local = local; phase = pushing job rest }) q.workers;
      })
  pushes :
      (q : JobQueue) (k job : ℕ) (local rest : List ℕ)
      → get k q.workers ≡ some (record { local = local; phase = pushing job rest })
      → Step spawns q (record q {
        injector = q.injector ++ job ∷ [];
        pushed = q.pushed ++ job ∷ [];
        workers = insert k (record { local = local; phase = working rest }) q.workers;
      })
  -- the job returns
  returns :
      (q : JobQueue) (k : ℕ) (local : List ℕ)
      → get k q.workers ≡ some (record { local = local; phase = working [] })
      → Step spawns q (record q {
        in_flight = q.in_flight - 1;
        workers = insert k (record { local = local; phase = idle }) q.workers;
      })
  -- the job panics, and the worker resumes the panic
  panics :
      (q : JobQueue) (k : ℕ) (local rest : List ℕ)
      → get k q.workers ≡ some (record { local = local; phase = working rest })
      → Step spawns q (record q {
        in_flight = q.in_flight - 1;
        workers = insert k (record { local = local; phase = panicked }) q.workers;
      })
  -- no job is found, and none is in flight
  exits :
      (q : JobQueue) (k : ℕ)
      → get k q.workers ≡ some (record { local = []; phase = idle })
      → q.in_flight ≡ 0
      → Step spawns q
          (record q { workers = insert k (record { local = []; phase = exited }) q.workers })

-- `run_with_workers` on a queue with the jobs, after some steps
pub data Reachable (spawns : ℕ → List ℕ) (jobs : List ℕ) (worker_count : ℕ)
    : JobQueue → Type 0 where
  starts : Reachable spawns jobs worker_count (spawn_workers worker_count (push_all jobs new))
  steps :
      {q q' : JobQueue}
      → Reachable spawns jobs worker_count q
      → Step spawns q q'
      → Reachable spawns jobs worker_count q'
