-- ===== src/JobQueue/Measure.antt =====
-- Sums over the workers of a job queue.
use rubydex.Base.{ℕ, ◌+◌, ◌≤◌, some, List, [], ◌∷◌, ◌≡◌, refl, arith, length, count}
use rubydex.Base.Map.{Map, get, insert}
use rubydex.JobQueue.{Phase, working, pushing, exited, Worker}

pub length-zero {ℓ} : {A : Type ℓ} (xs : List A) → length xs ≡ 0 → xs ≡ []
length-zero [] h = refl
length-zero (x ∷ xs) h = absurd (omega (arith, h))

pub count-le-length : (a : ℕ) (xs : List ℕ) → count a xs ≤ length xs
unfolding count
count-le-length a [] = omega arith
count-le-length a (x ∷ xs) = ground (arith, count-le-length a xs)

-- the sum of a measure over all workers
unfoldable pub total : (Worker → ℕ) → Map Worker → ℕ
total f [] = 0
total f ((k, w) ∷ m) = f w + total f m

pub total-insert :
    (f : Worker → ℕ) (k : ℕ) (w old : Worker) (m : Map Worker)
    → get k m ≡ some old
    → total f (insert k w m) + f old ≡ total f m + f w
unfolding total get insert
total-insert f k w old [] h = cc
total-insert f k w old ((j, v) ∷ m) h = ground (arith, h, total-insert f k w old m)

pub total-ge :
    (f : Worker → ℕ) (k : ℕ) (w : Worker) (m : Map Worker) → get k m ≡ some w → f w ≤ total f m
unfolding total get
total-ge f k w [] h = cc
total-ge f k w ((j, v) ∷ m) h = ground (arith, h, total-ge f k w m)

pub total-le :
    (f g : Worker → ℕ) (m : Map Worker) → ((w : Worker) → f w ≤ g w) → total f m ≤ total g m
unfolding total
total-le f g [] h = omega arith
total-le f g ((k, w) ∷ m) h = omega (arith, h w, total-le f g m h)

-- the jobs that a worker holds outside of its queue: the one that it runs, the one that it counted
abbrev pub running : Phase → ℕ
running (working rest) = 1
running (pushing job rest) = 2
running _ = 0

abbrev pub load : Worker → ℕ
load w = length w.local + running w.phase

abbrev pub is_exited : Worker → ℕ
is_exited w = elim w.phase [ exited ↦ 1 | _ ↦ 0 ]

abbrev pub held : ℕ → Worker → ℕ
held job w = count job w.local
