-- ===== src/Base/Lists.antt =====
-- Vectors and identity sets of numbers: the operations of `Vec` and `HashSet` that the crate calls.
use Prim.Native.Nat.{ℕ, suc, ◌+◌}
use mathlib.Core.Path.{◌≡◌, refl}
use mathlib.Core.Bool.{Bool, false, ◌||◌}
use mathlib.Core.List.{List, [], ◌∷◌, ◌++◌}
use native.Mathlib.Omega.{arith}
use rubydex.Base.Tests.{◌==◌, if◌then◌else◌}

module _ {ℓ} {A : Type ℓ} where
  abbrev pub length : List A → ℕ
  length [] = 0
  length (x ∷ xs) = suc (length xs)

  -- every element satisfies the predicate
  abbrev pub All {κ} : (A → Type κ) → List A → Type κ
  All P [] = Unit
  All P (x ∷ xs) = P x × All P xs

  pub length-append : (xs ys : List A) → length (xs ++ ys) ≡ length xs + length ys
  length-append [] ys = omega arith
  length-append (x ∷ xs) ys = omega (arith, length-append xs ys)

module _ {ℓ κ} {A : Type ℓ} {S : Type κ} where
  -- a `for` loop that cannot panic
  unfoldable pub fold : (A → S → S) → List A → S → S
  fold f [] s = s
  fold f (a ∷ xs) s = fold f xs (f a s)

  pub fold-respects {μ} :
      (R : S → S → Type μ)
      → ((s : S) → R s s)
      → ((s t u : S) → R s t → R t u → R s u)
      → (f : A → S → S) → ((a : A) (s : S) → R s (f a s))
      → (xs : List A) (s : S) → R s (fold f xs s)
  unfolding fold
  fold-respects R reflexive transitive f each [] s = reflexive s
  fold-respects R reflexive transitive f each (a ∷ xs) s =
      transitive s (f a s) (fold f xs (f a s)) (each a s)
        (fold-respects R reflexive transitive f each xs (f a s))

-- `slice::contains`, `HashSet::contains`
unfoldable pub contains : List ℕ → ℕ → Bool
contains [] a = false
contains (x ∷ xs) a = x == a || contains xs a

-- the state of a set after `HashSet::insert`
unfoldable pub set_insert : ℕ → List ℕ → List ℕ
set_insert a xs = if contains xs a then xs else a ∷ xs

-- the state of a set after `HashSet::remove`
unfoldable pub set_remove : ℕ → List ℕ → List ℕ
set_remove a [] = []
set_remove a (x ∷ xs) = let rest = set_remove a xs in if x == a then rest else x ∷ rest

-- `set.extend(other)`
unfoldable pub set_extend : List ℕ → List ℕ → List ℕ
set_extend xs [] = xs
set_extend xs (y ∷ ys) = set_extend (set_insert y xs) ys

-- how often a number occurs
unfoldable pub count : ℕ → List ℕ → ℕ
count a [] = 0
count a (x ∷ xs) = (if x == a then 1 else 0) + count a xs

pub contains-append :
    (xs ys : List ℕ) (a : ℕ) → contains (xs ++ ys) a ≡ (contains xs a || contains ys a)
unfolding contains
contains-append [] ys a = refl
contains-append (x ∷ xs) ys a = ground (arith, contains-append xs ys a)

pub contains-set_insert :
    (a b : ℕ) (xs : List ℕ) → contains (set_insert a xs) b ≡ (a == b || contains xs b)
unfolding set_insert contains
contains-set_insert a b xs = ground arith

pub contains-set_remove :
    (a b : ℕ) (xs : List ℕ)
    → contains (set_remove a xs) b ≡ (if a == b then false else contains xs b)
unfolding set_remove contains
contains-set_remove a b [] = ground arith
contains-set_remove a b (x ∷ xs) = ground (arith, contains-set_remove a b xs)

pub contains-set_extend :
    (xs ys : List ℕ) (b : ℕ) → contains (set_extend xs ys) b ≡ (contains xs b || contains ys b)
unfolding set_extend contains
contains-set_extend xs [] b = ground arith
contains-set_extend xs (y ∷ ys) b =
    ground (arith, contains-set_extend (set_insert y xs) ys b, contains-set_insert y b xs)

pub count-append : (a : ℕ) (xs ys : List ℕ) → count a (xs ++ ys) ≡ count a xs + count a ys
unfolding count
count-append a [] ys = omega arith
count-append a (x ∷ xs) ys = omega (arith, count-append a xs ys)
