-- ===== src/Base/Unseen.antt =====
-- The measure of loops that mark the keys of a map as seen.
use rubydex.Base.Lists.{contains, set_insert, contains-set_insert}
use Prim.Native.Nat.{ℕ, ◌+◌, ◌≤◌, ◌<◌}
use mathlib.Core.Path.{◌≡◌, refl}
use mathlib.Core.Bool.{true, false}
use mathlib.Core.List.{List, [], ◌∷◌}
use native.Mathlib.Omega.{arith}
use rubydex.Base.Lists.{length}
use mathlib.Core.Option.{some}
use rubydex.Base.Map.{Map, get, contains_key, insert, adjust, remove}
use rubydex.Base.Tests.{if◌then◌else◌}

module _ {ℓ} {V : Type ℓ} where
  -- the entries whose key is not yet in the set
  unfoldable pub unseen : Map V → List ℕ → ℕ
  unseen [] seen = 0
  unseen ((k, v) ∷ m) seen = (if contains seen k then 0 else 1) + unseen m seen

  pub unseen-le-length : (m : Map V) (seen : List ℕ) → unseen m seen ≤ length m
  unfolding unseen
  unseen-le-length [] seen = omega arith
  unseen-le-length ((k, v) ∷ m) seen = ground (arith, unseen-le-length m seen)

  pub unseen-set_insert-le :
      (m : Map V) (seen : List ℕ) (a : ℕ) → unseen m (set_insert a seen) ≤ unseen m seen
  unfolding unseen
  unseen-set_insert-le [] seen a = omega arith
  unseen-set_insert-le ((k, v) ∷ m) seen a =
      ground (arith, unseen-set_insert-le m seen a, contains-set_insert a k seen)

  -- Marking a key that was not marked makes the measure fall.
  pub unseen-set_insert-lt :
      (m : Map V) (seen : List ℕ) (a : ℕ)
      → contains_key a m ≡ true
      → contains seen a ≡ false
      → unseen m (set_insert a seen) < unseen m seen
  unfolding unseen get
  unseen-set_insert-lt [] seen a h new = cc
  unseen-set_insert-lt ((k, v) ∷ m) seen a h new = ground (
    arith,
    unseen-set_insert-lt m seen a,
    unseen-set_insert-le m seen a,
    contains-set_insert a k seen,
  )

  pub unseen-insert :
      (k : ℕ) (v w : V) (m : Map V) (seen : List ℕ)
      → get k m ≡ some v
      → unseen (insert k w m) seen ≡ unseen m seen
  unfolding unseen get insert
  unseen-insert k v w [] seen h = cc
  unseen-insert k v w ((j, u) ∷ m) seen h = ground (arith, h, unseen-insert k v w m seen)

  pub unseen-adjust :
      (k : ℕ) (f : V → V) (m : Map V) (seen : List ℕ) → unseen (adjust k f m) seen ≡ unseen m seen
  unfolding unseen adjust
  unseen-adjust k f [] seen = refl
  unseen-adjust k f ((j, u) ∷ m) seen = ground (arith, unseen-adjust k f m seen)

  pub unseen-remove-le :
      (k : ℕ) (m : Map V) (seen : List ℕ) → unseen (remove k m) seen ≤ unseen m seen
  unfolding unseen remove
  unseen-remove-le k [] seen = omega arith
  unseen-remove-le k ((j, u) ∷ m) seen = ground (arith, unseen-remove-le k m seen)

  -- Removing a key that was not marked makes the measure fall, too.
  pub unseen-remove-lt :
      (k : ℕ) (m : Map V) (seen : List ℕ)
      → contains_key k m ≡ true
      → contains seen k ≡ false
      → unseen (remove k m) seen < unseen m seen
  unfolding unseen remove get
  unseen-remove-lt k [] seen h new = cc
  unseen-remove-lt k ((j, u) ∷ m) seen h new =
      ground (arith, unseen-remove-lt k m seen, unseen-remove-le k m seen)
