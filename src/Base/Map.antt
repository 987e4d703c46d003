-- ===== src/Base/Map.antt =====
-- `IdentityHashMap` (rust/rubydex/src/model/identity_maps.rs): a hash map keyed by 64-bit ids, as
-- an association list. Its order stands for the order in which the hash map is iterated.
use Prim.Native.Nat.{ℕ}
use mathlib.Core.Path.{◌≡◌, refl}
use mathlib.Core.Bool.{Bool, true, false}
use mathlib.Core.Option
use mathlib.Core.Option.{Option, none, some}
use mathlib.Core.List.{List, [], ◌∷◌, ◌++◌, map}
use native.Mathlib.Omega.{arith}
use rubydex.Base.Tests.{◌==◌, if◌then◌else◌}

abbrev pub Map {ℓ} : Type ℓ → Type ℓ
Map V = List (ℕ × V)

module _ {ℓ} {V : Type ℓ} where
  unfoldable pub get : ℕ → Map V → Option V
  get k [] = none
  get k ((j, v) ∷ m) = if j == k then some v else get k m

  unfoldable pub insert : ℕ → V → Map V → Map V
  insert k v [] = (k, v) ∷ []
  insert k v ((j, w) ∷ m) = if j == k then (k, v) ∷ m else (j, w) ∷ insert k v m

  unfoldable pub remove : ℕ → Map V → Map V
  remove k [] = []
  remove k ((j, v) ∷ m) = let rest = remove k m in if j == k then rest else (j, v) ∷ rest

  -- a write through `get_mut`
  unfoldable pub adjust : ℕ → (V → V) → Map V → Map V
  adjust k f [] = []
  adjust k f ((j, v) ∷ m) = if j == k then (j, f v) ∷ m else (j, v) ∷ adjust k f m

  abbrev pub is_some : Option V → Bool
  is_some none = false
  is_some (some v) = true

  abbrev pub contains_key : ℕ → Map V → Bool
  contains_key k m = is_some (get k m)

  abbrev pub keys : Map V → List ℕ
  keys = map (λ e. e.0)

  abbrev pub values : Map V → List V
  values = map (λ e. e.1)

  pub get-insert :
      (k j : ℕ) (v : V) (m : Map V) → get j (insert k v m) ≡ (if k == j then some v else get j m)
  unfolding get insert
  get-insert k j v [] = refl
  get-insert k j v ((i, w) ∷ m) = ground (arith, get-insert k j v m)

  pub get-remove : (k j : ℕ) (m : Map V) → get j (remove k m) ≡ (if k == j then none else get j m)
  unfolding get remove
  get-remove k j [] = ground arith
  get-remove k j ((i, w) ∷ m) = ground (arith, get-remove k j m)

  pub get-adjust :
      (k j : ℕ) (f : V → V) (m : Map V)
      → get j (adjust k f m) ≡ (if k == j then Option.map f (get j m) else get j m)
  unfolding get adjust
  get-adjust k j f [] = ground arith
  get-adjust k j f ((i, w) ∷ m) = ground (arith, get-adjust k j f m)

-- A hash map holds a key once.
abbrev pub UniqueKeys {ℓ} : {V : Type ℓ} → Map V → Type ℓ
UniqueKeys [] = Unit
UniqueKeys ((k, v) ∷ m) = (get k m ≡ none) × UniqueKeys m

pub ruleset map_laws = (get-insert, get-remove, get-adjust)

module _ {ℓ} {A : Type ℓ} where
  -- `m.entry(k).or_default()`, read
  abbrev pub get_or_default : ℕ → Map (List A) → List A
  get_or_default k m = elim (get k m) [ none ↦ [] | some l ↦ l ]

  -- `m.entry(k).or_default().push(x)`
  unfoldable pub push_at : ℕ → A → Map (List A) → Map (List A)
  push_at k x m = insert k (get_or_default k m ++ x ∷ []) m

  pub get_or_default-push_at :
      (k j : ℕ) (x : A) (m : Map (List A))
      → get_or_default j (push_at k x m)
        ≡ (if k == j then get_or_default j m ++ x ∷ [] else get_or_default j m)
  unfolding push_at
  get_or_default-push_at k j x m = ground (arith, get-insert k j (get_or_default k m ++ x ∷ []) m)
