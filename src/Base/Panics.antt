-- ===== src/Base/Panics.antt =====
-- Code that may panic: `done` is a normal return, `panic` any panic. The arithmetic checks and
-- the `debug_assert!`s of a debug build are panics too. A loop that is given fuel and uses it up
-- ends in `out_of_fuel`; the theorems on such a loop say when that cannot be.
use mathlib.Core.Path.{◌≡◌, refl}
use mathlib.Core.Bool.{Bool, true, false}
use mathlib.Core.List.{List, [], ◌∷◌}
use mathlib.Core.Option.{Option, none, some}

pub data Checked {ℓ} (A : Type ℓ) : Type ℓ where
  done : A → Checked A
  panic out_of_fuel : Checked A

infixl 5 ◌>>=◌ ◌>>◌
abbrev pub ◌>>=◌ {ℓ κ} : {A : Type ℓ} {B : Type κ} → Checked A → (A → Checked B) → Checked B
done a >>= f = f a
panic >>= f = panic
out_of_fuel >>= f = out_of_fuel

abbrev pub ◌>>◌ {ℓ} : {B : Type ℓ} → Checked (Unit {0}) → Checked B → Checked B
m >> k = m >>= λ _. k

-- `Option::unwrap`, `Option::expect`
abbrev pub unwrap {ℓ} : {A : Type ℓ} → Option A → Checked A
unwrap none = panic
unwrap (some a) = done a

-- `debug_assert!`
abbrev pub debug_assert : Bool → Checked (Unit {0})
debug_assert true = done tt
debug_assert false = panic

-- Inversion of a normal return.
pub >>=-eq-done {ℓ κ} :
    {A : Type ℓ} {B : Type κ} (m : Checked A) (f : A → Checked B) {b : B}
    → (m >>= f) ≡ done b
    → (a : A) × (m ≡ done a) × (f a ≡ done b)
>>=-eq-done (done a) f h = (a, refl, h)
>>=-eq-done panic f h = cc
>>=-eq-done out_of_fuel f h = cc

pub >>=-done {ℓ} : {A : Type ℓ} (m : Checked A) → (m >>= λ a. done a) ≡ m
>>=-done (done a) = refl
>>=-done panic = refl
>>=-done out_of_fuel = refl

pub >>=_assoc {ℓ κ μ} :
    {A : Type ℓ} {B : Type κ} {C : Type μ} (m : Checked A) (f : A → Checked B) (k : B → Checked C)
    → ((m >>= f) >>= k) ≡ (m >>= λ a. f a >>= k)
>>=_assoc (done a) f k = refl
>>=_assoc panic f k = refl
>>=_assoc out_of_fuel f k = refl

module _ {ℓ κ} {A : Type ℓ} {S : Type κ} where
  -- a `for` loop over the list, on the state of the code around it
  unfoldable pub for_each : (A → S → Checked S) → List A → S → Checked S
  for_each f [] s = done s
  for_each f (a ∷ xs) s = f a s >>= for_each f xs

-- what is returned, if anything is, satisfies the predicate
abbrev pub Ensures {ℓ κ} : {A : Type ℓ} → (A → Type κ) → Checked A → Type κ
Ensures P (done a) = P a
Ensures P _ = Unit

pub Ensures->>= {ℓ κ μ ν} :
    {A : Type ℓ} {B : Type κ} (P : A → Type μ) (Q : B → Type ν) (m : Checked A) (f : A → Checked B)
    → Ensures P m
    → ((a : A) → P a → Ensures Q (f a))
    → Ensures Q (m >>= f)
Ensures->>= P Q (done a) f h next = next a h
Ensures->>= P Q panic f h next = tt
Ensures->>= P Q out_of_fuel f h next = tt

pub Ensures-read {ℓ κ ν} :
    {A : Type ℓ} {B : Type κ} (Q : B → Type ν) (m : Checked A) (f : A → Checked B)
    → ((a : A) → Ensures Q (f a))
    → Ensures Q (m >>= f)
Ensures-read Q (done a) f next = next a
Ensures-read Q panic f next = tt
Ensures-read Q out_of_fuel f next = tt

pub Ensures-map {ℓ κ ν} :
    {A : Type ℓ} (P : A → Type κ) (Q : A → Type ν) (m : Checked A)
    → Ensures P m
    → ((a : A) → P a → Q a)
    → Ensures Q m
Ensures-map P Q (done a) h next = next a h
Ensures-map P Q panic h next = tt
Ensures-map P Q out_of_fuel h next = tt

pub Ensures-all {ℓ ν} :
    {A : Type ℓ} (Q : A → Type ν) (m : Checked A) → ((a : A) → Q a) → Ensures Q m
Ensures-all Q (done a) h = h a
Ensures-all Q panic h = tt
Ensures-all Q out_of_fuel h = tt

pub Ensures-both {ℓ κ ν} :
    {A : Type ℓ} (P : A → Type κ) (Q : A → Type ν) (m : Checked A)
    → Ensures P m
    → Ensures Q m
    → Ensures (λ a. P a × Q a) m
Ensures-both P Q (done a) h k = (h, k)
Ensures-both P Q panic h k = tt
Ensures-both P Q out_of_fuel h k = tt
