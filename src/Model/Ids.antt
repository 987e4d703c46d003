-- ===== src/Model/Ids.antt =====
-- Identifiers: rust/rubydex/src/model/id.rs and rust/rubydex/src/model/ids.rs. All ids are 64-bit
-- hashes of a text; the hash function, of the crate `xxhash_rust`, is a parameter. The phantom
-- markers that keep the kinds of ids apart are dropped.
use Prim.Native.Char.{code}
use rubydex.Base.{
  ℕ, zero, suc, ◌+◌, ◌-◌, ◌/◌, ◌%◌, ◌^◌, ◌≡◌, String, List, [], ◌∷◌, arith, ◌==◌, if◌then◌else◌,
  Bool, true, false, ◌&&◌, refl,
}

-- a text, as its characters
abbrev pub Text : Type 0
Text = List ℕ

abbrev pub codes : String → Text
codes String.[] = []
codes (String.◌∷◌ c s) = code c ∷ codes s

-- `==` on texts
unfoldable pub text_eq : Text → Text → Bool
text_eq [] [] = true
text_eq (x ∷ xs) (y ∷ ys) = x == y && text_eq xs ys
text_eq _ _ = false

abbrev pub u64_max : ℕ
u64_max = 2 ^ 64 - 1

unfoldable pub to_non_zero : ℕ → ℕ
to_non_zero value = if value == 0 then u64_max else value

-- `xxh3_64`
abbrev pub Hash : Type 0
Hash = Text → ℕ

-- `Id::from(&str)`
unfoldable pub id_from : Hash → Text → ℕ
unfolding to_non_zero
id_from xxh3_64 text = to_non_zero (xxh3_64 text)

decimal_digits : ℕ → ℕ → Text → Text
decimal_digits zero n acc = acc
decimal_digits (suc f) n acc =
    let digits = (48 + n % 10) ∷ acc in
    let more = decimal_digits f (n / 10) digits in if n / 10 == 0 then digits else more

-- the decimal digits of a 64-bit number, of which there are at most 20
unfoldable pub decimal : ℕ → Text
unfolding decimal_digits
decimal n = decimal_digits 20 n []

pub text_eq_refl : (t : Text) → text_eq t t ≡ true
unfolding text_eq
text_eq_refl [] = refl
text_eq_refl (x ∷ t) = ground (arith, text_eq_refl t)
