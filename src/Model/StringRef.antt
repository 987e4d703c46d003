-- ===== src/Model/StringRef.antt =====
-- rust/rubydex/src/model/string_ref.rs: reference-counted strings. A count is a `u32`.
use rubydex.Base.{
  ℕ, zero, suc, ◌+◌, ◌-◌, ◌^◌, Bool, Checked, done, panic, ◌>>=◌, ltb, if◌then◌else◌,
}
use rubydex.Model.Ids.{Text}

abbrev pub u32_max : ℕ
u32_max = 2 ^ 32 - 1

-- `checked_add(..).expect(..)`
abbrev pub checked_add : ℕ → ℕ → Checked ℕ
checked_add a b = if ltb u32_max (a + b) then panic else done (a + b)

-- `-= 1` on a `u32`
abbrev pub checked_pred : ℕ → Checked ℕ
checked_pred zero = panic
checked_pred (suc n) = done n

pub record StringRef : Type 0 where
  pub value : Text
  pub ref_count : ℕ

unfoldable pub new : Text → StringRef
new value = record { value = value; ref_count = 1 }

unfoldable pub increment_ref_count : ℕ → StringRef → Checked StringRef
increment_ref_count count s = do
  ref_count ← checked_add s.ref_count count
  done (record s { ref_count = ref_count })

-- the string after the decrement, and whether a reference is left
unfoldable pub decrement_ref_count : StringRef → Checked (StringRef × Bool)
decrement_ref_count s = do
  ref_count ← checked_pred s.ref_count
  done (record s { ref_count = ref_count }, ltb 0 ref_count)
