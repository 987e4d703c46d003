-- ===== src/Model/Reference.antt =====
-- rust/rubydex/src/model/references.rs
use Prim.Native.Nat.{ℕ}
use mathlib.Core.Option.{Option}
use mathlib.Core.List.{◌++◌}
use rubydex.Model.Ids.{Text, codes, decimal, Hash, id_from}
use rubydex.Model.Source.{Offset}

pub record ConstantReference : Type 0 where
  pub name_id : ℕ
  pub uri_id : ℕ
  pub offset : Offset

pub record MethodRef : Type 0 where
  pub str : ℕ
  pub uri_id : ℕ
  pub offset : Offset
  pub receiver : Option ℕ

-- the text "{key}:{uri_id}:{start}-{end}"
unfoldable pub reference_text : ℕ → ℕ → Offset → Text
reference_text key uri_id offset =
    decimal key
    ++ (codes ":"
        ++ (decimal uri_id
            ++ (codes ":" ++ (decimal offset.start ++ (codes "-" ++ decimal offset.end)))))

unfoldable pub constant_reference_id : Hash → ConstantReference → ℕ
constant_reference_id xxh3_64 r = id_from xxh3_64 (reference_text r.name_id r.uri_id r.offset)

unfoldable pub method_reference_id : Hash → MethodRef → ℕ
method_reference_id xxh3_64 r = id_from xxh3_64 (reference_text r.str r.uri_id r.offset)
