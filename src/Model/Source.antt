-- ===== src/Model/Source.antt =====
-- Positions and what is attached to them: rust/rubydex/src/offset.rs,
-- rust/rubydex/src/model/comment.rs and rust/rubydex/src/diagnostic.rs.
use rubydex.Base.{ℕ}
use rubydex.Model.Ids.{Text}

-- a byte range, the end exclusive
pub record Offset : Type 0 where
  pub start : ℕ
  pub end : ℕ

pub record Comment : Type 0 where
  pub offset : Offset
  pub string : Text

pub data Rule : Type 0 where
  parse_error parse_warning : Rule
  dynamic_constant_reference dynamic_singleton_definition dynamic_ancestor : Rule
  top_level_mixin_self invalid_private_constant invalid_method_visibility : Rule
  undefined_method_visibility_target undefined_constant_visibility_target : Rule

pub record Diagnostic : Type 0 where
  pub rule : Rule
  pub uri_id : ℕ
  pub offset : Offset
  pub message : Text
