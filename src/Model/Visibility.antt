-- ===== src/Model/Visibility.antt =====
-- rust/rubydex/src/model/visibility.rs
use text.Mathlib.Text.{◌==◌}
use rubydex.Base.{String, Checked, done, panic, if◌then◌else◌}

pub data Visibility : Type 0 where
  is_public is_protected is_private is_module_function : Visibility

unfoldable pub from_string : String → Checked Visibility
from_string str =
    if str == "public"
    then done is_public
    else if str == "protected"
    then done is_protected
    else if str == "private"
    then done is_private
    else if str == "module_function"
    then done is_module_function
    else panic

-- `Display`
unfoldable pub to_string : Visibility → String
to_string is_public = "public"
to_string is_protected = "protected"
to_string is_private = "private"
to_string is_module_function = "module_function"
