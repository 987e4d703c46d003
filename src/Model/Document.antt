-- ===== src/Model/Document.antt =====
-- rust/rubydex/src/model/document.rs. The line index, of the crate `line_index`, is left out.
use rubydex.Base.{ℕ, List, [], ◌∷◌, ◌++◌, not, Checked, done, ◌>>◌, debug_assert, contains}
use rubydex.Model.Ids.{Text}
use rubydex.Model.Source.{Diagnostic}

pub record Document : Type 0 where
  pub uri : Text
  pub definition_ids : List ℕ
  pub method_reference_ids : List ℕ
  pub constant_reference_ids : List ℕ
  pub diagnostics : List Diagnostic

unfoldable pub new : Text → Document
new uri = record {
  uri = uri;
  definition_ids = [];
  method_reference_ids = [];
  constant_reference_ids = [];
  diagnostics = [];
}

unfoldable pub add_definition : ℕ → Document → Checked Document
add_definition id d = do
  debug_assert (not (contains d.definition_ids id))
  done (record d { definition_ids = d.definition_ids ++ id ∷ [] })

unfoldable pub add_method_reference : ℕ → Document → Document
add_method_reference id d = record d { method_reference_ids = d.method_reference_ids ++ id ∷ [] }

unfoldable pub add_constant_reference : ℕ → Document → Document
add_constant_reference id d = record d {
  constant_reference_ids = d.constant_reference_ids ++ id ∷ [];
}

unfoldable pub add_diagnostic : Diagnostic → Document → Document
add_diagnostic diagnostic d = record d { diagnostics = d.diagnostics ++ diagnostic ∷ [] }
