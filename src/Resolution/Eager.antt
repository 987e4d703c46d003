-- ===== src/Resolution/Eager.antt =====
-- What the handling of the remaining definitions shares, of rust/rubydex/src/resolution.rs.
pub mod Growing
use rubydex.Base
use rubydex.Base.{
  ℕ, Bool, true, false, not, ◌&&◌, ◌||◌, Option, none, some, List, [], ◌∷◌, ◌++◌, Checked, done,
  panic, unwrap, if◌then◌else◌, ◌==◌, debug_assert,
}
use rubydex.Base.Map.{get, adjust, is_some}
use rubydex.Model.Ids.{Text, codes, Hash}
use rubydex.Model.Source.{
  Diagnostic, undefined_constant_visibility_target, undefined_method_visibility_target,
}
use rubydex.Model.Document
use rubydex.Model.Name.{NameRef}
use rubydex.Model.Definition.{
  Definition, Receiver, self_receiver, constant_receiver, MethodDefinition, VariableDefinition,
  ConstantVisibilityDefinition, MethodVisibilityDefinition, MethodAliasDefinition,
}
use rubydex.Model.Declaration.{
  Ancestor, Declaration, Namespace, NamespaceDeclaration, as_namespace, inner, base_of, new_simple,
  update_base, ancestor_list,
}
use rubydex.Graph.{Graph, WorkUnit}
use rubydex.Graph.Declarations.{add_declaration, add_member}
use rubydex.Graph.Lookup.{object_id, namespace_at, definition_id_to_declaration_id}
use rubydex.Graph.Names.{push_work, extend_work}
use rubydex.Resolution.{Action, pure, reads, changes, updates, ◌>>=◌, ◌>>◌, case_option, for_all}
use rubydex.Resolution.Chains.{resolve_to_namespace}
use rubydex.Resolution.Singleton.{create_singleton_class, expect}
use rubydex.Resolution.Linearize.{ancestors_of, is_singleton}
use rubydex.Resolution.Declare.{text_of, declaration_name}
use rubydex.Resolution.Owners.{create_declaration, resolve_lexical_owner}

abbrev method_named : ℕ → Text → Declaration
method_named owner_id name = Declaration.method (new_simple name owner_id)

-- a definition without an owner is left out
pub with_owner : Action (Option ℕ) → (ℕ → Action (Unit {0})) → Action (Unit {0})
with_owner m f = do owner ← m; case_option owner (pure tt) f

module _ (xxh3_64 : Hash) (fuel : ℕ) where
  -- linearizes at once
  pub linearize_now : ℕ → Action (Unit {0})
  linearize_now id = do a ← ancestors_of xxh3_64 fuel id; pure tt

  -- `get_or_create_singleton_class(attached_id, true)`
  pub eager_singleton_class : ℕ → Action (Option ℕ)
  eager_singleton_class attached_id = create_singleton_class xxh3_64 linearize_now attached_id

  pub declare_method : ℕ → ℕ → ℕ → Action (Unit {0})
  declare_method id str_id owner_id =
      create_declaration xxh3_64 str_id id owner_id (method_named owner_id)

  pub lexical_owner : ℕ → Option ℕ → Action (Option ℕ)
  lexical_owner id nesting = changes (resolve_lexical_owner xxh3_64 nesting id)

  pub self_declaration : ℕ → Action (Option ℕ)
  self_declaration def_id = reads (λ g. definition_id_to_declaration_id xxh3_64 g def_id)
