-- ===== src/Resolution/Remaining.antt =====
-- `handle_remaining_definitions` of rust/rubydex/src/resolution.rs: methods, attributes, variables,
-- aliases and visibilities, which need an owner that has been resolved.
pub mod Growing
use rubydex.Base
use rubydex.Base.{
  ℕ, Bool, true, false, not, ◌&&◌, ◌||◌, Option, none, some, List, [], ◌∷◌, ◌++◌, Checked, done,
  panic, unwrap, if◌then◌else◌, ◌==◌, debug_assert,
}
use rubydex.Base.Map.{get, adjust, is_some}
use rubydex.Model.Ids.{Text, codes, Hash}
use rubydex.Model.Source.{
  Diagnostic, undefined_constant_visibility_target, undefined_method_visibility_target,
}
use rubydex.Model.Document
use rubydex.Model.Name.{NameRef}
use rubydex.Model.Definition.{
  Definition, Receiver, self_receiver, constant_receiver, MethodDefinition, VariableDefinition,
  ConstantVisibilityDefinition, MethodVisibilityDefinition, MethodAliasDefinition,
}
use rubydex.Model.Declaration.{
  Ancestor, Declaration, Namespace, NamespaceDeclaration, as_namespace, inner, base_of, new_simple,
  update_base, ancestor_list,
}
use rubydex.Graph.{Graph, WorkUnit}
use rubydex.Graph.Declarations.{add_declaration, add_member}
use rubydex.Graph.Lookup.{object_id, namespace_at, definition_id_to_declaration_id}
use rubydex.Graph.Names.{push_work, extend_work}
use rubydex.Resolution.{Action, pure, reads, changes, updates, ◌>>=◌, ◌>>◌, case_option, for_all}
use rubydex.Resolution.Chains.{resolve_to_namespace}
use rubydex.Resolution.Singleton.{create_singleton_class, expect}
use rubydex.Resolution.Linearize.{ancestors_of, is_singleton}
use rubydex.Resolution.Declare.{text_of, declaration_name}
use rubydex.Resolution.Owners.{
  create_declaration, resolve_class_variable_owner, resolve_constant_receiver,
}
use rubydex.Resolution.Eager.{
  eager_singleton_class, with_owner, declare_method, lexical_owner, self_declaration,
}
use rubydex.Resolution.Variables.{handle_instance_variable, handle_global_variable}
use rubydex.Resolution.Visibilities.{handle_constant_visibility, resolve_method_visibilities}

module _ (xxh3_64 : Hash) (fuel : ℕ) where
  -- the owner of a method or of a variable of a method, by the receiver
  method_owner : ℕ → Option ℕ → Option Receiver → Action (Option ℕ)
  method_owner id nesting none = lexical_owner xxh3_64 fuel id nesting
  method_owner id nesting (some (self_receiver def_id)) = reads (λ g. panic)
  method_owner id nesting (some (constant_receiver name_id)) = do
    receiver ← changes (resolve_constant_receiver name_id id)
    case_option receiver (pure none) (eager_singleton_class xxh3_64 fuel)

  alias_owner : ℕ → Option ℕ → Option Receiver → Action (Option ℕ)
  alias_owner id nesting none = lexical_owner xxh3_64 fuel id nesting
  alias_owner id nesting (some (self_receiver def_id)) = do
    declaration ← self_declaration xxh3_64 fuel def_id
    d ← expect declaration
    eager_singleton_class xxh3_64 fuel d
  alias_owner id nesting (some (constant_receiver name_id)) =
      changes (resolve_constant_receiver name_id id)

  -- one definition; whether it is a method visibility, which comes later
  pub handle_remaining : ℕ → Definition → Action (Unit {0})
  handle_remaining id (Definition.method m) =
      with_owner (method_owner id m.base.lexical_nesting_id m.receiver)
        (declare_method xxh3_64 fuel id m.str_id)
  handle_remaining id (Definition.attr_accessor d) =
      with_owner (lexical_owner xxh3_64 fuel id d.base.lexical_nesting_id)
        (declare_method xxh3_64 fuel id d.str_id)
  handle_remaining id (Definition.attr_reader d) =
      with_owner (lexical_owner xxh3_64 fuel id d.base.lexical_nesting_id)
        (declare_method xxh3_64 fuel id d.str_id)
  handle_remaining id (Definition.attr_writer d) =
      with_owner (lexical_owner xxh3_64 fuel id d.base.lexical_nesting_id)
        (declare_method xxh3_64 fuel id d.str_id)
  handle_remaining id (Definition.global_variable d) =
      handle_global_variable xxh3_64 fuel id d.str_id
  handle_remaining id (Definition.instance_variable d) =
      handle_instance_variable xxh3_64 fuel id d.str_id d.base.lexical_nesting_id
  handle_remaining id (Definition.class_variable d) =
      with_owner (reads (resolve_class_variable_owner xxh3_64 d.base.lexical_nesting_id))
        λ owner_id.
          create_declaration xxh3_64 d.str_id id owner_id
            λ name. Declaration.class_variable (new_simple name owner_id)
  handle_remaining id (Definition.method_alias d) =
      with_owner (alias_owner id d.base.lexical_nesting_id d.receiver)
        (declare_method xxh3_64 fuel id d.new_name_str_id)
  handle_remaining id (Definition.global_variable_alias d) =
      create_declaration xxh3_64 d.new_name_str_id id (object_id xxh3_64)
        λ name. Declaration.global_variable (new_simple name (object_id xxh3_64))
  handle_remaining id (Definition.constant_visibility v) =
      handle_constant_visibility xxh3_64 fuel id v
  handle_remaining id (Definition.method_visibility v) = pure tt
  handle_remaining id _ = reads (λ g. panic)

  handle_one : ℕ → Action (Unit {0})
  handle_one id = do d ← reads (λ g. unwrap (get id g.definitions)); handle_remaining id d

  is_method_visibility : Definition → Bool
  is_method_visibility (Definition.method_visibility v) = true
  is_method_visibility _ = false

  -- the ids of the method visibilities, in order
  method_visibility_ids : List ℕ → Graph → Checked (List ℕ)
  method_visibility_ids [] g = done []
  method_visibility_ids (id ∷ ids) g = Base.◌>>=◌ (unwrap (get id g.definitions)) λ d.
      Base.◌>>=◌ (method_visibility_ids ids g)
        λ rest. done (if is_method_visibility d then id ∷ rest else rest)

  unfoldable pub handle_remaining_definitions : List ℕ → Action (Unit {0})
  unfolding method_owner alias_owner handle_one is_method_visibility method_visibility_ids
      handle_remaining
  handle_remaining_definitions other_ids = do
    for_all handle_one other_ids
    ids ← reads (method_visibility_ids other_ids)
    resolve_method_visibilities xxh3_64 fuel ids
