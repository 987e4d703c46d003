-- ===== src/Resolution/Variables.antt =====
-- Instance and global variables, of rust/rubydex/src/resolution.rs.
pub mod Growing
use rubydex.Base
use rubydex.Base.{
  ℕ, Bool, true, false, not, ◌&&◌, ◌||◌, Option, none, some, List, [], ◌∷◌, ◌++◌, Checked, done,
  panic, unwrap, if◌then◌else◌, ◌==◌, debug_assert,
}
use rubydex.Base.Map.{get, adjust, is_some}
use rubydex.Model.Ids.{Text, codes, Hash}
use rubydex.Model.Source.{
  Diagnostic, undefined_constant_visibility_target, undefined_method_visibility_target,
}
use rubydex.Model.Document
use rubydex.Model.Name.{NameRef}
use rubydex.Model.Definition.{
  Definition, Receiver, self_receiver, constant_receiver, MethodDefinition, VariableDefinition,
  ConstantVisibilityDefinition, MethodVisibilityDefinition, MethodAliasDefinition,
}
use rubydex.Model.Declaration.{
  Ancestor, Declaration, Namespace, NamespaceDeclaration, as_namespace, inner, base_of, new_simple,
  update_base, ancestor_list,
}
use rubydex.Graph.{Graph, WorkUnit}
use rubydex.Graph.Declarations.{add_declaration, add_member}
use rubydex.Graph.Lookup.{object_id, namespace_at, definition_id_to_declaration_id}
use rubydex.Graph.Names.{push_work, extend_work}
use rubydex.Resolution.{Action, pure, reads, changes, updates, ◌>>=◌, ◌>>◌, case_option, for_all}
use rubydex.Resolution.Chains.{resolve_to_namespace}
use rubydex.Resolution.Singleton.{create_singleton_class, expect}
use rubydex.Resolution.Linearize.{ancestors_of, is_singleton}
use rubydex.Resolution.Declare.{text_of, declaration_name}
use rubydex.Resolution.Owners.{
  create_declaration, resolve_class_variable_owner, resolve_constant_receiver,
}
use rubydex.Resolution.Eager.{
  eager_singleton_class, with_owner, declare_method, lexical_owner, self_declaration,
}

abbrev instance_variable_named : ℕ → Text → Declaration
instance_variable_named owner_id name = Declaration.instance_variable (new_simple name owner_id)

-- `matches!(.., Some(Declaration::Namespace(Namespace::SingletonClass(_))))`
unfoldable pub is_singleton_class : Graph → ℕ → Bool
is_singleton_class g id = elim (get id g.declarations) [ none ↦ false | some d ↦ is_singleton d ]

module _ (xxh3_64 : Hash) (fuel : ℕ) where
  declare_variable : ℕ → ℕ → ℕ → Action (Unit {0})
  declare_variable id str_id owner_id =
      create_declaration xxh3_64 str_id id owner_id (instance_variable_named owner_id)

  -- a variable of the singleton class
  declare_in_singleton : ℕ → ℕ → ℕ → Action (Unit {0})
  declare_in_singleton id str_id owner_id = do
    checked ← reads (λ g. debug_assert (is_singleton_class g owner_id))
    declare_variable id str_id owner_id

  receiver_declaration : ℕ → Receiver → Action (Option ℕ)
  receiver_declaration id (self_receiver def_id) = do
    declaration ← self_declaration xxh3_64 fuel def_id
    d ← expect declaration
    pure (some d)
  receiver_declaration id (constant_receiver name_id) =
      changes (resolve_constant_receiver name_id id)

  variable_in_method : ℕ → ℕ → MethodDefinition → Action (Unit {0})
  variable_in_method id str_id m =
      case_option m.receiver
        (with_owner (lexical_owner xxh3_64 fuel id m.base.lexical_nesting_id)
          (declare_variable id str_id))
        λ receiver.
          with_owner (receiver_declaration id receiver)
            λ d. with_owner (eager_singleton_class xxh3_64 fuel d) (declare_in_singleton id str_id)

  -- in the body of a class or module
  variable_in_body : ℕ → ℕ → ℕ → Action (Unit {0})
  variable_in_body id str_id nesting_id = do
    declaration ← self_declaration xxh3_64 fuel nesting_id
    with_owner
        (eager_singleton_class xxh3_64 fuel
          (elim declaration [ none ↦ object_id xxh3_64 | some d ↦ d ]))
        (declare_in_singleton id str_id)

  variable_in_singleton : ℕ → ℕ → Option ℕ → Action (Unit {0})
  variable_in_singleton id str_id none = updates (λ g. done (push_work (WorkUnit.definition id) g))
  variable_in_singleton id str_id (some d) = do
    singleton ← eager_singleton_class xxh3_64 fuel d
    owner ← expect singleton
    declare_in_singleton id str_id owner

  -- by what the variable is nested in
  pub instance_variable_in : ℕ → ℕ → ℕ → Definition → Action (Unit {0})
  instance_variable_in id str_id nesting_id (Definition.method m) = variable_in_method id str_id m
  instance_variable_in id str_id nesting_id (Definition.class d) =
      variable_in_body id str_id nesting_id
  instance_variable_in id str_id nesting_id (Definition.module_definition d) =
      variable_in_body id str_id nesting_id
  instance_variable_in id str_id nesting_id (Definition.singleton_class d) = do
    declaration ← self_declaration xxh3_64 fuel nesting_id
    variable_in_singleton id str_id declaration
  instance_variable_in id str_id nesting_id _ = reads (λ g. panic)

  pub handle_instance_variable : ℕ → ℕ → Option ℕ → Action (Unit {0})
  handle_instance_variable id str_id nesting = case_option nesting (pure tt) λ nesting_id. do
    definition ← reads (λ g. done (get nesting_id g.definitions))
    case_option definition (pure tt) (instance_variable_in id str_id nesting_id)

  unfoldable pub handle_global_variable : ℕ → ℕ → Action (Unit {0})
  handle_global_variable id str_id = do
    let owner_id = object_id xxh3_64
    name ← reads (text_of str_id)
    declaration ←
        changes (
          add_declaration xxh3_64 id name
            (λ n. Declaration.global_variable (new_simple n owner_id)))
    updates (add_member owner_id declaration str_id)
