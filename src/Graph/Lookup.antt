-- ===== src/Graph/Lookup.antt =====
-- The methods of rust/rubydex/src/model/graph.rs that lead from a definition to its declaration.
-- A walk up the nesting of definitions has as much fuel as the graph has definitions.
pub mod Enclosing
pub mod Total
use rubydex.Base.{
  ℕ, zero, suc, ◌+◌, Bool, true, false, Option, none, some, List, [], ◌∷◌, Checked, done, panic,
  out_of_fuel, ◌>>=◌, unwrap, length, if◌then◌else◌,
}
use rubydex.Base.Map.{get}
use rubydex.Model.Ids.{codes, Hash, id_from}
use rubydex.Model.Definition.{
  Definition, MethodVisibilityDefinition, Receiver, base_of, name_id_of, self_receiver,
  constant_receiver,
}
use rubydex.Model.Declaration.{Declaration, Namespace, NamespaceDeclaration, as_namespace, inner}
use rubydex.Graph.{Graph}
use rubydex.Graph.Names.{name_id_to_declaration_id}

-- `built_in::OBJECT_ID`
unfoldable pub object_id : Hash → ℕ
object_id xxh3_64 = id_from xxh3_64 (codes "Object")

-- the loop of `find_enclosing_namespace_name_id`
unfoldable pub enclosing_loop : ℕ → Graph → Option ℕ → Checked (Option ℕ)
enclosing_loop zero g none = done none
enclosing_loop zero g (some id) = out_of_fuel
enclosing_loop (suc fuel) g none = done none
enclosing_loop (suc fuel) g (some id) = elim (get id g.definitions) [
  | none ↦ panic
  | some d ↦ elim (name_id_of d) [
    | some name ↦ done (some name)
    | none ↦ enclosing_loop fuel g (base_of d).lexical_nesting_id
  ]
]

unfoldable pub find_enclosing_namespace_name_id : Graph → Option ℕ → Checked (Option ℕ)
find_enclosing_namespace_name_id g starting = enclosing_loop (length g.definitions) g starting

-- the namespace that a declaration id stands for
unfoldable pub namespace_at : Graph → ℕ → Option NamespaceDeclaration
namespace_at g id = elim (get id g.declarations) [
  | some (Declaration.namespace n) ↦ some (inner n)
  | _ ↦ none
]

-- the declaration of the enclosing name, or `Object` at the top level
unfoldable pub nesting_declaration : Hash → Graph → Option ℕ → Option ℕ
nesting_declaration xxh3_64 g none = some (object_id xxh3_64)
nesting_declaration xxh3_64 g (some name) = name_id_to_declaration_id g name

member_at : Graph → Option ℕ → ℕ → Option ℕ
member_at g none str_id = none
member_at g (some id) str_id = elim (namespace_at g id) [
  | none ↦ none
  | some n ↦ get str_id n.members
]

singleton_at : Graph → Option ℕ → Option ℕ
singleton_at g none = none
singleton_at g (some id) = elim (namespace_at g id) [ none ↦ none | some n ↦ n.singleton_class_id ]

unfoldable pub find_singleton_method_visibility_declaration :
    Hash → Graph → MethodVisibilityDefinition → Checked (Option ℕ)
unfolding member_at singleton_at
find_singleton_method_visibility_declaration xxh3_64 g d = do
  name ← find_enclosing_namespace_name_id g d.base.lexical_nesting_id
  done (member_at g (singleton_at g (nesting_declaration xxh3_64 g name)) d.str_id)

-- the member, by way of the singleton class of the owner
singleton_member : Graph → ℕ → Option ℕ → Checked (Option ℕ)
singleton_member g str_id none = done none
singleton_member g str_id (some owner) = do
  n ← unwrap (namespace_at g owner)
  elim n.singleton_class_id [
    | none ↦ done none
    | some id ↦ do s ← unwrap (namespace_at g id); done (get str_id s.members)
  ]

-- `find_self_receiver_declaration`, over the lookup of a definition's declaration
unfoldable pub find_self_receiver_declaration :
    Graph → (ℕ → Checked (Option ℕ)) → ℕ → ℕ → Checked (Option ℕ)
unfolding singleton_member
find_self_receiver_declaration g lookup def_id str_id = do
  owner ← lookup def_id
  singleton_member g str_id owner

module _ (xxh3_64 : Hash) (g : Graph) where
  -- the member of the namespace with the name
  unfoldable pub find_member_declaration : ℕ → Option ℕ → Checked (Option ℕ)
  unfolding member_at
  find_member_declaration str_id name =
      done (member_at g (nesting_declaration xxh3_64 g name) str_id)

  -- the same, of the namespace around the definition
  unfoldable pub find_nested_declaration : ℕ → Option ℕ → Checked (Option ℕ)
  find_nested_declaration str_id nesting = do
    name ← find_enclosing_namespace_name_id g nesting
    find_member_declaration str_id name

  method_declaration :
      (ℕ → Checked (Option ℕ)) → ℕ → Option ℕ → Option Receiver → Checked (Option ℕ)
  method_declaration lookup str_id nesting (some (self_receiver def_id)) =
      find_self_receiver_declaration g lookup def_id str_id
  method_declaration lookup str_id nesting _ = find_nested_declaration str_id nesting

  alias_declaration : (ℕ → Checked (Option ℕ)) → ℕ → Option ℕ → Option Receiver → Checked (Option ℕ)
  alias_declaration lookup str_id nesting (some (self_receiver def_id)) =
      find_self_receiver_declaration g lookup def_id str_id
  alias_declaration lookup str_id nesting (some (constant_receiver name)) =
      find_member_declaration str_id (some name)
  alias_declaration lookup str_id nesting none = find_nested_declaration str_id nesting

  visibility_declaration : ℕ → Option ℕ → Option ℕ → Checked (Option ℕ)
  visibility_declaration str_id nesting (some receiver) =
      find_member_declaration str_id (some receiver)
  visibility_declaration str_id nesting none = find_nested_declaration str_id nesting

  unfoldable pub definition_to_declaration_id :
      (ℕ → Checked (Option ℕ)) → Definition → Checked (Option ℕ)
  unfolding method_declaration alias_declaration visibility_declaration
  definition_to_declaration_id lookup (Definition.class d) =
      done (name_id_to_declaration_id g d.name_id)
  definition_to_declaration_id lookup (Definition.singleton_class d) =
      done (name_id_to_declaration_id g d.name_id)
  definition_to_declaration_id lookup (Definition.module_definition d) =
      done (name_id_to_declaration_id g d.name_id)
  definition_to_declaration_id lookup (Definition.constant d) =
      done (name_id_to_declaration_id g d.name_id)
  definition_to_declaration_id lookup (Definition.constant_alias d) =
      done (name_id_to_declaration_id g d.alias_constant.name_id)
  definition_to_declaration_id lookup (Definition.constant_visibility d) =
      visibility_declaration d.target d.base.lexical_nesting_id d.receiver
  definition_to_declaration_id lookup (Definition.method_visibility d) =
      if d.base.flags.singleton_method_visibility
      then find_singleton_method_visibility_declaration xxh3_64 g d
      else find_nested_declaration d.str_id d.base.lexical_nesting_id
  definition_to_declaration_id lookup (Definition.method d) =
      method_declaration lookup d.str_id d.base.lexical_nesting_id d.receiver
  definition_to_declaration_id lookup (Definition.attr_accessor d) =
      find_nested_declaration d.str_id d.base.lexical_nesting_id
  definition_to_declaration_id lookup (Definition.attr_reader d) =
      find_nested_declaration d.str_id d.base.lexical_nesting_id
  definition_to_declaration_id lookup (Definition.attr_writer d) =
      find_nested_declaration d.str_id d.base.lexical_nesting_id
  definition_to_declaration_id lookup (Definition.global_variable d) =
      find_nested_declaration d.str_id d.base.lexical_nesting_id
  definition_to_declaration_id lookup (Definition.instance_variable d) =
      find_nested_declaration d.str_id d.base.lexical_nesting_id
  definition_to_declaration_id lookup (Definition.class_variable d) =
      find_nested_declaration d.str_id d.base.lexical_nesting_id
  definition_to_declaration_id lookup (Definition.method_alias d) =
      alias_declaration lookup d.new_name_str_id d.base.lexical_nesting_id d.receiver
  definition_to_declaration_id lookup (Definition.global_variable_alias d) =
      find_nested_declaration d.new_name_str_id d.base.lexical_nesting_id

  -- the fuel counts the self receivers on the way
  unfoldable pub declaration_loop : ℕ → ℕ → Checked (Option ℕ)
  declaration_loop zero id = out_of_fuel
  declaration_loop (suc fuel) id = elim (get id g.definitions) [
    | none ↦ panic
    | some d ↦ definition_to_declaration_id (declaration_loop fuel) d
  ]

  unfoldable pub definition_id_to_declaration_id : ℕ → Checked (Option ℕ)
  definition_id_to_declaration_id id = declaration_loop (length g.definitions) id
