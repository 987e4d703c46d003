-- ===== src/Model/Definition.antt =====
-- rust/rubydex/src/model/definitions.rs: what one place of one document defines.
use Prim.Native.Nat.{ℕ}
use mathlib.Core.Bool.{Bool}
use mathlib.Core.Option.{Option, none, some}
use mathlib.Core.List.{List, [], ◌∷◌, ◌++◌}
use rubydex.Base.{Checked, done, panic}
use rubydex.Model.Ids.{Text, decimal, Hash, id_from}
use rubydex.Model.Source.{Offset, Comment}
use rubydex.Model.Visibility.{Visibility}

pub record DefinitionFlags : Type 0 where
  pub deprecated : Bool
  pub promotable : Bool
  pub singleton_method_visibility : Bool

-- the fields that every definition has
pub record DefinitionBase : Type 0 where
  pub uri_id : ℕ
  pub offset : Offset
  pub flags : DefinitionFlags
  pub comments : List Comment
  pub lexical_nesting_id : Option ℕ

-- each with its constant reference
pub data Mixin : Type 0 where
  includes prepends extends : ℕ → Mixin

pub record ClassDefinition : Type 0 where
  pub base : DefinitionBase
  pub name_id : ℕ
  pub name_offset : Offset
  pub members : List ℕ
  pub superclass_ref : Option ℕ
  pub mixins : List Mixin

pub record SingletonClassDefinition : Type 0 where
  pub base : DefinitionBase
  pub name_id : ℕ
  pub name_offset : Offset
  pub members : List ℕ
  pub mixins : List Mixin

pub record ModuleDefinition : Type 0 where
  pub base : DefinitionBase
  pub name_id : ℕ
  pub name_offset : Offset
  pub members : List ℕ
  pub mixins : List Mixin

pub record ConstantDefinition : Type 0 where
  pub base : DefinitionBase
  pub name_id : ℕ

pub record ConstantAliasDefinition : Type 0 where
  pub alias_constant : ConstantDefinition
  pub target_name_id : ℕ

pub record ConstantVisibilityDefinition : Type 0 where
  pub base : DefinitionBase
  pub receiver : Option ℕ
  pub target : ℕ
  pub visibility : Visibility

pub record MethodVisibilityDefinition : Type 0 where
  pub base : DefinitionBase
  pub str_id : ℕ
  pub visibility : Visibility

pub data Receiver : Type 0 where
  self_receiver constant_receiver : ℕ → Receiver

pub record ParameterStruct : Type 0 where
  pub offset : Offset
  pub str : ℕ

pub data Parameter : Type 0 where
  required_positional optional_positional rest_positional post : ParameterStruct → Parameter
  required_keyword optional_keyword rest_keyword : ParameterStruct → Parameter
  forward block : ParameterStruct → Parameter

pub data Signatures : Type 0 where
  simple : List Parameter → Signatures
  overloaded : List (List Parameter) → Signatures

pub record MethodDefinition : Type 0 where
  pub base : DefinitionBase
  pub str_id : ℕ
  pub signatures : Signatures
  pub visibility : Visibility
  pub receiver : Option Receiver

-- `AttrAccessorDefinition`, `AttrReaderDefinition`, `AttrWriterDefinition`
pub record AttrDefinition : Type 0 where
  pub base : DefinitionBase
  pub str_id : ℕ
  pub visibility : Visibility

-- `GlobalVariableDefinition`, `InstanceVariableDefinition`, `ClassVariableDefinition`
pub record VariableDefinition : Type 0 where
  pub base : DefinitionBase
  pub str_id : ℕ

pub record MethodAliasDefinition : Type 0 where
  pub base : DefinitionBase
  pub new_name_str_id : ℕ
  pub old_name_str_id : ℕ
  pub receiver : Option Receiver

pub record GlobalVariableAliasDefinition : Type 0 where
  pub base : DefinitionBase
  pub new_name_str_id : ℕ
  pub old_name_str_id : ℕ

pub data Definition : Type 0 where
  class : ClassDefinition → Definition
  singleton_class : SingletonClassDefinition → Definition
  module_definition : ModuleDefinition → Definition
  constant : ConstantDefinition → Definition
  constant_alias : ConstantAliasDefinition → Definition
  constant_visibility : ConstantVisibilityDefinition → Definition
  method_visibility : MethodVisibilityDefinition → Definition
  method : MethodDefinition → Definition
  attr_accessor attr_reader attr_writer : AttrDefinition → Definition
  global_variable instance_variable class_variable : VariableDefinition → Definition
  method_alias : MethodAliasDefinition → Definition
  global_variable_alias : GlobalVariableAliasDefinition → Definition

-- the macro `all_definitions!`, at the shared fields
abbrev pub base_of : Definition → DefinitionBase
base_of (class d) = d.base
base_of (singleton_class d) = d.base
base_of (module_definition d) = d.base
base_of (constant d) = d.base
base_of (constant_alias d) = d.alias_constant.base
base_of (constant_visibility d) = d.base
base_of (method_visibility d) = d.base
base_of (method d) = d.base
base_of (attr_accessor d) = d.base
base_of (attr_reader d) = d.base
base_of (attr_writer d) = d.base
base_of (global_variable d) = d.base
base_of (instance_variable d) = d.base
base_of (class_variable d) = d.base
base_of (method_alias d) = d.base
base_of (global_variable_alias d) = d.base

-- `Definition::name_id`
abbrev pub name_id_of : Definition → Option ℕ
name_id_of (class d) = some d.name_id
name_id_of (singleton_class d) = some d.name_id
name_id_of (module_definition d) = some d.name_id
name_id_of (constant d) = some d.name_id
name_id_of (constant_alias d) = some d.alias_constant.name_id
name_id_of _ = none

receiver_text : Option Receiver → Text
receiver_text none = []
receiver_text (some (self_receiver def_id)) = decimal def_id
receiver_text (some (constant_receiver name_id)) = decimal name_id

-- the decimals that follow the URI and the offset in the text that `Definition::id` hashes
unfoldable pub key_text : Definition → Text
unfolding receiver_text
key_text (class d) = decimal d.name_id
key_text (singleton_class d) = decimal d.name_id
key_text (module_definition d) = decimal d.name_id
key_text (constant d) = decimal d.name_id
key_text (constant_alias d) = decimal d.alias_constant.name_id ++ decimal d.target_name_id
key_text (constant_visibility d) = decimal d.target
key_text (method_visibility d) = decimal d.str_id
key_text (method d) = decimal d.str_id ++ receiver_text d.receiver
key_text (attr_accessor d) = decimal d.str_id
key_text (attr_reader d) = decimal d.str_id
key_text (attr_writer d) = decimal d.str_id
key_text (global_variable d) = decimal d.str_id
key_text (instance_variable d) = decimal d.str_id
key_text (class_variable d) = decimal d.str_id
key_text (method_alias d) = decimal d.new_name_str_id ++ decimal d.old_name_str_id
key_text (global_variable_alias d) = decimal d.new_name_str_id ++ decimal d.old_name_str_id

unfoldable pub definition_id : Hash → Definition → ℕ
definition_id xxh3_64 d =
    id_from xxh3_64 (decimal (base_of d).uri_id ++ (decimal (base_of d).offset.start ++ key_text d))

-- `add_member_to_current_owner` and the like of the indexers, from the owner on: one that is no
-- class, singleton class or module is unreachable. The RBS indexer takes classes and modules only.
unfoldable pub add_member : ℕ → Definition → Checked Definition
add_member member_id (class d) = done (class (record d { members = d.members ++ member_id ∷ [] }))
add_member member_id (singleton_class d) =
    done (singleton_class (record d { members = d.members ++ member_id ∷ [] }))
add_member member_id (module_definition d) =
    done (module_definition (record d { members = d.members ++ member_id ∷ [] }))
add_member member_id _ = panic

-- `handle_mixin` of the Ruby indexer, from the definition around the call on: other kinds are left
-- as they are. The RBS indexer, which takes classes and modules only, panics at them.
unfoldable pub add_mixin : Mixin → Definition → Checked Definition
add_mixin mixin (class d) = done (class (record d { mixins = d.mixins ++ mixin ∷ [] }))
add_mixin mixin (singleton_class d) =
    done (singleton_class (record d { mixins = d.mixins ++ mixin ∷ [] }))
add_mixin mixin (module_definition d) =
    done (module_definition (record d { mixins = d.mixins ++ mixin ∷ [] }))
add_mixin mixin d = done d
