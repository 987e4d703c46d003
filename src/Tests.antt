-- ===== src/Tests.antt =====
-- A small program, on which the theorems are applied. The modules below have the applications.
mod Locals
mod Graphs
mod Edits
mod Queries
mod Jobs
mod Resolving
mod Scoping
mod Checks
use rubydex.Base.{
  ℕ, ◌+◌, ◌*◌, Bool, true, false, Option, none, some, List, [], ◌∷◌, Checked, done, panic,
  out_of_fuel, String,
}
use rubydex.Base.Map.{Map}
use rubydex.Model.Ids.{Text, codes, Hash}
use rubydex.Model.Source.{Offset}
use rubydex.Model.Visibility.{Visibility, is_public, is_private}
use rubydex.Model.StringRef.{StringRef}
use rubydex.Model.Name.{Name, NameRef, ParentScope, no_parent, parent, unresolved, resolved}
use rubydex.Model.Reference.{ConstantReference, MethodRef}
use rubydex.Model.Definition
use rubydex.Model.Definition.{
  DefinitionFlags, DefinitionBase, ClassDefinition, ConstantDefinition, ConstantAliasDefinition,
  ConstantVisibilityDefinition, MethodDefinition, MethodAliasDefinition, Definition, Signatures,
}
use rubydex.Model.Declaration
use rubydex.Model.Declaration.{
  Ancestor, Ancestors, SimpleDeclaration, NamespaceDeclaration, Namespace, Declaration,
}
use rubydex.Model.Document.{Document}
use rubydex.Model.Dependent.{NameDependent}
use rubydex.Graph.{Graph, WorkUnit, Encoding}

-- a hash function
abbrev pub hash : Hash
hash [] = 5
hash (c ∷ text) = c + 3 * hash text

-- what is returned, or a default
abbrev pub result_of {ℓ} : {A : Type ℓ} → A → Checked A → A
result_of a (done b) = b
result_of a _ = a

abbrev pub nowhere : Offset
nowhere = record { start = 0; end = 4 }

abbrev pub base_in : Option ℕ → DefinitionBase
base_in nesting = record {
  uri_id = 900;
  offset = nowhere;
  flags = record { deprecated = false; promotable = true; singleton_method_visibility = false };
  comments = [];
  lexical_nesting_id = nesting;
}

abbrev pub name_of : ℕ → Option ℕ → Name
name_of str nesting = record {
  str = str;
  parent_scope = no_parent;
  nesting = nesting;
  ref_count = 1;
}

abbrev pub resolved_to : ℕ → ℕ → NameRef
resolved_to str id = resolved (record { name = name_of str none; declaration_id = id })

abbrev pub simple : String → List ℕ → ℕ → SimpleDeclaration
simple name ids owner = record {
  name = codes name;
  definition_ids = ids;
  references = [];
  owner_id = owner;
  diagnostics = [];
}

abbrev pub class_named : String → List ℕ → Map ℕ → List Ancestor → Namespace
class_named name ids members ancestors = Namespace.class (record {
  base = simple name ids 1;
  members = members;
  ancestors = Ancestors.complete ancestors;
  descendants = [];
  singleton_class_id = none;
})

abbrev pub method_named : ℕ → Option ℕ → Definition
method_named str nesting = Definition.method (record {
  base = base_in nesting;
  str_id = str;
  signatures = Signatures.simple [];
  visibility = is_private;
  receiver = none;
})

abbrev pub class_definition : ℕ → Option ℕ → Definition
class_definition name_id nesting = Definition.class (record {
  base = base_in nesting;
  name_id = name_id;
  name_offset = nowhere;
  members = [];
  superclass_ref = none;
  mixins = [];
})

abbrev pub alias_to : ℕ → ℕ → Definition
alias_to name_id target = Definition.constant_alias (record {
  alias_constant = record { base = base_in none; name_id = name_id };
  target_name_id = target;
})

abbrev pub empty_graph : Graph
empty_graph = record {
  declarations = [];
  documents = [];
  definitions = [];
  strings = [];
  names = [];
  constant_references = [];
  method_references = [];
  position_encoding = Encoding.utf8;
  name_dependents = [];
  pending_work = [];
  excluded_paths = [];
}

abbrev pub private_visibility : ConstantVisibilityDefinition
private_visibility = record {
  base = base_in none;
  receiver = none;
  target = 13;
  visibility = is_private;
}

-- `class A; def m; end; alias k m; end`, `X = Y`, `Y = A`, and a private constant `P`
abbrev pub world : Graph
world = record empty_graph {
  declarations =
      (
        1,
        Declaration.namespace (
            class_named "A" (101 ∷ []) ((10, 5) ∷ (12, 7) ∷ [])
              (Ancestor.complete 1 ∷ Ancestor.partial 299 ∷ Ancestor.complete 2 ∷ [])),
      )
      ∷ (2, Declaration.namespace (class_named "Base" [] ((11, 6) ∷ []) (Ancestor.complete 2 ∷ [])))
      ∷ (3, Declaration.constant_alias (simple "X" (103 ∷ []) 1))
      ∷ (4, Declaration.constant_alias (simple "Y" (104 ∷ []) 1))
      ∷ (5, Declaration.method (simple "A#m" (105 ∷ []) 1))
      ∷ (6, Declaration.method (simple "Base#n" (106 ∷ []) 2))
      ∷ (7, Declaration.method (simple "A#k" (107 ∷ []) 1))
      ∷ (8, Declaration.constant (simple "P" (109 ∷ 108 ∷ []) 1))
      ∷ [];
  definitions =
      (101, class_definition 201 none)
      ∷ (103, alias_to 202 203)
      ∷ (104, alias_to 203 201)
      ∷ (105, method_named 10 (some 101))
      ∷ (106, method_named 11 (some 102))
      ∷ (
        107,
        Definition.method_alias (record {
          base = base_in (some 101);
          new_name_str_id = 12;
          old_name_str_id = 10;
          receiver = none;
        }),
      )
      ∷ (108, Definition.constant_visibility private_visibility)
      ∷ (109, Definition.constant (record { base = base_in none; name_id = 208 }))
      ∷ [];
  names =
      (201, resolved_to 14 1)
      ∷ (202, resolved_to 15 3)
      ∷ (203, resolved_to 16 4)
      ∷ (208, unresolved (name_of 13 none))
      ∷ [];
}
