-- ===== src/Model/Declaration.antt =====
-- rust/rubydex/src/model/declaration.rs: what a fully qualified name stands for in the whole
-- program. The macros `namespace_declaration!` and `simple_declaration!` generate one struct for
-- each kind, all with the same fields; here each macro is one record.
pub mod Detach
use rubydex.Base.{
  ℕ, Bool, true, false, Option, none, some, List, [], ◌∷◌, ◌++◌, Checked, done, panic, ◌>>=◌, ◌>>◌,
  ◌&&◌, debug_assert, not, contains, set_insert, set_remove, set_extend, ◌==◌, if◌then◌else◌,
}
use rubydex.Base.Map.{Map, insert}
use rubydex.Model.Ids.{Text}
use rubydex.Model.Source.{Diagnostic}

pub data Ancestor : Type 0 where
  complete partial : ℕ → Ancestor

pub data Ancestors : Type 0 where
  complete cyclic partial : List Ancestor → Ancestors

-- `Ancestors::iter`
abbrev pub ancestor_list : Ancestors → List Ancestor
ancestor_list (Ancestors.complete l) = l
ancestor_list (Ancestors.cyclic l) = l
ancestor_list (Ancestors.partial l) = l

unfoldable pub to_partial : Ancestors → Ancestors
to_partial a = Ancestors.partial (ancestor_list a)

pub record SimpleDeclaration : Type 0 where
  pub name : Text
  pub definition_ids : List ℕ
  pub references : List ℕ
  pub owner_id : ℕ
  pub diagnostics : List Diagnostic

pub record NamespaceDeclaration : Type 0 where
  pub base : SimpleDeclaration
  pub members : Map ℕ
  pub ancestors : Ancestors
  pub descendants : List ℕ
  pub singleton_class_id : Option ℕ

pub data Namespace : Type 0 where
  class singleton_class module_namespace todo : NamespaceDeclaration → Namespace

pub data Declaration : Type 0 where
  namespace : Namespace → Declaration
  constant constant_alias method : SimpleDeclaration → Declaration
  global_variable instance_variable class_variable : SimpleDeclaration → Declaration

-- the macro `all_namespaces!`, for reading and for writing
abbrev pub inner : Namespace → NamespaceDeclaration
inner (class d) = d
inner (singleton_class d) = d
inner (module_namespace d) = d
inner (todo d) = d

abbrev pub update : (NamespaceDeclaration → NamespaceDeclaration) → Namespace → Namespace
update f (class d) = class (f d)
update f (singleton_class d) = singleton_class (f d)
update f (module_namespace d) = module_namespace (f d)
update f (todo d) = todo (f d)

-- the macro `all_declarations!` at the shared fields, for reading and for writing
abbrev pub base_of : Declaration → SimpleDeclaration
base_of (namespace n) = (inner n).base
base_of (constant d) = d
base_of (constant_alias d) = d
base_of (method d) = d
base_of (global_variable d) = d
base_of (instance_variable d) = d
base_of (class_variable d) = d

abbrev pub update_base : (SimpleDeclaration → SimpleDeclaration) → Declaration → Declaration
update_base f (namespace n) = namespace (update (λ d. record d { base = f d.base }) n)
update_base f (constant d) = constant (f d)
update_base f (constant_alias d) = constant_alias (f d)
update_base f (method d) = method (f d)
update_base f (global_variable d) = global_variable (f d)
update_base f (instance_variable d) = instance_variable (f d)
update_base f (class_variable d) = class_variable (f d)

unfoldable pub new_simple : Text → ℕ → SimpleDeclaration
new_simple name owner_id = record {
  name = name;
  definition_ids = [];
  references = [];
  owner_id = owner_id;
  diagnostics = [];
}

unfoldable pub new_namespace : Text → ℕ → NamespaceDeclaration
unfolding new_simple
new_namespace name owner_id = record {
  base = new_simple name owner_id;
  members = [];
  ancestors = Ancestors.partial [];
  descendants = [];
  singleton_class_id = none;
}

abbrev pub as_namespace : Declaration → Option Namespace
as_namespace (namespace n) = some n
as_namespace _ = none

-- a write through `as_namespace_mut`, if there is one
unfoldable pub on_namespace :
    (NamespaceDeclaration → NamespaceDeclaration) → Declaration → Declaration
on_namespace f (namespace n) = namespace (update f n)
on_namespace f d = d

strip_colons : Text → Option Text
strip_colons (a ∷ (b ∷ rest)) = if a == 58 && b == 58 then some rest else none
strip_colons _ = none

strip_hash : Text → Option Text
strip_hash (a ∷ rest) = if a == 35 then some rest else none
strip_hash [] = none

-- what is behind the last match of a pattern
after_last : (Text → Option Text) → Text → Option Text
after_last strip [] = strip []
after_last strip (c ∷ text) = elim (after_last strip text) [
  | some rest ↦ some rest
  | none ↦ strip (c ∷ text)
]

unwrap_or : Option Text → Text → Text
unwrap_or none text = text
unwrap_or (some rest) text = rest

unfoldable pub unqualified_name : Declaration → Text
unfolding after_last strip_colons strip_hash unwrap_or
unqualified_name d =
    let name = (base_of d).name in
    let after_colons = unwrap_or (after_last strip_colons name) name in
    unwrap_or (after_last strip_hash after_colons) after_colons

-- `self.members.extend(..)`
unfoldable pub extend_members : Map ℕ → Map ℕ → Map ℕ
extend_members m [] = m
extend_members m ((k, v) ∷ rest) = extend_members (insert k v m) rest

abbrev absorb : NamespaceDeclaration → SimpleDeclaration → NamespaceDeclaration
absorb d o = record d {
  base = record (d.base) {
    definition_ids = d.base.definition_ids ++ o.definition_ids;
    diagnostics = d.base.diagnostics ++ o.diagnostics;
    references = set_extend d.base.references o.references;
  };
}

-- `extend` of a namespace declaration: what it takes over from the declaration that it replaces
unfoldable pub extend_declaration :
    Declaration → NamespaceDeclaration → Checked NamespaceDeclaration
extend_declaration (namespace n) d =
    done (record (absorb d (inner n).base) { members = extend_members d.members (inner n).members })
extend_declaration (constant o) d = done (absorb d o)
extend_declaration (constant_alias o) d = done (absorb d o)
extend_declaration _ d = panic

unfoldable pub extend : Declaration → Namespace → Checked Namespace
extend other (class d) = do d' ← extend_declaration other d; done (class d')
extend other (singleton_class d) = do d' ← extend_declaration other d; done (singleton_class d')
extend other (module_namespace d) = do d' ← extend_declaration other d; done (module_namespace d')
extend other (todo d) = do d' ← extend_declaration other d; done (todo d')

abbrev pub definitions : Declaration → List ℕ
definitions d = (base_of d).definition_ids

unfoldable pub has_no_definitions : Declaration → Bool
has_no_definitions d = elim (definitions d) [ [] ↦ true | x ∷ rest ↦ false ]

unfoldable pub add_definition : ℕ → Declaration → Checked Declaration
add_definition id d = do
  debug_assert (not (contains (definitions d) id))
  done (update_base (λ b. record b { definition_ids = b.definition_ids ++ id ∷ [] }) d)

-- the last element of `x ∷ xs`, and the list without it
unfoldable pub split_last : ℕ → List ℕ → List ℕ × ℕ
split_last x [] = ([], x)
split_last x (y ∷ ys) = let (front, last) = split_last y ys in (x ∷ front, last)

-- `position` and `Vec::swap_remove`: the first occurrence gives its place to the last element
unfoldable pub swap_remove : ℕ → List ℕ → List ℕ
unfolding split_last
swap_remove id [] = []
swap_remove id (x ∷ []) = if x == id then [] else x ∷ []
swap_remove id (x ∷ (y ∷ ys)) =
    let kept = swap_remove id (y ∷ ys) in
    let (front, last) = split_last y ys in if x == id then last ∷ front else x ∷ kept

-- the declaration without the definition, and whether it was there
unfoldable pub remove_definition : ℕ → Declaration → Declaration × Bool
remove_definition id d = (
  update_base (λ b. record b { definition_ids = swap_remove id b.definition_ids }) d,
  contains (definitions d) id,
)

unfoldable pub clear_diagnostics : Declaration → Declaration
clear_diagnostics d = update_base (λ b. record b { diagnostics = [] }) d

-- `constant_references`
unfoldable pub constant_references : Declaration → Option (List ℕ)
constant_references (namespace n) = some (inner n).base.references
constant_references (constant d) = some d.references
constant_references (constant_alias d) = some d.references
constant_references _ = none

abbrev on_references : (List ℕ → List ℕ) → SimpleDeclaration → SimpleDeclaration
on_references f b = record b { references = f b.references }

abbrev on_constant_references : (List ℕ → List ℕ) → Declaration → Checked Declaration
on_constant_references f (namespace n) = done (update_base (on_references f) (namespace n))
on_constant_references f (constant d) = done (constant (on_references f d))
on_constant_references f (constant_alias d) = done (constant_alias (on_references f d))
on_constant_references f _ = panic

unfoldable pub add_constant_reference : ℕ → Declaration → Checked Declaration
add_constant_reference id = on_constant_references (set_insert id)

unfoldable pub remove_constant_reference : ℕ → Declaration → Checked Declaration
remove_constant_reference id = on_constant_references (set_remove id)
