-- ===== src/Graph/Visibility.antt =====
-- `visibility` of rust/rubydex/src/model/graph.rs. A method that has only aliases has the
-- visibility of the method that the latest of them leads to; the fuel counts these steps.
pub mod Ends
pub mod Latest
use rubydex.Base.{
  ℕ, zero, suc, Option, none, some, List, [], ◌∷◌, ◌++◌, Checked, done, out_of_fuel, ◌>>=◌, panic,
}
use mathlib.Core.List.{reverse}
use rubydex.Base.Map.{get}
use rubydex.Model.Ids.{Hash}
use rubydex.Model.Visibility.{Visibility, is_public}
use rubydex.Model.Definition.{Definition}
use rubydex.Model.Declaration.{Declaration, Namespace, SimpleDeclaration, NamespaceDeclaration}
use rubydex.Graph.{Graph}
use rubydex.Query.Ancestors.{ok, err}
use rubydex.Query.MethodAlias.{Followed, follow_method_alias}

-- the first `private_constant` or `public_constant`, in the given order
unfoldable pub constant_visibility_in : Graph → List ℕ → Visibility
constant_visibility_in g [] = is_public
constant_visibility_in g (id ∷ ids) = elim (get id g.definitions) [
  | some (Definition.constant_visibility d) ↦ d.visibility
  | _ ↦ constant_visibility_in g ids
]

-- what one definition of a method says
unfoldable pub definition_visibility : Definition → Option Visibility
definition_visibility (Definition.method_visibility d) = some d.visibility
definition_visibility (Definition.method d) = some d.visibility
definition_visibility (Definition.attr_accessor d) = some d.visibility
definition_visibility (Definition.attr_reader d) = some d.visibility
definition_visibility (Definition.attr_writer d) = some d.visibility
definition_visibility _ = none

first_alias : Option ℕ → ℕ → Definition → Option ℕ
first_alias (some latest) id d = some latest
first_alias none id (Definition.method_alias d) = some id
first_alias none id _ = none

pub data MethodSays : Type 0 where
  says : Visibility → MethodSays
  only_alias : Option ℕ → MethodSays

-- the loop over the definitions of a method, in the given order
unfoldable pub method_visibility_in : Graph → Option ℕ → List ℕ → MethodSays
unfolding first_alias
method_visibility_in g latest [] = only_alias latest
method_visibility_in g latest (id ∷ ids) = elim (get id g.definitions) [
  | none ↦ method_visibility_in g latest ids
  | some d ↦ elim (definition_visibility d) [
    | some v ↦ says v
    | none ↦ method_visibility_in g (first_alias latest id d) ids
  ]
]

after_follow : (ℕ → Checked (Option Visibility)) → Followed → Checked (Option Visibility)
after_follow again (done (ok target)) = again target
after_follow again (done (err e)) = done (some is_public)
after_follow again panic = panic
after_follow again out_of_fuel = out_of_fuel

after_loop :
    Hash → Graph → (ℕ → Checked (Option Visibility)) → MethodSays → Checked (Option Visibility)
unfolding after_follow
after_loop xxh3_64 g again (says v) = done (some v)
after_loop xxh3_64 g again (only_alias none) = done (some is_public)
after_loop xxh3_64 g again (only_alias (some id)) =
    after_follow again (follow_method_alias xxh3_64 g id)

-- the visibility of a declaration, by its kind
unfoldable pub visibility_of :
    Hash → Graph → (ℕ → Checked (Option Visibility)) → Declaration → Checked (Option Visibility)
unfolding after_loop
visibility_of xxh3_64 g again (Declaration.namespace (Namespace.class d)) =
    done (some (constant_visibility_in g (reverse d.base.definition_ids)))
visibility_of xxh3_64 g again (Declaration.namespace (Namespace.module_namespace d)) =
    done (some (constant_visibility_in g (reverse d.base.definition_ids)))
visibility_of xxh3_64 g again (Declaration.namespace (Namespace.todo d)) =
    done (some (constant_visibility_in g (reverse d.base.definition_ids)))
visibility_of xxh3_64 g again (Declaration.constant d) =
    done (some (constant_visibility_in g (reverse d.definition_ids)))
visibility_of xxh3_64 g again (Declaration.constant_alias d) =
    done (some (constant_visibility_in g (reverse d.definition_ids)))
visibility_of xxh3_64 g again (Declaration.method d) =
    after_loop xxh3_64 g again (method_visibility_in g none (reverse d.definition_ids))
visibility_of xxh3_64 g again _ = done none

unfoldable pub visibility : Hash → Graph → ℕ → ℕ → Checked (Option Visibility)
visibility xxh3_64 g zero declaration_id = out_of_fuel
visibility xxh3_64 g (suc fuel) declaration_id = elim (get declaration_id g.declarations) [
  | none ↦ done none
  | some d ↦ visibility_of xxh3_64 g (visibility xxh3_64 g fuel) d
]
