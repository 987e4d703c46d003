-- ===== src/Graph/Declarations.antt =====
-- The methods of rust/rubydex/src/model/graph.rs that create, promote and extend declarations.
pub mod Add
use rubydex.Base.{
  ℕ, Bool, true, false, ◌&&◌, Option, none, some, List, [], ◌∷◌, Checked, done, panic, out_of_fuel,
  ◌>>=◌, ◌>>◌, debug_assert, unwrap, if◌then◌else◌, zero, suc,
}
use rubydex.Base.Map.{Map, get, insert, remove, is_some}
use rubydex.Model.Ids.{Text, text_eq, Hash, id_from}
use rubydex.Model.Definition.{Definition}
use rubydex.Model.Declaration
use rubydex.Model.Declaration.{
  Declaration, Namespace, namespace, base_of, as_namespace, definitions, update,
}
use rubydex.Graph.{Graph}

unfoldable pub is_namespace : Graph → ℕ → Bool
is_namespace g id = elim (get id g.declarations) [
  | none ↦ false
  | some d ↦ is_some (as_namespace d)
]

-- `matches!(.., Some(Class | Module | SingletonClass))`
unfoldable pub is_namespace_definition : Graph → ℕ → Bool
is_namespace_definition g id = elim (get id g.definitions) [
  | some (Definition.class d) ↦ true
  | some (Definition.module_definition d) ↦ true
  | some (Definition.singleton_class d) ↦ true
  | _ ↦ false
]

unfoldable pub is_promotable_definition : Graph → ℕ → Bool
is_promotable_definition g id = elim (get id g.definitions) [
  | some (Definition.constant d) ↦ d.base.flags.promotable
  | _ ↦ true
]

all_promotable : Graph → List ℕ → Bool
all_promotable g [] = true
all_promotable g (id ∷ ids) = is_promotable_definition g id && all_promotable g ids

unfoldable pub all_definitions_promotable : Graph → Declaration → Bool
unfolding all_promotable
all_definitions_promotable g d = all_promotable g (definitions d)

unfoldable pub is_promotable_declaration : Graph → Declaration → Bool
is_promotable_declaration g (Declaration.constant d) =
    all_definitions_promotable g (Declaration.constant d)
is_promotable_declaration g (Declaration.namespace (Namespace.todo d)) = true
is_promotable_declaration g _ = false

-- `new.as_namespace_mut().unwrap().extend(old)`
unfoldable pub absorb : Declaration → Declaration → Checked Declaration
absorb old new = do
  n ← unwrap (as_namespace new)
  n' ← Declaration.extend old n
  done (namespace n')

-- the declaration that is there, or the namespace that takes its place
unfoldable pub promote_if : Bool → Declaration → Declaration → Checked Declaration
promote_if true existing new = absorb existing new
promote_if false existing new = done existing

-- the declaration that `add_declaration` stores
unfoldable pub declare :
    Graph → ℕ → Text → (Text → Declaration) → Option Declaration → Checked Declaration
declare g definition_id name constructor none =
    Declaration.add_definition definition_id (constructor name)
declare g definition_id name constructor (some existing) = do
  debug_assert (text_eq (base_of existing).name name)
  let should_promote =
      is_namespace_definition g definition_id && is_promotable_declaration g existing
  kept ← promote_if should_promote existing (constructor name)
  Declaration.add_definition definition_id kept

unfoldable pub add_declaration :
    Hash → ℕ → Text → (Text → Declaration) → Graph → Checked (Graph × ℕ)
add_declaration xxh3_64 definition_id name constructor g = do
  let id = id_from xxh3_64 name
  d ← declare g definition_id name constructor (get id g.declarations)
  done (record g { declarations = insert id d g.declarations }, id)

unfoldable pub promote_constant_to_namespace : ℕ → (Text → ℕ → Declaration) → Graph → Checked Graph
promote_constant_to_namespace id constructor g = do
  old ← unwrap (get id g.declarations)
  new ← absorb old (constructor (base_of old).name (base_of old).owner_id)
  done (record g { declarations = insert id new (remove id g.declarations) })

unfoldable pub with_member : ℕ → ℕ → Declaration → Checked Declaration
with_member str_id member_id (Declaration.namespace n) =
    done (namespace (update (λ d. record d { members = insert str_id member_id d.members }) n))
with_member str_id member_id (Declaration.constant d) = done (Declaration.constant d)
with_member str_id member_id _ = panic

unfoldable pub add_member : ℕ → ℕ → ℕ → Graph → Checked Graph
add_member owner_id member_id str_id g = elim (get owner_id g.declarations) [
  | none ↦ done g
  | some d ↦ do
    d' ← with_member str_id member_id d
    done (record g { declarations = insert owner_id d' g.declarations })
]

unfoldable pub record_resolved_reference : ℕ → ℕ → Graph → Checked Graph
record_resolved_reference reference_id declaration_id g = do
  d ← unwrap (get declaration_id g.declarations)
  d' ← Declaration.add_constant_reference reference_id d
  done (record g { declarations = insert declaration_id d' g.declarations })

-- the loop of `attached_object`, up the owners of singleton classes
unfoldable pub attached_object_loop : ℕ → Graph → Namespace → Checked Namespace
attached_object_loop zero g n = out_of_fuel
attached_object_loop (suc fuel) g (Namespace.singleton_class d) =
    elim (get d.base.owner_id g.declarations) [
      | some (Declaration.namespace n) ↦ attached_object_loop fuel g n
      | _ ↦ panic
    ]
attached_object_loop (suc fuel) g n = done n
