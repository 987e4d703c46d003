-- ===== src/Resolution/Singleton.antt =====
-- `get_or_create_singleton_class` and what picks the parent of a class or of a singleton class, of
-- rust/rubydex/src/resolution.rs.
pub mod Growing
pub mod Again
use rubydex.Base
use rubydex.Base.{
  ℕ, zero, suc, ◌+◌, Bool, true, false, not, Option, none, some, List, [], ◌∷◌, ◌++◌, Checked, done,
  panic, out_of_fuel, unwrap, if◌then◌else◌, ◌==◌, length,
}
use rubydex.Base.Map.{get, insert, adjust, is_some}
use rubydex.Model.Ids.{Text, codes, Hash, id_from}
use rubydex.Model.Name.{NameRef}
use rubydex.Model.Definition.{Definition, ClassDefinition}
use rubydex.Model.Declaration.{
  Declaration, Namespace, NamespaceDeclaration, as_namespace, inner, base_of, on_namespace,
  definitions, new_namespace, unqualified_name,
}
use rubydex.Graph.{Graph, WorkUnit}
use rubydex.Graph.Declarations.{all_definitions_promotable, promote_constant_to_namespace}
use rubydex.Graph.Lookup.{object_id}
use rubydex.Resolution.{Action, pure, reads, changes, updates, push_back, ◌>>=◌, ◌>>◌, case_option}
use rubydex.Resolution.Chains.{resolve_to_namespace}

abbrev pub module_declaration : Text → ℕ → Declaration
module_declaration name owner_id =
    Declaration.namespace (Namespace.module_namespace (new_namespace name owner_id))

-- `format!("{}::<{}>", name, unqualified_name)`
unfoldable pub singleton_name : Declaration → Text
singleton_name d = (base_of d).name ++ (codes "::<" ++ (unqualified_name d ++ codes ">"))

-- the singleton class of a namespace as the graph has it, or a new one and its id
unfoldable pub add_singleton : Hash → ℕ → Declaration → NamespaceDeclaration → Graph → Graph × ℕ
add_singleton xxh3_64 attached_id d n g =
    let name = singleton_name d in
    let id = id_from xxh3_64 name in
    let attach = λ (m : NamespaceDeclaration). record m { singleton_class_id = some id } in
    let new = Declaration.namespace (Namespace.singleton_class (new_namespace name attached_id)) in
    (
      record g {
        declarations = insert id new (adjust attached_id (on_namespace attach) g.declarations);
      },
      id,
    )

module _ (xxh3_64 : Hash) (announce : ℕ → Action (Unit {0})) where
  -- the end of `get_or_create_singleton_class`, for a namespace
  unfoldable pub singleton_of_namespace : ℕ → Action (Option ℕ)
  singleton_of_namespace attached_id = do
    d ← reads (λ g. unwrap (get attached_id g.declarations))
    n ← reads (λ g. unwrap (as_namespace d))
    case_option (inner n).singleton_class_id
        (do
          id ← changes (λ g. done (add_singleton xxh3_64 attached_id d (inner n) g))
          announce id
          pure (some id))
        (λ id. pure (some id))

  -- a constant is promoted first, if it can be
  unfoldable pub singleton_of_constant : ℕ → Bool → Action (Option ℕ)
  singleton_of_constant attached_id false = pure none
  singleton_of_constant attached_id true = do
    updates (promote_constant_to_namespace attached_id module_declaration)
    announce attached_id
    singleton_of_namespace attached_id

  -- by what the declaration is; `again` is the recursive call
  unfoldable pub singleton_of : (ℕ → Action (Option ℕ)) → ℕ → Declaration → Action (Option ℕ)
  singleton_of again attached_id (Declaration.constant_alias d) = do
    target ← reads (λ g. resolve_to_namespace g attached_id)
    case_option target (pure none) again
  singleton_of again attached_id (Declaration.constant d) = do
    promotable ← reads (λ g. done (all_definitions_promotable g (Declaration.constant d)))
    singleton_of_constant attached_id promotable
  singleton_of again attached_id _ = singleton_of_namespace attached_id

  unfoldable pub create_loop : ℕ → ℕ → Action (Option ℕ)
  create_loop zero attached_id = reads (λ g. out_of_fuel)
  create_loop (suc fuel) attached_id = do
    d ← reads (λ g. unwrap (get attached_id g.declarations))
    singleton_of (create_loop fuel) attached_id d

  -- An alias leads to a namespace, so there is one recursive call at most. A new namespace is
  -- announced: linearized at once if `eager_ancestors` is set, and queued if not.
  unfoldable pub create_singleton_class : ℕ → Action (Option ℕ)
  create_singleton_class attached_id = create_loop 2 attached_id

unfoldable pub queue_ancestors : ℕ → Action (Unit {0})
queue_ancestors id = push_back (WorkUnit.ancestors id)

-- `get_or_create_singleton_class(attached_id, false)`
unfoldable pub queue_singleton_class : Hash → ℕ → Action (Option ℕ)
queue_singleton_class xxh3_64 attached_id =
    create_singleton_class xxh3_64 queue_ancestors attached_id

-- `.expect(..)`
unfoldable pub expect : {A : Type 0} → Option A → Action A
expect o = reads (λ g. unwrap o)

-- the superclass that one definition names: where it leads to, or the name that is unresolved
superclass : Graph → ℕ → Checked (Option ℕ × Option ℕ)
superclass g reference_id = Base.◌>>=◌ (unwrap (get reference_id g.constant_references)) λ r.
    Base.◌>>=◌ (unwrap (get r.name_id g.names)) (elim [
      | NameRef.resolved n ↦
          Base.◌>>=◌ (resolve_to_namespace g n.declaration_id) (λ parent. done (parent, none))
      | NameRef.unresolved n ↦ done (none, some r.name_id)
    ])

definition_superclass : Graph → Definition → Checked (Option ℕ × Option ℕ)
definition_superclass g (Definition.class d) = elim d.superclass_ref [
  | none ↦ done (none, none)
  | some reference_id ↦ superclass g reference_id
]
definition_superclass g _ = done (none, none)

-- the first of two, and the last of two
abbrev first_of_two : Option ℕ → Option ℕ → Option ℕ
first_of_two none b = b
first_of_two (some a) b = some a

-- the first explicit parent and the last unresolved one
unfoldable pub explicit_parents : Graph → List ℕ → Checked (Option ℕ × Option ℕ)
unfolding definition_superclass superclass
explicit_parents g [] = done (none, none)
explicit_parents g (id ∷ ids) = Base.◌>>=◌ (unwrap (get id g.definitions)) λ d.
    Base.◌>>=◌ (definition_superclass g d) λ (parent, name).
      Base.◌>>=◌ (explicit_parents g ids)
        λ (parents, names). done (first_of_two parent parents, first_of_two names name)

unfoldable pub or_object : Hash → Option ℕ → ℕ
or_object xxh3_64 none = object_id xxh3_64
or_object xxh3_64 (some id) = id

unfoldable pub get_parent_class : Hash → List ℕ → Graph → Checked (ℕ × Option ℕ)
get_parent_class xxh3_64 definition_ids g =
    Base.◌>>=◌ (explicit_parents g definition_ids)
      λ (parent, name). done (or_object xxh3_64 parent, name)

module _ (xxh3_64 : Hash) where
  abbrev pub basic_object_id : ℕ
  basic_object_id = id_from xxh3_64 (codes "BasicObject")

  abbrev pub module_id : ℕ
  module_id = id_from xxh3_64 (codes "Module")

  abbrev pub class_id : ℕ
  class_id = id_from xxh3_64 (codes "Class")

  -- the singleton class of the parent that was picked
  wrap_parent : ℕ × Bool → Action (ℕ × Bool)
  wrap_parent (parent, partial) = do
    singleton ← queue_singleton_class xxh3_64 parent
    id ← expect singleton
    pure (id, partial)

  -- by what is attached; `again` is the recursive call
  unfoldable pub parent_of_attached : (ℕ → Action (ℕ × Bool)) → Declaration → Action (ℕ × Bool)
  unfolding wrap_parent
  parent_of_attached again (Declaration.namespace (Namespace.module_namespace d)) =
      pure (module_id, false)
  parent_of_attached again (Declaration.namespace (Namespace.singleton_class d)) = do
    inner_parent ← again d.base.owner_id
    wrap_parent inner_parent
  parent_of_attached again (Declaration.namespace (Namespace.class d)) = do
    picked ← reads (get_parent_class xxh3_64 d.base.definition_ids)
    wrap_parent (picked.0, is_some picked.1)
  parent_of_attached again _ = pure (class_id, false)

  unfoldable pub parent_loop : ℕ → ℕ → Action (ℕ × Bool)
  parent_loop zero attached_id =
      if attached_id == basic_object_id then pure (class_id, false) else reads (λ g. out_of_fuel)
  parent_loop (suc fuel) attached_id =
      let onward = (do
        d ← reads (λ g. unwrap (get attached_id g.declarations))
        parent_of_attached (parent_loop fuel) d) in
      if attached_id == basic_object_id then pure (class_id, false) else onward

  -- The fuel counts the singleton classes from a singleton class to what it is attached to.
  unfoldable pub singleton_parent_id : ℕ → Action (ℕ × Bool)
  singleton_parent_id attached_id = do
    count ← reads (λ g. done (length g.declarations))
    parent_loop count attached_id
