-- ===== src/Resolution/Linearize.antt =====
-- The linearization of ancestors of rust/rubydex/src/resolution.rs. The recursion of
-- `linearize_ancestors` takes fuel; what a call does with its recursive calls is in
-- `linearize_step`, and the parts of it above.
pub mod Growing
use rubydex.Base
use rubydex.Base.{
  ℕ, zero, suc, ◌+◌, Bool, true, false, not, ◌&&◌, ◌||◌, Option, none, some, List, [], ◌∷◌, ◌++◌,
  Checked, done, panic, out_of_fuel, unwrap, if◌then◌else◌, ◌==◌, contains, set_insert,
}
use rubydex.Base.Map.{Map, get, adjust}
use rubydex.Model.Ids.{Hash}
use rubydex.Model.Name.{NameRef}
use rubydex.Model.Definition.{Definition, Mixin, includes, prepends, extends}
use rubydex.Model.Declaration.{
  Ancestor, Ancestors, Declaration, Namespace, NamespaceDeclaration, as_namespace, inner, base_of,
  on_namespace, definitions, ancestor_list, to_partial,
}
use rubydex.Graph.{Graph}
use rubydex.Graph.Lookup.{object_id}
use rubydex.Resolution.{
  LinearizationContext, new_context, finalize, Action, pure, reads, updates, ◌>>=◌, ◌>>◌,
  case_option,
}
use rubydex.Resolution.Chains.{resolve_to_namespace}
use rubydex.Resolution.Mixins.{add_prepended, add_included}
use rubydex.Resolution.Singleton.{
  queue_singleton_class, get_parent_class, singleton_parent_id, basic_object_id,
}

-- a write through `get_mut(..).unwrap().as_namespace_mut().unwrap()`
unfoldable pub on_namespace_at :
    ℕ → (NamespaceDeclaration → NamespaceDeclaration) → Graph → Checked Graph
on_namespace_at id f g = Base.◌>>=◌ (unwrap (get id g.declarations)) λ d.
    Base.◌>>=◌ (unwrap (as_namespace d))
      λ n. done (record g { declarations = adjust id (on_namespace f) g.declarations })

abbrev pub with_ancestors : Ancestors → NamespaceDeclaration → NamespaceDeclaration
with_ancestors a n = record n { ancestors = a }

abbrev pub with_descendant : ℕ → NamespaceDeclaration → NamespaceDeclaration
with_descendant id n = record n { descendants = set_insert id n.descendants }

unfoldable pub has_complete_ancestors : Ancestors → Bool
has_complete_ancestors (Ancestors.complete l) = true
has_complete_ancestors (Ancestors.cyclic l) = true
has_complete_ancestors (Ancestors.partial l) = false

-- the loop that tracks descendants
unfoldable pub add_descendants : ℕ → List ℕ → Graph → Checked Graph
add_descendants id [] g = done g
add_descendants id (d ∷ ds) g =
    Base.◌>>=◌ (on_namespace_at id (with_descendant d) g) (add_descendants id ds)

unfoldable pub propagate_descendants : List ℕ → List Ancestor → Graph → Checked Graph
propagate_descendants ds [] g = done g
propagate_descendants ds (Ancestor.partial name ∷ l) g = propagate_descendants ds l g
propagate_descendants ds (Ancestor.complete id ∷ l) g =
    Base.◌>>=◌ (add_descendants id ds g) (propagate_descendants ds l)

-- what the result of a recursive call says of the whole
unfoldable pub note : Ancestors → LinearizationContext → LinearizationContext
note (Ancestors.complete l) c = c
note (Ancestors.cyclic l) c = record c { cyclic = true }
note (Ancestors.partial l) c = record c { partial = true }

-- `mixins_of`
mixins_of_definition : Definition → List Mixin
mixins_of_definition (Definition.class d) = d.mixins
mixins_of_definition (Definition.singleton_class d) = d.mixins
mixins_of_definition (Definition.module_definition d) = d.mixins
mixins_of_definition _ = []

-- the mixins of all definitions
unfoldable pub all_mixins : List ℕ → Graph → Checked (List Mixin)
unfolding mixins_of_definition
all_mixins [] g = done []
all_mixins (id ∷ ids) g =
    Base.◌>>=◌ (unwrap (get id g.definitions))
      λ d. Base.◌>>=◌ (all_mixins ids g) λ rest. done (mixins_of_definition d ++ rest)

unfoldable pub only_extends : List Mixin → List Mixin
only_extends [] = []
only_extends (extends r ∷ l) = extends r ∷ only_extends l
only_extends (_ ∷ l) = only_extends l

unfoldable pub except_extends : List Mixin → List Mixin
except_extends [] = []
except_extends (extends r ∷ l) = except_extends l
except_extends (m ∷ l) = m ∷ except_extends l

unfoldable pub has_extends : List Mixin → Bool
has_extends [] = false
has_extends (extends r ∷ l) = true
has_extends (_ ∷ l) = has_extends l

unfoldable pub mixin_reference : Mixin → ℕ
mixin_reference (includes r) = r
mixin_reference (prepends r) = r
mixin_reference (extends r) = r

-- the state of the loop over the mixins
pub record Mixed : Type 0 where
  pub prepended : List Ancestor
  pub included : List Ancestor
  pub context : LinearizationContext

-- the chain of a resolved mixin joins
unfoldable pub join : Option (List Ancestor) → Mixin → List Ancestor → Mixed → Mixed
join parents (prepends r) ids m = record m { prepended = add_prepended ids m.prepended }
join parents _ ids m = record m { included = add_included ids m.prepended parents m.included }

-- the name of an unresolved one joins
unfoldable pub join_partial : Mixin → ℕ → Mixed → Mixed
join_partial (prepends r) name_id m = record m {
  prepended = Ancestor.partial name_id ∷ m.prepended;
  context = record (m.context) { partial = true };
}
join_partial _ name_id m = record m {
  included = Ancestor.partial name_id ∷ m.included;
  context = record (m.context) { partial = true };
}

abbrev pub Linearizer : Type 0
Linearizer = ℕ → LinearizationContext → Action (Ancestors × LinearizationContext)

module _ (linearize : Linearizer) (parents : Option (List Ancestor)) where
  unfoldable pub mix_namespace : Mixin → Mixed → ℕ → Action Mixed
  mix_namespace mixin m module_id = do
    result ← linearize module_id m.context
    pure (
        join parents mixin (ancestor_list result.0) (record m { context = note result.0 result.1 }))

  unfoldable pub mix_name : Mixin → Mixed → ℕ → NameRef → Action Mixed
  mix_name mixin m name_id (NameRef.unresolved n) = pure (join_partial mixin name_id m)
  mix_name mixin m name_id (NameRef.resolved n) = do
    target ← reads (λ g. resolve_to_namespace g n.declaration_id)
    case_option target (pure m) (mix_namespace mixin m)

  unfoldable pub linearize_mixins : List Mixin → Mixed → Action Mixed
  linearize_mixins [] m = pure m
  linearize_mixins (mixin ∷ mixins) m = do
    reference ← reads (λ g. unwrap (get (mixin_reference mixin) g.constant_references))
    name ← reads (λ g. unwrap (get reference.name_id g.names))
    m' ← mix_name mixin m reference.name_id name
    linearize_mixins mixins m'

-- the end of `linearize_parent_class`: an unresolved parent goes in front
unfoldable pub with_unresolved :
    Option ℕ → Ancestors × LinearizationContext → Ancestors × LinearizationContext
with_unresolved none result = result
with_unresolved (some name_id) (a, c) =
    (Ancestors.partial (Ancestor.partial name_id ∷ ancestor_list a), record c { partial = true })

-- the result of a recursive call, noted
unfoldable pub noted :
    Ancestors × LinearizationContext → Option (List Ancestor) × LinearizationContext
noted (a, c) = (some (ancestor_list a), note a c)

-- what the context says of the chain
unfoldable pub classify : LinearizationContext → List Ancestor → Ancestors
classify c l =
    if c.cyclic
    then Ancestors.cyclic l
    else if c.partial
    then Ancestors.partial l
    else Ancestors.complete l

unfoldable pub is_class : Declaration → Bool
is_class (Declaration.namespace (Namespace.class d)) = true
is_class _ = false

unfoldable pub is_singleton : Declaration → Bool
is_singleton (Declaration.namespace (Namespace.singleton_class d)) = true
is_singleton _ = false

module _ (xxh3_64 : Hash) (linearize : Linearizer) where
  unfoldable pub linearize_parent_class :
      List ℕ → LinearizationContext → Action (Ancestors × LinearizationContext)
  linearize_parent_class definition_ids c = do
    picked ← reads (get_parent_class xxh3_64 definition_ids)
    result ← linearize picked.0 c
    pure (with_unresolved picked.1 result)

  -- by what the declaration is
  unfoldable pub parent_ancestors :
      LinearizationContext → Declaration → Action (Option (List Ancestor) × LinearizationContext)
  parent_ancestors c (Declaration.namespace (Namespace.class d)) = do
    result ← linearize_parent_class d.base.definition_ids c
    pure (noted result)
  parent_ancestors c (Declaration.namespace (Namespace.singleton_class d)) = do
    parent ← singleton_parent_id xxh3_64 d.base.owner_id
    result ← linearize parent.0 (record c { partial = c.partial || parent.1 })
    pure (noted result)
  parent_ancestors c _ = pure (none, c)

  unfoldable pub linearize_parent_ancestors :
      ℕ → LinearizationContext → Action (Option (List Ancestor) × LinearizationContext)
  linearize_parent_ancestors id c =
      let of_declaration = (do
        d ← reads (λ g. unwrap (get id g.declarations))
        parent_ancestors c d) in
      if id == basic_object_id xxh3_64 then pure (none, c) else of_declaration

  -- the extends of the attached object, for a singleton class
  unfoldable pub attached_extends : Declaration → Graph → Checked (List Mixin)
  attached_extends d g =
      let extended =
        Base.◌>>=◌ (unwrap (get (base_of d).owner_id g.declarations))
          λ attached. Base.◌>>=◌ (all_mixins (definitions attached) g) λ l. done (only_extends l) in
      if is_singleton d then extended else done []

  -- a new singleton class is queued where there is an extend
  unfoldable pub prepare_singleton : ℕ → Bool → Action (Unit {0})
  prepare_singleton id false = pure tt
  prepare_singleton id true = do created ← queue_singleton_class xxh3_64 id; pure tt

  -- a cached result
  unfoldable pub use_cached :
      ℕ → LinearizationContext → Ancestors → Action (Ancestors × LinearizationContext)
  use_cached id c cached = do
    updates (propagate_descendants c.descendants (ancestor_list cached))
    pure (cached, finalize id c)

  -- the estimate that ends a cycle
  unfoldable pub cut_cycle :
      ℕ → LinearizationContext → Declaration → Action (Ancestors × LinearizationContext)
  cut_cycle id c d = do
    let l = if is_class d then Ancestor.complete (object_id xxh3_64) ∷ [] else []
    updates (on_namespace_at id (with_ancestors (Ancestors.cyclic l)))
    pure (Ancestors.cyclic l, finalize id c)

  -- a chain that is not cached
  unfoldable pub build_chain : ℕ → LinearizationContext → Action (Ancestors × LinearizationContext)
  build_chain id c = do
    updates (add_descendants id c.descendants)
    parents ← linearize_parent_ancestors id c
    d ← reads (λ g. unwrap (get id g.declarations))
    extended ← reads (attached_extends d)
    own ← reads (all_mixins (definitions d))
    prepare_singleton id (has_extends own && not (is_singleton d))
    m ←
        linearize_mixins linearize parents.0 (extended ++ except_extends own)
          (record { prepended = []; included = []; context = parents.1 })
    let l =
        m.prepended
        ++ (Ancestor.complete id ∷ (m.included ++ elim parents.0 [ none ↦ [] | some p ↦ p ]))
    let result = classify m.context l
    updates (on_namespace_at id (with_ancestors result))
    pure (result, finalize id m.context)

  -- which of the three it is
  unfoldable pub linearize_new :
      ℕ → LinearizationContext → Declaration → Ancestors → Action (Ancestors × LinearizationContext)
  linearize_new id c d cached =
      if has_complete_ancestors cached
      then use_cached id c cached
      else if contains c.seen_ids id
      then cut_cycle id c d
      else build_chain id (record c { seen_ids = set_insert id c.seen_ids })

  unfoldable pub linearize_step :
      ℕ → LinearizationContext → Action (Ancestors × LinearizationContext)
  linearize_step id c = do
    d ← reads (λ g. unwrap (get id g.declarations))
    n ← reads (λ g. unwrap (as_namespace d))
    let c' = record c { descendants = set_insert id c.descendants }
    linearize_new id c' d (inner n).ancestors

module _ (xxh3_64 : Hash) where
  unfoldable pub linearize_ancestors :
      ℕ → ℕ → LinearizationContext → Action (Ancestors × LinearizationContext)
  linearize_ancestors zero id c = reads (λ g. out_of_fuel)
  linearize_ancestors (suc fuel) id c = linearize_step xxh3_64 (linearize_ancestors fuel) id c

  unfoldable pub ancestors_of : ℕ → ℕ → Action Ancestors
  ancestors_of fuel id = do result ← linearize_ancestors fuel id new_context; pure result.0
