-- ===== src/Resolution/Linearize/Growing.antt =====
-- What the linearization of ancestors keeps.
use rubydex.Base.{
  ℕ, zero, suc, Bool, true, false, Option, none, some, List, [], ◌∷◌, done, ◌≡◌, refl, arith,
  if◌then◌else◌, Ensures, Ensures->>=, Ensures-read, Ensures-map, unwrap, ◌>>=◌,
}
use rubydex.Base.Map.{get}
use rubydex.Model.Ids.{Hash}
use rubydex.Model.Name.{NameRef}
use rubydex.Model.Definition.{Mixin}
use rubydex.Model.Declaration.{
  Ancestor, Ancestors, Declaration, Namespace, NamespaceDeclaration, as_namespace,
}
use rubydex.Graph.{Graph}
use rubydex.Resolution.{LinearizationContext}
use rubydex.Resolution.Grows.{
  IsGrowing, growing_rules, IsGrowing-updates, IsGrowing-reads, IsGrowing-pure, IsGrowing->>=,
  Grows, Grows-refl, Grows-trans, GrowsTo,
}
use rubydex.Resolution.Grows.Steps.{Grows-on_namespace}
use rubydex.Resolution.Singleton.Growing.{
  queue_singleton_class-IsGrowing, singleton_parent_id-IsGrowing,
}
use rubydex.Resolution.Linearize.{
  on_namespace_at, with_descendant, add_descendants, propagate_descendants, Mixed, Linearizer,
  mix_namespace, mix_name, linearize_mixins, linearize_parent_class, parent_ancestors,
  linearize_parent_ancestors, prepare_singleton, use_cached, cut_cycle, build_chain, linearize_new,
  linearize_step, linearize_ancestors, ancestors_of,
}

pub on_namespace_at-Grows :
    (id : ℕ) (f : NamespaceDeclaration → NamespaceDeclaration)
    → GrowsTo (λ g. g) (on_namespace_at id f)
unfolding on_namespace_at
on_namespace_at-Grows id f g =
    Ensures-read (λ g'. Grows g g') (unwrap (get id g.declarations)) _
      λ d.
        Ensures-read (λ g'. Grows g g') (unwrap (as_namespace d)) _ λ n. Grows-on_namespace g id f

-- one change after another
then-Grows :
    (g : Graph) (m : rubydex.Base.Checked Graph) (f : Graph → rubydex.Base.Checked Graph)
    → Ensures (λ g'. Grows g g') m
    → GrowsTo (λ g. g) f
    → Ensures (λ g'. Grows g g') (m >>= f)
then-Grows g m f h k =
    Ensures->>= (λ g'. Grows g g') (λ g'. Grows g g') m f h
      λ g' grown.
        Ensures-map (λ g''. Grows g' g'') (λ g''. Grows g g'') (f g') (k g')
          λ g'' more. Grows-trans g g' g'' grown more

add_descendants-Grows : (id : ℕ) (ds : List ℕ) → GrowsTo (λ g. g) (add_descendants id ds)
unfolding add_descendants
add_descendants-Grows id [] g = Grows-refl g
add_descendants-Grows id (d ∷ ds) g =
    then-Grows g (on_namespace_at id (with_descendant d) g) (add_descendants id ds)
      (on_namespace_at-Grows id (with_descendant d) g) (add_descendants-Grows id ds)

propagate_descendants-Grows :
    (ds : List ℕ) (l : List Ancestor) → GrowsTo (λ g. g) (propagate_descendants ds l)
unfolding propagate_descendants
propagate_descendants-Grows ds [] g = Grows-refl g
propagate_descendants-Grows ds (Ancestor.partial name ∷ l) g = propagate_descendants-Grows ds l g
propagate_descendants-Grows ds (Ancestor.complete id ∷ l) g =
    then-Grows g (add_descendants id ds g) (propagate_descendants ds l)
      (add_descendants-Grows id ds g) (propagate_descendants-Grows ds l)

module _ (linearize : Linearizer)
    (grows : (id : ℕ) (c : LinearizationContext) → IsGrowing (linearize id c)) where
  mix_name-IsGrowing :
      (parents : Option (List Ancestor)) (mixin : Mixin) (m : Mixed) (id : ℕ) (n : NameRef)
      → IsGrowing (mix_name linearize parents mixin m id n)
  unfolding mix_name mix_namespace
  mix_name-IsGrowing parents mixin m id (NameRef.unresolved n) = search growing_rules
  mix_name-IsGrowing parents mixin m id (NameRef.resolved n) = search (growing_rules, grows)

  linearize_mixins-IsGrowing :
      (parents : Option (List Ancestor)) (l : List Mixin) (m : Mixed)
      → IsGrowing (linearize_mixins linearize parents l m)
  unfolding linearize_mixins
  linearize_mixins-IsGrowing parents [] m = IsGrowing-pure m
  linearize_mixins-IsGrowing parents (mixin ∷ l) m =
      IsGrowing->>= _ _ (IsGrowing-reads _) λ reference.
        IsGrowing->>= _ _ (IsGrowing-reads _) λ name.
          IsGrowing->>= _ _ (mix_name-IsGrowing parents mixin m reference.name_id name)
            λ m'. linearize_mixins-IsGrowing parents l m'

module _ (xxh3_64 : Hash) (linearize : Linearizer)
    (grows : (id : ℕ) (c : LinearizationContext) → IsGrowing (linearize id c)) where
  parent_class-IsGrowing :
      (ids : List ℕ) (c : LinearizationContext)
      → IsGrowing (linearize_parent_class xxh3_64 linearize ids c)
  unfolding linearize_parent_class
  parent_class-IsGrowing ids c = search (growing_rules, grows)

  parent_ancestors-IsGrowing :
      (c : LinearizationContext) (d : Declaration)
      → IsGrowing (parent_ancestors xxh3_64 linearize c d)
  unfolding parent_ancestors
  parent_ancestors-IsGrowing c (Declaration.namespace (Namespace.class d)) =
      search (growing_rules, parent_class-IsGrowing)
  parent_ancestors-IsGrowing c (Declaration.namespace (Namespace.singleton_class d)) =
      search (growing_rules, grows, singleton_parent_id-IsGrowing)
  parent_ancestors-IsGrowing c (Declaration.namespace (Namespace.module_namespace d)) =
      search growing_rules
  parent_ancestors-IsGrowing c (Declaration.namespace (Namespace.todo d)) = search growing_rules
  parent_ancestors-IsGrowing c (Declaration.constant d) = search growing_rules
  parent_ancestors-IsGrowing c (Declaration.constant_alias d) = search growing_rules
  parent_ancestors-IsGrowing c (Declaration.method d) = search growing_rules
  parent_ancestors-IsGrowing c (Declaration.global_variable d) = search growing_rules
  parent_ancestors-IsGrowing c (Declaration.instance_variable d) = search growing_rules
  parent_ancestors-IsGrowing c (Declaration.class_variable d) = search growing_rules

  parents-IsGrowing :
      (id : ℕ) (c : LinearizationContext)
      → IsGrowing (linearize_parent_ancestors xxh3_64 linearize id c)
  unfolding linearize_parent_ancestors
  parents-IsGrowing id c = search (growing_rules, parent_ancestors-IsGrowing)

  prepare_singleton-IsGrowing :
      (id : ℕ) (b : Bool) → IsGrowing (prepare_singleton xxh3_64 linearize id b)
  unfolding prepare_singleton
  prepare_singleton-IsGrowing id false = search growing_rules
  prepare_singleton-IsGrowing id true = search (growing_rules, queue_singleton_class-IsGrowing)

  use_cached-IsGrowing :
      (id : ℕ) (c : LinearizationContext) (a : Ancestors)
      → IsGrowing (use_cached xxh3_64 linearize id c a)
  unfolding use_cached
  use_cached-IsGrowing id c a =
      search (growing_rules, IsGrowing-updates, propagate_descendants-Grows)

  cut_cycle-IsGrowing :
      (id : ℕ) (c : LinearizationContext) (d : Declaration)
      → IsGrowing (cut_cycle xxh3_64 linearize id c d)
  unfolding cut_cycle
  cut_cycle-IsGrowing id c d = search (growing_rules, IsGrowing-updates, on_namespace_at-Grows)

  build_chain-IsGrowing :
      (id : ℕ) (c : LinearizationContext) → IsGrowing (build_chain xxh3_64 linearize id c)
  unfolding build_chain
  build_chain-IsGrowing id c =
      IsGrowing->>= _ _ (IsGrowing-updates _ (add_descendants-Grows id c.descendants)) λ u.
        IsGrowing->>= _ _ (parents-IsGrowing id c) λ parents.
          IsGrowing->>= _ _ (IsGrowing-reads _) λ d.
            IsGrowing->>= _ _ (IsGrowing-reads _) λ extended.
              IsGrowing->>= _ _ (IsGrowing-reads _) λ own.
                IsGrowing->>= _ _ (prepare_singleton-IsGrowing id _) λ u. search (
                  growing_rules,
                  IsGrowing-updates,
                  on_namespace_at-Grows,
                  linearize_mixins-IsGrowing linearize grows,
                )

  linearize_step-IsGrowing :
      (id : ℕ) (c : LinearizationContext) → IsGrowing (linearize_step xxh3_64 linearize id c)
  unfolding linearize_step linearize_new
  linearize_step-IsGrowing id c =
      search (growing_rules, use_cached-IsGrowing, cut_cycle-IsGrowing, build_chain-IsGrowing)

module _ (xxh3_64 : Hash) where
  pub linearize_ancestors-IsGrowing :
      (fuel id : ℕ) (c : LinearizationContext) → IsGrowing (linearize_ancestors xxh3_64 fuel id c)
  unfolding linearize_ancestors
  linearize_ancestors-IsGrowing zero id c = IsGrowing-reads _
  linearize_ancestors-IsGrowing (suc fuel) id c =
      linearize_step-IsGrowing xxh3_64 (linearize_ancestors xxh3_64 fuel)
        (linearize_ancestors-IsGrowing fuel) id c

  pub ancestors_of-IsGrowing : (fuel id : ℕ) → IsGrowing (ancestors_of xxh3_64 fuel id)
  unfolding ancestors_of
  ancestors_of-IsGrowing fuel id = search (growing_rules, linearize_ancestors-IsGrowing)
