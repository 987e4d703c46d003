-- ===== src/Resolution/Singleton/Growing.antt =====
-- What the creation of singleton classes keeps.
use rubydex.Base.{ℕ, zero, suc, Bool, true, false, Option, none, some, done, refl}
use rubydex.Base.Map.{adjust}
use rubydex.Model.Ids.{Hash, id_from}
use rubydex.Model.Declaration.{
  Declaration, Namespace, NamespaceDeclaration, inner, on_namespace, new_namespace,
}
use rubydex.Graph.{Graph, WorkUnit}
use rubydex.Resolution.{Action}
use rubydex.Resolution.Grows.{
  IsGrowing, growing_rules, IsGrowing-changes, IsGrowing-updates, IsGrowing-reads, IsGrowing-pure,
  IsGrowing->>=, IsGrowing-case_option, IsGrowing-push_back, IsGrowing-if, Grows-trans, GrowsTo,
}
use rubydex.Resolution.Grows.Steps.{Grows-insert, Grows-on_namespace, promote-Grows}
use rubydex.Resolution.Singleton.{
  add_singleton, singleton_name, singleton_of_namespace, singleton_of_constant, singleton_of,
  create_loop, create_singleton_class, queue_ancestors, queue_singleton_class, expect, wrap_parent,
  parent_of_attached, parent_loop, singleton_parent_id, module_declaration,
}

add_singleton-Grows :
    (xxh3_64 : Hash) (attached_id : ℕ) (d : Declaration) (n : NamespaceDeclaration)
    → GrowsTo (λ x. x.0) (λ g. done (add_singleton xxh3_64 attached_id d n g))
unfolding add_singleton
add_singleton-Grows xxh3_64 attached_id d n g =
    let id = id_from xxh3_64 (singleton_name d) in
    let attach = λ (m : NamespaceDeclaration). record m { singleton_class_id = some id } in
    let g' : Graph = record g {
      declarations = adjust attached_id (on_namespace attach) g.declarations;
    } in
    Grows-trans g g' _ (Grows-on_namespace g attached_id attach) (
      Grows-insert g' id
        (Declaration.namespace
          (Namespace.singleton_class (new_namespace (singleton_name d) attached_id)))
        (λ k. refl))

module _ (xxh3_64 : Hash) (announce : ℕ → Action (Unit {0}))
    (announces : (id : ℕ) → IsGrowing (announce id)) where
  singleton_of_namespace-IsGrowing :
      (id : ℕ) → IsGrowing (singleton_of_namespace xxh3_64 announce id)
  unfolding singleton_of_namespace
  singleton_of_namespace-IsGrowing id = IsGrowing->>= _ _ (IsGrowing-reads _) λ d.
      IsGrowing->>= _ _ (IsGrowing-reads _) λ n.
        IsGrowing-case_option _ _ _
          (IsGrowing->>= _ _ (IsGrowing-changes _ (add_singleton-Grows xxh3_64 id d (inner n)))
            λ s. IsGrowing->>= _ _ (announces s) (λ u. IsGrowing-pure _))
          (λ s. IsGrowing-pure _)

  singleton_of_constant-IsGrowing :
      (id : ℕ) (b : Bool) → IsGrowing (singleton_of_constant xxh3_64 announce id b)
  unfolding singleton_of_constant
  singleton_of_constant-IsGrowing id false = IsGrowing-pure none
  singleton_of_constant-IsGrowing id true =
      IsGrowing->>= _ _ (IsGrowing-updates _ (promote-Grows id module_declaration))
        λ u. IsGrowing->>= _ _ (announces id) (λ u. singleton_of_namespace-IsGrowing id)

  singleton_of-IsGrowing :
      (again : ℕ → Action (Option ℕ)) (id : ℕ) (d : Declaration)
      → ((id : ℕ) → IsGrowing (again id))
      → IsGrowing (singleton_of xxh3_64 announce again id d)
  unfolding singleton_of
  singleton_of-IsGrowing again id (Declaration.constant_alias d) h =
      IsGrowing->>= _ _ (IsGrowing-reads _)
        λ target. IsGrowing-case_option target _ again (IsGrowing-pure none) h
  singleton_of-IsGrowing again id (Declaration.constant d) h =
      IsGrowing->>= _ _ (IsGrowing-reads _) (singleton_of_constant-IsGrowing id)
  singleton_of-IsGrowing again id (Declaration.namespace d) h = singleton_of_namespace-IsGrowing id
  singleton_of-IsGrowing again id (Declaration.method d) h = singleton_of_namespace-IsGrowing id
  singleton_of-IsGrowing again id (Declaration.global_variable d) h =
      singleton_of_namespace-IsGrowing id
  singleton_of-IsGrowing again id (Declaration.instance_variable d) h =
      singleton_of_namespace-IsGrowing id
  singleton_of-IsGrowing again id (Declaration.class_variable d) h =
      singleton_of_namespace-IsGrowing id

  create_loop-IsGrowing : (fuel id : ℕ) → IsGrowing (create_loop xxh3_64 announce fuel id)
  unfolding create_loop
  create_loop-IsGrowing zero id = IsGrowing-reads _
  create_loop-IsGrowing (suc fuel) id = IsGrowing->>= _ _ (IsGrowing-reads _) λ d.
      singleton_of-IsGrowing (create_loop xxh3_64 announce fuel) id d (create_loop-IsGrowing fuel)

  pub create_singleton_class-IsGrowing :
      (id : ℕ) → IsGrowing (create_singleton_class xxh3_64 announce id)
  unfolding create_singleton_class
  create_singleton_class-IsGrowing id = create_loop-IsGrowing 2 id

pub queue_ancestors-IsGrowing : (id : ℕ) → IsGrowing (queue_ancestors id)
unfolding queue_ancestors
queue_ancestors-IsGrowing id = IsGrowing-push_back (WorkUnit.ancestors id)

pub expect-IsGrowing : {A : Type 0} (o : Option A) → IsGrowing (expect o)
unfolding expect
expect-IsGrowing o = IsGrowing-reads _

module _ (xxh3_64 : Hash) where
  pub queue_singleton_class-IsGrowing : (id : ℕ) → IsGrowing (queue_singleton_class xxh3_64 id)
  unfolding queue_singleton_class
  queue_singleton_class-IsGrowing id =
      create_singleton_class-IsGrowing xxh3_64 queue_ancestors queue_ancestors-IsGrowing id

  wrap_parent-IsGrowing : (parent : ℕ × Bool) → IsGrowing (wrap_parent xxh3_64 parent)
  unfolding wrap_parent
  wrap_parent-IsGrowing (parent, partial) =
      search (growing_rules, queue_singleton_class-IsGrowing, expect-IsGrowing)

  parent_of_attached-IsGrowing :
      (again : ℕ → Action (ℕ × Bool)) (d : Declaration)
      → ((id : ℕ) → IsGrowing (again id))
      → IsGrowing (parent_of_attached xxh3_64 again d)
  unfolding parent_of_attached
  parent_of_attached-IsGrowing again (Declaration.namespace (Namespace.class d)) h =
      search (growing_rules, wrap_parent-IsGrowing)
  parent_of_attached-IsGrowing again (Declaration.namespace (Namespace.module_namespace d)) h =
      search growing_rules
  parent_of_attached-IsGrowing again (Declaration.namespace (Namespace.singleton_class d)) h =
      search (growing_rules, wrap_parent-IsGrowing, h)
  parent_of_attached-IsGrowing again (Declaration.namespace (Namespace.todo d)) h =
      search growing_rules
  parent_of_attached-IsGrowing again (Declaration.constant d) h = search growing_rules
  parent_of_attached-IsGrowing again (Declaration.constant_alias d) h = search growing_rules
  parent_of_attached-IsGrowing again (Declaration.method d) h = search growing_rules
  parent_of_attached-IsGrowing again (Declaration.global_variable d) h = search growing_rules
  parent_of_attached-IsGrowing again (Declaration.instance_variable d) h = search growing_rules
  parent_of_attached-IsGrowing again (Declaration.class_variable d) h = search growing_rules

  parent_loop-IsGrowing : (fuel id : ℕ) → IsGrowing (parent_loop xxh3_64 fuel id)
  unfolding parent_loop
  parent_loop-IsGrowing zero id = search growing_rules
  parent_loop-IsGrowing (suc fuel) id = IsGrowing-if _ _ _ (IsGrowing-pure _) (
      IsGrowing->>= _ _ (IsGrowing-reads _)
        λ d. parent_of_attached-IsGrowing (parent_loop xxh3_64 fuel) d (parent_loop-IsGrowing fuel))

  pub singleton_parent_id-IsGrowing : (id : ℕ) → IsGrowing (singleton_parent_id xxh3_64 id)
  unfolding singleton_parent_id
  singleton_parent_id-IsGrowing id = search (growing_rules, parent_loop-IsGrowing)
