-- ===== src/Resolution/Singleton/Again.antt =====
-- A namespace has one singleton class.

use rubydex.Base.{
  ℕ, ◌==◌, none, some, [], ◌∷◌, ◌++◌, true, false, done, ◌≡◌, ◌≢◌, ◌⊎◌, refl, arith, Option-cases,
  inl, inr, ◌∙◌,
}
use rubydex.Base.Map.{get, adjust, get-insert, get-adjust}
use rubydex.Model.Ids.{Hash, id_from}
use rubydex.Model.Declaration.{
  Declaration, Namespace, NamespaceDeclaration, inner, update, on_namespace, new_namespace,
}
use rubydex.Graph.{WorkUnit}
use rubydex.Resolution.{Resolver, case_option, pure, reads, changes, push_back, ◌>>=◌}
use rubydex.Resolution.Singleton.{
  singleton_name, add_singleton, singleton_of_namespace, singleton_of, create_loop,
  create_singleton_class, queue_ancestors, queue_singleton_class,
}

module _ (xxh3_64 : Hash) (attached_id : ℕ) where
  -- a namespace that has its singleton class
  has_one :
      (r : Resolver) (n : Namespace) (id : ℕ)
      → get attached_id r.graph.declarations ≡ some (Declaration.namespace n)
      → (inner n).singleton_class_id ≡ some id
      → queue_singleton_class xxh3_64 attached_id r ≡ done (some id, r)
  unfolding queue_singleton_class create_singleton_class create_loop singleton_of
      singleton_of_namespace ◌>>=◌ reads case_option pure
  has_one r n id there has = rw (there, singleton_of_namespace, there, has) refl

  -- one that has none
  abbrev with_singleton : Resolver → Namespace → Resolver
  with_singleton r n =
      let added = add_singleton xxh3_64 attached_id (Declaration.namespace n) (inner n) r.graph in
      record r { graph = added.0; unit_queue = r.unit_queue ++ WorkUnit.ancestors added.1 ∷ [] }

  gets_one :
      (r : Resolver) (n : Namespace)
      → get attached_id r.graph.declarations ≡ some (Declaration.namespace n)
      → (inner n).singleton_class_id ≡ none
      → queue_singleton_class xxh3_64 attached_id r
        ≡ done
            (some (id_from xxh3_64 (singleton_name (Declaration.namespace n))), with_singleton r n)
  unfolding queue_singleton_class create_singleton_class create_loop singleton_of
      singleton_of_namespace ◌>>=◌ reads changes case_option pure queue_ancestors push_back
      add_singleton
  gets_one r n there lacks = rw (there, singleton_of_namespace, there, lacks) refl

  -- the namespace afterwards
  with_singleton-get :
      (r : Resolver) (n : Namespace)
      → let id = id_from xxh3_64 (singleton_name (Declaration.namespace n)) in
        get attached_id r.graph.declarations ≡ some (Declaration.namespace n)
        → id ≢ attached_id
        → get attached_id (with_singleton r n).graph.declarations
          ≡ some (Declaration.namespace (update (λ m. record m { singleton_class_id = some id }) n))
  unfolding add_singleton on_namespace
  with_singleton-get r n there apart =
      let id = id_from xxh3_64 (singleton_name (Declaration.namespace n)) in
      let attach = λ (m : NamespaceDeclaration). record m { singleton_class_id = some id } in
      let new = Declaration.namespace (
        Namespace.singleton_class
          (new_namespace (singleton_name (Declaration.namespace n)) attached_id)) in
      let after =
        get-insert id attached_id new
          (adjust attached_id (on_namespace attach) r.graph.declarations) in
      let before = get-adjust attached_id attached_id (on_namespace attach) r.graph.declarations in
      let other : (id == attached_id) ≡ false = ground (arith, apart) in
      let same : (attached_id == attached_id) ≡ true = ground arith in
      after ∙ rw other (before ∙ rw (same, there) refl)

  with_singleton-new :
      (r : Resolver) (n : Namespace)
      → get
          (id_from xxh3_64 (singleton_name (Declaration.namespace n)))
          (with_singleton r n).graph.declarations
        ≡ some (
            Declaration.namespace (
              Namespace.singleton_class
                (new_namespace (singleton_name (Declaration.namespace n)) attached_id)))
  unfolding add_singleton
  with_singleton-new r n =
      let id = id_from xxh3_64 (singleton_name (Declaration.namespace n)) in
      let same : (id == id) ≡ true = ground arith in get-insert id id _ _ ∙ rw same refl

  update-singleton_class_id :
      (id : ℕ) (n : Namespace)
      → (inner (update (λ m. record m { singleton_class_id = some id }) n)).singleton_class_id
        ≡ some id
  update-singleton_class_id id (Namespace.class d) = refl
  update-singleton_class_id id (Namespace.singleton_class d) = refl
  update-singleton_class_id id (Namespace.module_namespace d) = refl
  update-singleton_class_id id (Namespace.todo d) = refl

  -- Asking for the singleton class of a namespace returns one: the one that it has, or else a new
  -- one that the namespace owns, if the id of its name is not that of the namespace. Asking again
  -- returns the same one and changes nothing.
  pub queue_singleton_class-again :
      (r : Resolver) (n : Namespace)
      → get attached_id r.graph.declarations ≡ some (Declaration.namespace n)
      → id_from xxh3_64 (singleton_name (Declaration.namespace n)) ≢ attached_id
      → (id : ℕ) × (r' : Resolver) × (queue_singleton_class xxh3_64 attached_id r
          ≡ done (some id, r'))
        × (queue_singleton_class xxh3_64 attached_id r' ≡ done (some id, r'))
        × (((inner n).singleton_class_id ≡ some id)
            ⊎ (get id r'.graph.declarations
                ≡ some (
                    Declaration.namespace (
                      Namespace.singleton_class
                        (new_namespace (singleton_name (Declaration.namespace n)) attached_id)))))
  queue_singleton_class-again r n there apart = elim (Option-cases (inner n).singleton_class_id) [
    | inr (id, has) ↦ (id, r, has_one r n id there has, has_one r n id there has, inl has)
    | inl lacks ↦
        let id = id_from xxh3_64 (singleton_name (Declaration.namespace n)) in
        let attached =
          update (λ (m : NamespaceDeclaration). record m { singleton_class_id = some id }) n in
        (
          id,
          with_singleton r n,
          gets_one r n there lacks,
          has_one (with_singleton r n) attached id (with_singleton-get r n there apart)
              (update-singleton_class_id id n),
          inr (with_singleton-new r n),
        )
  ]
