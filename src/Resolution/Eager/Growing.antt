-- ===== src/Resolution/Eager/Growing.antt =====
-- What the owners of the remaining definitions and their declarations keep.
use rubydex.Base.{ℕ, Option, none, some, done, Ensures, Ensures-read, unwrap, length}
use rubydex.Base.Map.{get}
use rubydex.Model.Ids.{Text, Hash}
use rubydex.Model.Name.{NameRef}
use rubydex.Model.Declaration.{Declaration}
use rubydex.Graph.{Graph, WorkUnit}
use rubydex.Resolution.{Action}
use rubydex.Resolution.Grows.{
  IsGrowing, growing_rules, IsGrowing-updates, IsGrowing-changes, IsGrowing-reads, IsGrowing-pure,
  IsGrowing->>=, IsGrowing-case_option, Grows, Grows-refl, GrowsTo,
}
use rubydex.Resolution.Grows.Steps.{add_declaration-Grows, add_member-Grows, push_work-Grows}
use rubydex.Resolution.Singleton.Growing.{create_singleton_class-IsGrowing}
use rubydex.Resolution.Linearize.Growing.{ancestors_of-IsGrowing}
use rubydex.Resolution.Owners.{
  create_declaration, resolve_constant_receiver, resolve_lexical_owner, or_push_work, owner_loop,
}
use rubydex.Resolution.Eager.{
  linearize_now, eager_singleton_class, with_owner, declare_method, lexical_owner, self_declaration,
}

pub resolve_constant_receiver-Grows :
    (name_id id : ℕ) → GrowsTo (λ x. x.0) (resolve_constant_receiver name_id id)
unfolding resolve_constant_receiver
resolve_constant_receiver-Grows name_id id g =
    Ensures-read (λ x. Grows g x.0) (unwrap (get name_id g.names)) _ receiver
  where
    receiver :
        (n : NameRef)
        → Ensures {A = Graph × Option ℕ}
            (λ x. Grows g x.0)
            (elim n [
              | NameRef.resolved r ↦ done (g, some r.declaration_id)
              | NameRef.unresolved n ↦
                  done (rubydex.Graph.Names.push_work (WorkUnit.definition id) g, none)
            ])
    receiver (NameRef.resolved r) = Grows-refl g
    receiver (NameRef.unresolved n) = push_work-Grows (WorkUnit.definition id) g

or_push_work-Grows : (id : ℕ) (g : Graph) (o : Option ℕ) → Grows g (or_push_work id g o).0
unfolding or_push_work
or_push_work-Grows id g none = push_work-Grows (WorkUnit.definition id) g
or_push_work-Grows id g (some owner) = Grows-refl g

pub resolve_lexical_owner-Grows :
    (xxh3_64 : Hash) (nesting : Option ℕ) (id : ℕ)
    → GrowsTo (λ x. x.0) (resolve_lexical_owner xxh3_64 nesting id)
unfolding resolve_lexical_owner
resolve_lexical_owner-Grows xxh3_64 nesting id g =
    Ensures-read (λ x. Grows g x.0) (owner_loop xxh3_64 (length g.definitions) g nesting)
      (λ o. done (or_push_work id g o)) (or_push_work-Grows id g)

pub create_declaration-IsGrowing :
    (xxh3_64 : Hash) (str_id id owner_id : ℕ) (builder : Text → Declaration)
    → IsGrowing (create_declaration xxh3_64 str_id id owner_id builder)
unfolding create_declaration
create_declaration-IsGrowing xxh3_64 str_id id owner_id builder =
    search
      (growing_rules, IsGrowing-updates, IsGrowing-changes, add_declaration-Grows, add_member-Grows)

pub with_owner-IsGrowing :
    (m : Action (Option ℕ)) (f : ℕ → Action (Unit {0}))
    → IsGrowing m
    → ((id : ℕ) → IsGrowing (f id))
    → IsGrowing (with_owner m f)
unfolding with_owner
with_owner-IsGrowing m f h k =
    IsGrowing->>= m _ h λ owner. IsGrowing-case_option owner _ f (IsGrowing-pure tt) k

module _ (xxh3_64 : Hash) (fuel : ℕ) where
  linearize_now-IsGrowing : (id : ℕ) → IsGrowing (linearize_now xxh3_64 fuel id)
  unfolding linearize_now
  linearize_now-IsGrowing id = search (growing_rules, ancestors_of-IsGrowing)

  pub eager_singleton_class-IsGrowing : (id : ℕ) → IsGrowing (eager_singleton_class xxh3_64 fuel id)
  unfolding eager_singleton_class
  eager_singleton_class-IsGrowing id =
      create_singleton_class-IsGrowing xxh3_64 (linearize_now xxh3_64 fuel) linearize_now-IsGrowing
        id

  pub declare_method-IsGrowing :
      (id str_id owner_id : ℕ) → IsGrowing (declare_method xxh3_64 fuel id str_id owner_id)
  unfolding declare_method
  declare_method-IsGrowing id str_id owner_id =
      create_declaration-IsGrowing xxh3_64 str_id id owner_id _

  pub lexical_owner-IsGrowing :
      (id : ℕ) (nesting : Option ℕ) → IsGrowing (lexical_owner xxh3_64 fuel id nesting)
  unfolding lexical_owner
  lexical_owner-IsGrowing id nesting =
      IsGrowing-changes _ (resolve_lexical_owner-Grows xxh3_64 nesting id)

  pub self_declaration-IsGrowing : (id : ℕ) → IsGrowing (self_declaration xxh3_64 fuel id)
  unfolding self_declaration
  self_declaration-IsGrowing id = IsGrowing-reads _
