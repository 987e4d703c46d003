-- ===== src/Resolution/Variables/Growing.antt =====
-- What the handling of variables keeps.
use rubydex.Base.{ℕ, Option, none, some}
use rubydex.Model.Ids.{Hash}
use rubydex.Model.Definition.{
  Definition, MethodDefinition, Receiver, self_receiver, constant_receiver,
}
use rubydex.Resolution.Grows.{
  IsGrowing, growing_rules, IsGrowing-updates, IsGrowing-changes, IsGrowing-reads, IsGrowing->>=,
  IsGrowing-case_option,
}
use rubydex.Resolution.Grows.Steps.{add_declaration-Grows, add_member-Grows, push_work-Grows}
use rubydex.Resolution.Singleton.Growing.{expect-IsGrowing}
use rubydex.Resolution.Eager.Growing.{
  resolve_constant_receiver-Grows, create_declaration-IsGrowing, with_owner-IsGrowing,
  eager_singleton_class-IsGrowing, lexical_owner-IsGrowing, self_declaration-IsGrowing,
}
use rubydex.Resolution.Variables.{
  declare_variable, declare_in_singleton, receiver_declaration, variable_in_method,
  variable_in_body, variable_in_singleton, instance_variable_in, handle_instance_variable,
  handle_global_variable,
}

module _ (xxh3_64 : Hash) (fuel : ℕ) where
  declare_variable-IsGrowing :
      (id str_id owner_id : ℕ) → IsGrowing (declare_variable xxh3_64 fuel id str_id owner_id)
  unfolding declare_variable
  declare_variable-IsGrowing id str_id owner_id =
      create_declaration-IsGrowing xxh3_64 str_id id owner_id _

  declare_in_singleton-IsGrowing :
      (id str_id owner_id : ℕ) → IsGrowing (declare_in_singleton xxh3_64 fuel id str_id owner_id)
  unfolding declare_in_singleton
  declare_in_singleton-IsGrowing id str_id owner_id =
      search (growing_rules, declare_variable-IsGrowing)

  receiver_declaration-IsGrowing :
      (id : ℕ) (r : Receiver) → IsGrowing (receiver_declaration xxh3_64 fuel id r)
  unfolding receiver_declaration
  receiver_declaration-IsGrowing id (self_receiver def_id) =
      search (growing_rules, self_declaration-IsGrowing, expect-IsGrowing)
  receiver_declaration-IsGrowing id (constant_receiver name_id) =
      IsGrowing-changes _ (resolve_constant_receiver-Grows name_id id)

  variable_in_method-IsGrowing :
      (id str_id : ℕ) (m : MethodDefinition)
      → IsGrowing (variable_in_method xxh3_64 fuel id str_id m)
  unfolding variable_in_method
  variable_in_method-IsGrowing id str_id m =
      IsGrowing-case_option m.receiver _ _
        (with_owner-IsGrowing _ _ (lexical_owner-IsGrowing xxh3_64 fuel id _)
          (declare_variable-IsGrowing id str_id))
        λ receiver. with_owner-IsGrowing _ _ (receiver_declaration-IsGrowing id receiver) λ d.
          with_owner-IsGrowing _ _ (eager_singleton_class-IsGrowing xxh3_64 fuel d)
            (declare_in_singleton-IsGrowing id str_id)

  variable_in_body-IsGrowing :
      (id str_id nesting : ℕ) → IsGrowing (variable_in_body xxh3_64 fuel id str_id nesting)
  unfolding variable_in_body
  variable_in_body-IsGrowing id str_id nesting =
      IsGrowing->>= _ _ (self_declaration-IsGrowing xxh3_64 fuel nesting) λ d.
        with_owner-IsGrowing _ _ (eager_singleton_class-IsGrowing xxh3_64 fuel _)
          (declare_in_singleton-IsGrowing id str_id)

  variable_in_singleton-IsGrowing :
      (id str_id : ℕ) (o : Option ℕ) → IsGrowing (variable_in_singleton xxh3_64 fuel id str_id o)
  unfolding variable_in_singleton
  variable_in_singleton-IsGrowing id str_id none = IsGrowing-updates _ (λ g. push_work-Grows _ g)
  variable_in_singleton-IsGrowing id str_id (some d) = search (
    growing_rules, eager_singleton_class-IsGrowing, expect-IsGrowing,
    declare_in_singleton-IsGrowing,
  )

  instance_variable_in-IsGrowing :
      (id str_id nesting : ℕ) (d : Definition)
      → IsGrowing (instance_variable_in xxh3_64 fuel id str_id nesting d)
  unfolding instance_variable_in
  instance_variable_in-IsGrowing id str_id nesting (Definition.method m) =
      variable_in_method-IsGrowing id str_id m
  instance_variable_in-IsGrowing id str_id nesting (Definition.class d) =
      variable_in_body-IsGrowing id str_id nesting
  instance_variable_in-IsGrowing id str_id nesting (Definition.module_definition d) =
      variable_in_body-IsGrowing id str_id nesting
  instance_variable_in-IsGrowing id str_id nesting (Definition.singleton_class d) =
      IsGrowing->>= _ _ (self_declaration-IsGrowing xxh3_64 fuel nesting)
        (variable_in_singleton-IsGrowing id str_id)
  instance_variable_in-IsGrowing id str_id nesting _ = IsGrowing-reads _

  pub handle_instance_variable-IsGrowing :
      (id str_id : ℕ) (nesting : Option ℕ)
      → IsGrowing (handle_instance_variable xxh3_64 fuel id str_id nesting)
  unfolding handle_instance_variable
  handle_instance_variable-IsGrowing id str_id nesting =
      search (growing_rules, instance_variable_in-IsGrowing)

  pub handle_global_variable-IsGrowing :
      (id str_id : ℕ) → IsGrowing (handle_global_variable xxh3_64 fuel id str_id)
  unfolding handle_global_variable
  handle_global_variable-IsGrowing id str_id =
      search (
        growing_rules, IsGrowing-updates, IsGrowing-changes, add_declaration-Grows,
        add_member-Grows,
      )
