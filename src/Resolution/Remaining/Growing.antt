-- ===== src/Resolution/Remaining/Growing.antt =====
-- What the handling of the remaining definitions keeps.
use rubydex.Base.{ℕ, Option, none, some, List}
use rubydex.Model.Ids.{Hash}
use rubydex.Model.Definition.{Definition, Receiver, self_receiver, constant_receiver}
use rubydex.Resolution.Grows.{
  IsGrowing, growing_rules, IsGrowing-changes, IsGrowing-reads, IsGrowing-pure, IsGrowing->>=,
  IsGrowing-for_all,
}
use rubydex.Resolution.Singleton.Growing.{expect-IsGrowing}
use rubydex.Resolution.Eager.Growing.{
  resolve_constant_receiver-Grows, create_declaration-IsGrowing, with_owner-IsGrowing,
  eager_singleton_class-IsGrowing, declare_method-IsGrowing, lexical_owner-IsGrowing,
  self_declaration-IsGrowing,
}
use rubydex.Resolution.Variables.Growing.{
  handle_instance_variable-IsGrowing, handle_global_variable-IsGrowing,
}
use rubydex.Resolution.Visibilities.Growing.{
  handle_constant_visibility-IsGrowing, method_visibilities-IsGrowing,
}
use rubydex.Resolution.Remaining.{
  method_owner, alias_owner, handle_remaining, handle_one, handle_remaining_definitions,
}

module _ (xxh3_64 : Hash) (fuel : ℕ) where
  method_owner-IsGrowing :
      (id : ℕ) (nesting : Option ℕ) (r : Option Receiver)
      → IsGrowing (method_owner xxh3_64 fuel id nesting r)
  unfolding method_owner
  method_owner-IsGrowing id nesting none = lexical_owner-IsGrowing xxh3_64 fuel id nesting
  method_owner-IsGrowing id nesting (some (self_receiver def_id)) = IsGrowing-reads _
  method_owner-IsGrowing id nesting (some (constant_receiver name_id)) = search (
    growing_rules, IsGrowing-changes, resolve_constant_receiver-Grows,
    eager_singleton_class-IsGrowing,
  )

  alias_owner-IsGrowing :
      (id : ℕ) (nesting : Option ℕ) (r : Option Receiver)
      → IsGrowing (alias_owner xxh3_64 fuel id nesting r)
  unfolding alias_owner
  alias_owner-IsGrowing id nesting none = lexical_owner-IsGrowing xxh3_64 fuel id nesting
  alias_owner-IsGrowing id nesting (some (self_receiver def_id)) =
      search (
        growing_rules, self_declaration-IsGrowing, expect-IsGrowing,
        eager_singleton_class-IsGrowing,
      )
  alias_owner-IsGrowing id nesting (some (constant_receiver name_id)) =
      IsGrowing-changes _ (resolve_constant_receiver-Grows name_id id)

  handle_remaining-IsGrowing :
      (id : ℕ) (d : Definition) → IsGrowing (handle_remaining xxh3_64 fuel id d)
  unfolding handle_remaining
  handle_remaining-IsGrowing id (Definition.method m) =
      with_owner-IsGrowing _ _ (method_owner-IsGrowing id _ m.receiver)
        (declare_method-IsGrowing xxh3_64 fuel id m.str_id)
  handle_remaining-IsGrowing id (Definition.attr_accessor d) =
      with_owner-IsGrowing _ _ (lexical_owner-IsGrowing xxh3_64 fuel id _)
        (declare_method-IsGrowing xxh3_64 fuel id d.str_id)
  handle_remaining-IsGrowing id (Definition.attr_reader d) =
      with_owner-IsGrowing _ _ (lexical_owner-IsGrowing xxh3_64 fuel id _)
        (declare_method-IsGrowing xxh3_64 fuel id d.str_id)
  handle_remaining-IsGrowing id (Definition.attr_writer d) =
      with_owner-IsGrowing _ _ (lexical_owner-IsGrowing xxh3_64 fuel id _)
        (declare_method-IsGrowing xxh3_64 fuel id d.str_id)
  handle_remaining-IsGrowing id (Definition.global_variable d) =
      handle_global_variable-IsGrowing xxh3_64 fuel id d.str_id
  handle_remaining-IsGrowing id (Definition.instance_variable d) =
      handle_instance_variable-IsGrowing xxh3_64 fuel id d.str_id _
  handle_remaining-IsGrowing id (Definition.class_variable d) =
      with_owner-IsGrowing _ _ (IsGrowing-reads _)
        λ owner_id. create_declaration-IsGrowing xxh3_64 d.str_id id owner_id _
  handle_remaining-IsGrowing id (Definition.method_alias d) =
      with_owner-IsGrowing _ _ (alias_owner-IsGrowing id _ d.receiver)
        (declare_method-IsGrowing xxh3_64 fuel id d.new_name_str_id)
  handle_remaining-IsGrowing id (Definition.global_variable_alias d) =
      create_declaration-IsGrowing xxh3_64 d.new_name_str_id id _ _
  handle_remaining-IsGrowing id (Definition.constant_visibility v) =
      handle_constant_visibility-IsGrowing xxh3_64 fuel id v
  handle_remaining-IsGrowing id (Definition.method_visibility v) = IsGrowing-pure tt
  handle_remaining-IsGrowing id _ = IsGrowing-reads _

  pub remaining_definitions-IsGrowing :
      (ids : List ℕ) → IsGrowing (handle_remaining_definitions xxh3_64 fuel ids)
  unfolding handle_remaining_definitions handle_one
  remaining_definitions-IsGrowing ids =
      IsGrowing->>= _ _
        (IsGrowing-for_all (handle_one xxh3_64 fuel) ids
          λ id. IsGrowing->>= _ _ (IsGrowing-reads _) (handle_remaining-IsGrowing id))
        λ u. search (growing_rules, method_visibilities-IsGrowing)
