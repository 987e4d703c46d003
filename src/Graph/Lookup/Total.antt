-- ===== src/Graph/Lookup/Total.antt =====
-- The lookup of the declaration of a definition ends: `definition_id_to_declaration_id` of
-- rust/rubydex/src/model/graph.rs.
use rubydex.Base.{
  ℕ, zero, suc, ◌<◌, Option, none, some, Checked, done, panic, out_of_fuel, ◌≡◌, ◌≢◌, refl, arith,
  Option-cases, Bool, true, false, if◌then◌else◌, inl, inr, length,
}
use rubydex.Base.Map.{get}
use rubydex.Model.Ids.{Hash}
use rubydex.Model.Definition.{
  Definition, MethodVisibilityDefinition, Receiver, base_of, self_receiver, constant_receiver,
}
use rubydex.Graph.{Graph}
use rubydex.Graph.Lookup.{
  find_enclosing_namespace_name_id, find_singleton_method_visibility_declaration,
  find_self_receiver_declaration, find_member_declaration, find_nested_declaration,
  definition_to_declaration_id, declaration_loop, definition_id_to_declaration_id, singleton_member,
  method_declaration, alias_declaration, visibility_declaration,
}
use rubydex.Graph.Lookup.Enclosing.{IsNested, find_enclosing-Encloses, enclosing_loop-none}

-- the definition of the `self` that a method or an alias is defined on
abbrev pub self_of : Option Receiver → Option ℕ
self_of (some (self_receiver id)) = some id
self_of _ = none

abbrev pub self_definition : Definition → Option ℕ
self_definition (Definition.method d) = self_of d.receiver
self_definition (Definition.method_alias d) = self_of d.receiver
self_definition _ = none

-- The `self` that a definition is defined on is less deep than the definition.
abbrev pub SelvesOutside : Graph → (ℕ → ℕ) → Type 0
SelvesOutside g depth =
    (id self_id : ℕ) (d : Definition)
    → get id g.definitions ≡ some d
    → self_definition d ≡ some self_id
    → depth self_id < depth id

if-ends :
    (b : Bool) {x y : Checked (Option ℕ)}
    → x ≢ out_of_fuel
    → y ≢ out_of_fuel
    → (if b then x else y) ≢ out_of_fuel
if-ends true h k = h
if-ends false h k = k

module _ (xxh3_64 : Hash) (g : Graph) where
  nested-ends :
      (str_id : ℕ) (nesting : Option ℕ)
      → (name : Option ℕ) × (find_enclosing_namespace_name_id g nesting ≡ done name)
      → find_nested_declaration xxh3_64 g str_id nesting ≢ out_of_fuel
  unfolding find_nested_declaration find_member_declaration
  nested-ends str_id nesting (name, e) = ground (arith, e)

  member-ends :
      (str_id : ℕ) (name : Option ℕ) → find_member_declaration xxh3_64 g str_id name ≢ out_of_fuel
  unfolding find_member_declaration
  member-ends str_id name = ground arith

  singleton_member-ends :
      (str_id : ℕ) (owner : Option ℕ) → singleton_member g str_id owner ≢ out_of_fuel
  unfolding singleton_member
  singleton_member-ends str_id none = ground arith
  singleton_member-ends str_id (some owner) = ground arith

  self-ends :
      (lookup : ℕ → Checked (Option ℕ)) (self_id str_id : ℕ) (r : Checked (Option ℕ))
      → lookup self_id ≡ r
      → r ≢ out_of_fuel
      → find_self_receiver_declaration g lookup self_id str_id ≢ out_of_fuel
  unfolding find_self_receiver_declaration
  self-ends lookup self_id str_id (done owner) e ends = rw e (singleton_member-ends str_id owner)
  self-ends lookup self_id str_id panic e ends = ground (arith, e)
  self-ends lookup self_id str_id out_of_fuel e ends = absurd (ends refl)

  module _ (lookup : ℕ → Checked (Option ℕ)) (d : Definition)
      (walks : (name : Option ℕ) × (find_enclosing_namespace_name_id g
            (base_of d).lexical_nesting_id
          ≡ done name)) where
    method-ends :
        (str_id : ℕ) (receiver : Option Receiver)
        → ((self_id : ℕ) → self_of receiver ≡ some self_id → lookup self_id ≢ out_of_fuel)
        → method_declaration xxh3_64 g lookup str_id (base_of d).lexical_nesting_id receiver
          ≢ out_of_fuel
    unfolding method_declaration
    method-ends str_id (some (self_receiver id)) selves =
        self-ends lookup id str_id (lookup id) refl (selves id refl)
    method-ends str_id (some (constant_receiver name)) selves =
        nested-ends str_id (base_of d).lexical_nesting_id walks
    method-ends str_id none selves = nested-ends str_id (base_of d).lexical_nesting_id walks

    alias-ends :
        (str_id : ℕ) (receiver : Option Receiver)
        → ((self_id : ℕ) → self_of receiver ≡ some self_id → lookup self_id ≢ out_of_fuel)
        → alias_declaration xxh3_64 g lookup str_id (base_of d).lexical_nesting_id receiver
          ≢ out_of_fuel
    unfolding alias_declaration
    alias-ends str_id (some (self_receiver id)) selves =
        self-ends lookup id str_id (lookup id) refl (selves id refl)
    alias-ends str_id (some (constant_receiver name)) selves = member-ends str_id (some name)
    alias-ends str_id none selves = nested-ends str_id (base_of d).lexical_nesting_id walks

    visibility-ends :
        (str_id : ℕ) (receiver : Option ℕ)
        → visibility_declaration xxh3_64 g str_id (base_of d).lexical_nesting_id receiver
          ≢ out_of_fuel
    unfolding visibility_declaration
    visibility-ends str_id (some name) = member-ends str_id (some name)
    visibility-ends str_id none = nested-ends str_id (base_of d).lexical_nesting_id walks

  singleton-ends :
      (d : MethodVisibilityDefinition)
      → (name : Option ℕ) × (find_enclosing_namespace_name_id g d.base.lexical_nesting_id
          ≡ done name)
      → find_singleton_method_visibility_declaration xxh3_64 g d ≢ out_of_fuel
  unfolding find_singleton_method_visibility_declaration
  singleton-ends d (name, e) = ground (arith, e)

  definition-ends :
      (lookup : ℕ → Checked (Option ℕ)) (d : Definition)
      → (name : Option ℕ) × (find_enclosing_namespace_name_id g (base_of d).lexical_nesting_id
          ≡ done name)
      → ((self_id : ℕ) → self_definition d ≡ some self_id → lookup self_id ≢ out_of_fuel)
      → definition_to_declaration_id xxh3_64 g lookup d ≢ out_of_fuel
  unfolding definition_to_declaration_id
  definition-ends lookup (Definition.class d) walks selves = ground arith
  definition-ends lookup (Definition.singleton_class d) walks selves = ground arith
  definition-ends lookup (Definition.module_definition d) walks selves = ground arith
  definition-ends lookup (Definition.constant d) walks selves = ground arith
  definition-ends lookup (Definition.constant_alias d) walks selves = ground arith
  definition-ends lookup (Definition.constant_visibility d) walks selves =
      visibility-ends lookup (Definition.constant_visibility d) walks d.target d.receiver
  definition-ends lookup (Definition.method_visibility d) walks selves =
      if-ends d.base.flags.singleton_method_visibility (singleton-ends d walks)
        (nested-ends d.str_id d.base.lexical_nesting_id walks)
  definition-ends lookup (Definition.method d) walks selves =
      method-ends lookup (Definition.method d) walks d.str_id d.receiver selves
  definition-ends lookup (Definition.method_alias d) walks selves =
      alias-ends lookup (Definition.method_alias d) walks d.new_name_str_id d.receiver selves
  definition-ends lookup (Definition.attr_accessor d) walks selves =
      nested-ends d.str_id d.base.lexical_nesting_id walks
  definition-ends lookup (Definition.attr_reader d) walks selves =
      nested-ends d.str_id d.base.lexical_nesting_id walks
  definition-ends lookup (Definition.attr_writer d) walks selves =
      nested-ends d.str_id d.base.lexical_nesting_id walks
  definition-ends lookup (Definition.global_variable d) walks selves =
      nested-ends d.str_id d.base.lexical_nesting_id walks
  definition-ends lookup (Definition.instance_variable d) walks selves =
      nested-ends d.str_id d.base.lexical_nesting_id walks
  definition-ends lookup (Definition.class_variable d) walks selves =
      nested-ends d.str_id d.base.lexical_nesting_id walks
  definition-ends lookup (Definition.global_variable_alias d) walks selves =
      nested-ends d.new_name_str_id d.base.lexical_nesting_id walks

module _ (xxh3_64 : Hash) (g : Graph) (depth : ℕ → ℕ) (nested : IsNested g depth) where
  -- the walk from the nesting of a definition
  walk :
      (id : ℕ) (d : Definition) (nesting : Option ℕ)
      → get id g.definitions ≡ some d
      → (base_of d).lexical_nesting_id ≡ nesting
      → (name : Option ℕ) × (find_enclosing_namespace_name_id g nesting ≡ done name)
  unfolding find_enclosing_namespace_name_id
  walk id d none known up = (none, enclosing_loop-none (length g.definitions) g)
  walk id d (some outer) known up =
      let (o, there) = nested.present id outer d known up in
      let (name, runs, encloses) = find_enclosing-Encloses g depth nested outer o there in
      (name, runs)

  declaration_loop-ends :
      SelvesOutside g depth
      → (fuel id : ℕ) → depth id < fuel
      → declaration_loop xxh3_64 g fuel id ≢ out_of_fuel
  unfolding declaration_loop
  declaration_loop-ends selves zero id h = absurd (omega (arith, h))
  declaration_loop-ends selves (suc fuel) id h = elim (Option-cases (get id g.definitions)) [
    | inl gone ↦ ground (arith, gone)
    | inr (d, known) ↦
        rw (known, declaration_loop)
          (definition-ends xxh3_64 g (declaration_loop xxh3_64 g fuel) d
            (walk id d (base_of d).lexical_nesting_id known refl)
            λ self_id e.
              declaration_loop-ends selves fuel self_id
                (let less = selves id self_id d known e in omega (arith, h, less)))
  ]

  unknown :
      (fuel id : ℕ)
      → 0 < fuel
      → get id g.definitions ≡ none
      → declaration_loop xxh3_64 g fuel id ≢ out_of_fuel
  unfolding declaration_loop
  unknown zero id h gone = absurd (omega (arith, h))
  unknown (suc fuel) id h gone = ground (arith, gone)

  -- in a graph with a definition, the lookup ends, for definitions that it does not have, too
  pub definition_id_to_declaration_id-ends :
      SelvesOutside g depth
      → 0 < length g.definitions
      → (id : ℕ) → definition_id_to_declaration_id xxh3_64 g id ≢ out_of_fuel
  unfolding definition_id_to_declaration_id
  definition_id_to_declaration_id-ends selves some_there id =
      elim (Option-cases (get id g.definitions)) [
        | inr (d, known) ↦
            declaration_loop-ends selves (length g.definitions) id (nested.bounded id d known)
        | inl gone ↦ unknown (length g.definitions) id some_there gone
      ]
