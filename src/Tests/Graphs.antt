-- ===== src/Tests/Graphs.antt =====
-- Applications of the theorems on the graph's lookups and declarations.
use rubydex.Base.{
  ℕ, Option, none, some, List, [], ◌∷◌, ◌++◌, done, out_of_fuel, ◌≡◌, ◌≢◌, refl, arith, ◌==◌,
  Option-cases, Bool-cases, inl, inr, if◌then◌else◌, contains,
}
use rubydex.Base.Map.{get}
use rubydex.Model.Definition.{Definition, ConstantVisibilityDefinition}
use rubydex.Model.Declaration.{Declaration}
use rubydex.Model.Visibility.{is_private, is_public}
use rubydex.Graph.{Graph}
use rubydex.Graph.Lookup.{find_enclosing_namespace_name_id}
use rubydex.Graph.Lookup.Total.{SelvesOutside}
use rubydex.Graph.Lookup.Enclosing.{find_enclosing-Encloses, Encloses, IsNested}
use rubydex.Graph.Visibility.{visibility, definition_visibility}
use rubydex.Graph.Visibility.Latest.{visibility-latest, NoneSets}
use rubydex.Graph.Visibility.Ends.{visibility-ends, MethodsHoldMethods}
use rubydex.Tests.{
  hash, world, empty_graph, class_definition, method_named, simple, private_visibility,
}

visibility-latest_example :
    ((pre : List ℕ) (last : ℕ) (post : List ℕ) (v : ConstantVisibilityDefinition)
      → 109 ∷ 108 ∷ [] ≡ pre ++ last ∷ post
      → get last world.definitions ≡ some (Definition.constant_visibility v)
      → NoneSets world post
      → visibility hash world 1 8 ≡ done (some v.visibility))
    × (NoneSets world (109 ∷ 108 ∷ []) → visibility hash world 1 8 ≡ done (some is_public))
unfolding get
visibility-latest_example =
    visibility-latest hash world 0 8 (Declaration.constant (simple "P" (109 ∷ 108 ∷ []) 1)) refl
      refl

visibility_8 : visibility hash world 1 8 ≡ done (some is_private)
unfolding get
visibility_8 = visibility-latest_example.0 (109 ∷ []) 108 [] private_visibility refl refl tt

-- with the class around `Base#n`
abbrev nested_world : Graph
nested_world = record world { definitions = (102, class_definition 209 none) ∷ world.definitions }

nested_world-MethodsHoldMethods : MethodsHoldMethods nested_world
unfolding get contains definition_visibility
nested_world-MethodsHoldMethods id d def_id x known listed there plain =
    elim (Option-cases (definition_visibility x)) [
      | inr (v, e) ↦ (v, e)
      | inl silent ↦ absurd (ground arith)
    ]

abbrev world_depth : ℕ → ℕ
world_depth id = if id == 105 then 1 else (if id == 106 then 1 else (if id == 107 then 1 else 0))

nested_world-IsNested : IsNested nested_world world_depth
unfolding get
nested_world-IsNested = record {
  present = λ id outer d known up. elim (Bool-cases (outer == 101)) [
    | inl e ↦ (class_definition 201 none, ground (arith, e))
    | inr e ↦ (class_definition 209 none, ground (arith, e))
  ];
  deeper = λ id outer d known up. ground arith;
  bounded = λ id d known. ground arith;
}

nested_world-SelvesOutside : SelvesOutside nested_world world_depth
unfolding get
nested_world-SelvesOutside id self_id d known self = ground arith

visibility-ends_example : visibility hash nested_world 2 7 ≢ out_of_fuel
visibility-ends_example =
    visibility-ends hash nested_world nested_world-MethodsHoldMethods world_depth
      nested_world-IsNested nested_world-SelvesOutside 0 7

-- a method in a class
abbrev nest : Graph
nest = record empty_graph {
  definitions = (101, class_definition 201 none) ∷ (105, method_named 10 (some 101)) ∷ [];
}

abbrev depth : ℕ → ℕ
depth id = if id == 105 then 1 else 0

nest-IsNested : IsNested nest depth
unfolding get
nest-IsNested = record {
  present = λ id outer d known up. (class_definition 201 none, ground arith);
  deeper = λ id outer d known up. ground arith;
  bounded = λ id d known. ground arith;
}

find_enclosing-Encloses_example :
    (r : Option ℕ) × (find_enclosing_namespace_name_id nest (some 105) ≡ done r)
    × Encloses nest (some 105) r
unfolding get
find_enclosing-Encloses_example =
    find_enclosing-Encloses nest depth nest-IsNested 105 (method_named 10 (some 101)) refl
