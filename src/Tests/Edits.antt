-- ===== src/Tests/Edits.antt =====
-- Applications of the theorems on changes of the graph.
use rubydex.Base.{
  true, ◌&&◌, ◌+◌, if◌then◌else◌, count, ℕ, false, Option, none, some, [], ◌∷◌, done, ◌≡◌, refl,
  arith, ◌==◌, contains,
}
use rubydex.Base.Map.{get}
use rubydex.Model.Ids.{Text, codes, id_from}
use rubydex.Model.StringRef.{StringRef}
use rubydex.Model.Name.{unresolved}
use rubydex.Model.Reference.{ConstantReference}
use rubydex.Model.Declaration
use rubydex.Model.Declaration.{Declaration, Namespace, base_of, new_namespace}
use rubydex.Graph.{Graph}
use rubydex.Graph.Declarations.{promote_constant_to_namespace, add_declaration}
use rubydex.Graph.Declarations.Add.{promote-Absorbs, add_declaration-Keeps, Absorbs, Keeps}
use rubydex.Graph.Names.{
  record_resolved_name, unresolve_name, unresolve_reference, name_id_to_declaration_id,
}
use rubydex.Graph.Names.Resolution.{
  record_resolved_name_lem, unresolve_name-record_resolved_name, unresolve_reference_lem,
}
use rubydex.Graph.Counts.{intern_string, untrack_string}
use rubydex.Graph.Counts.RoundTrip.{untrack_string-intern_string, StringsCounted}
use rubydex.Model.Declaration.{definitions}
use rubydex.Model.Declaration.Detach.{remove_definition_lem, remove_definition-add_definition}
use rubydex.Tests.{hash, world, empty_graph, simple, nowhere, name_of, result_of}

abbrev class_at : Text → ℕ → Declaration
class_at name owner = Declaration.namespace (Namespace.class (new_namespace name owner))

-- the constant `P` becomes a class
abbrev promoted : Graph
promoted = result_of empty_graph (promote_constant_to_namespace 8 class_at world)

promote-Absorbs_example :
    (new : Declaration) × (get 8 promoted.declarations ≡ some new)
    × Absorbs (Declaration.constant (simple "P" (109 ∷ 108 ∷ []) 1)) (class_at (codes "P") 1) new
    × ((k : ℕ) → (8 == k) ≡ false → get k promoted.declarations ≡ get k world.declarations)
unfolding promote_constant_to_namespace get rubydex.Graph.Declarations.absorb Declaration.extend
    Declaration.extend_declaration
promote-Absorbs_example =
    promote-Absorbs 8 class_at world promoted (Declaration.constant (simple "P" (109 ∷ 108 ∷ []) 1))
      refl refl

-- a promotable constant, and a class definition with its name
abbrev p_id : ℕ
p_id = id_from hash (codes "P")

abbrev with_constant : Graph
with_constant = record world {
  declarations = (p_id, Declaration.constant (simple "P" (109 ∷ []) 1)) ∷ [];
}

abbrev added : Graph × ℕ
added =
    result_of (empty_graph, 0)
      (add_declaration hash 101 (codes "P") (λ name. class_at name 1) with_constant)

add_declaration-Keeps_example :
    (id_from hash (codes "P") ≡ added.1)
    × ((d : Declaration) × (get added.1 added.0.declarations ≡ some d)
        × Keeps 101 (Declaration.constant (simple "P" (109 ∷ []) 1)) d)
    × ((k : ℕ)
        → (added.1 == k) ≡ false
        → get k added.0.declarations ≡ get k with_constant.declarations)
unfolding add_declaration get id_from rubydex.Graph.Declarations.declare rubydex.Model.Ids.text_eq
    rubydex.Graph.Declarations.promote_if rubydex.Graph.Declarations.is_namespace_definition
    rubydex.Graph.Declarations.is_promotable_declaration
    rubydex.Graph.Declarations.all_definitions_promotable
    rubydex.Graph.Declarations.is_promotable_definition rubydex.Graph.Declarations.absorb
    Declaration.extend Declaration.extend_declaration Declaration.add_definition contains
    new_namespace
add_declaration-Keeps_example =
    add_declaration-Keeps hash 101 (codes "P") (λ name. class_at name 1) with_constant added.0
      added.1 (Declaration.constant (simple "P" (109 ∷ []) 1)) refl refl

record_resolved_name_lem_example :
    (g' : Graph) × (record_resolved_name 208 8 world ≡ done g')
    × (name_id_to_declaration_id g' 208 ≡ some 8)
    × ((k : ℕ)
        → (208 == k) ≡ false
        → name_id_to_declaration_id g' k ≡ name_id_to_declaration_id world k)
unfolding get name_id_to_declaration_id
record_resolved_name_lem_example =
    record_resolved_name_lem 208 8 world (unresolved (name_of 13 none)) refl

abbrev recorded : Graph
recorded = result_of empty_graph (record_resolved_name 208 8 world)

unresolve_name-record_resolved_name_example :
    ((unresolve_name 208 recorded).1 ≡ some 8)
    × ((k : ℕ) → get k (unresolve_name 208 recorded).0.names ≡ get k world.names)
unfolding get record_resolved_name
unresolve_name-record_resolved_name_example =
    unresolve_name-record_resolved_name 208 8 world recorded (name_of 13 none) refl refl

abbrev reference_to_a : ConstantReference
reference_to_a = record { name_id = 201; uri_id = 900; offset = nowhere }

abbrev referring : Graph
referring = record world {
  constant_references = (301, reference_to_a) ∷ [];
  declarations =
      (1, Declaration.constant (record (simple "A" (101 ∷ []) 1) { references = 301 ∷ [] })) ∷ [];
}

abbrev unreferred : Graph × Option ℕ
unreferred = result_of (empty_graph, none) (unresolve_reference 301 referring)

unresolve_reference_lem_example :
    (unreferred.1 ≡ some 1)
    × ((d : Declaration) × (get 1 unreferred.0.declarations ≡ some d)
        × (contains (base_of d).references 301 ≡ false))
    × (get 201 unreferred.0.names ≡ some (unresolved (name_of 14 none)))
unfolding get unresolve_reference unresolve_name Declaration.remove_constant_reference
unresolve_reference_lem_example =
    unresolve_reference_lem 301 referring unreferred.0 reference_to_a
      (record { name = name_of 14 none; declaration_id = 1 }) unreferred.1 refl refl refl

abbrev with_string : Graph
with_string = record empty_graph {
  strings = (id_from hash (codes "a"), record { value = codes "a"; ref_count = 2 }) ∷ [];
}

with_string-StringsCounted : StringsCounted with_string
unfolding get
with_string-StringsCounted id s known = ground arith

abbrev interned : Graph × ℕ
interned = result_of (empty_graph, 0) (intern_string hash (codes "a") with_string)

untrack_string-intern_string_example :
    (g'' : Graph) × (untrack_string interned.1 interned.0 ≡ done g'')
    × ((k : ℕ) → get k g''.strings ≡ get k with_string.strings)
unfolding intern_string get id_from rubydex.Model.StringRef.increment_ref_count
untrack_string-intern_string_example =
    untrack_string-intern_string hash (codes "a") with_string interned.0 interned.1
      with_string-StringsCounted refl

-- the constant `P` with three definitions, and with a fourth
abbrev p_declaration : Declaration
p_declaration = Declaration.constant (simple "P" (109 ∷ 108 ∷ 107 ∷ []) 1)

abbrev p_more : Declaration
p_more = result_of p_declaration (Declaration.add_definition 110 p_declaration)

remove_definition_lem_example :
    ((Declaration.remove_definition 109 p_declaration).1 ≡ true)
    × ((a : ℕ)
        → count a (definitions (Declaration.remove_definition 109 p_declaration).0)
            + (if 109 == a && true then 1 else 0)
          ≡ count a (109 ∷ 108 ∷ 107 ∷ []))
    × (record (base_of (Declaration.remove_definition 109 p_declaration).0) {
      definition_ids = 109 ∷ 108 ∷ 107 ∷ [];
    }
        ≡ base_of p_declaration)
unfolding contains
remove_definition_lem_example = remove_definition_lem 109 p_declaration

remove_definition-add_definition_example :
    (contains (109 ∷ 108 ∷ 107 ∷ []) 110 ≡ false)
    × (definitions p_more ≡ 109 ∷ 108 ∷ 107 ∷ 110 ∷ [])
    × (definitions (Declaration.remove_definition 110 p_more).0 ≡ 109 ∷ 108 ∷ 107 ∷ [])
unfolding contains Declaration.add_definition
remove_definition-add_definition_example =
    remove_definition-add_definition 110 p_declaration p_more refl
