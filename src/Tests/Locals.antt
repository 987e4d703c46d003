-- ===== src/Tests/Locals.antt =====
-- Applications of the theorems on a document that is indexed, merged, changed and deleted.
use rubydex.Base.{
  ◌==◌, if◌then◌else◌, ℕ, suc, Bool, true, false, Option, none, some, List, [], ◌∷◌, ◌++◌, Checked,
  done, out_of_fuel, ◌≡◌, refl, contains,
}
use rubydex.Base.Map.{get, insert, remove}
use rubydex.Model.Ids.{Text, codes, id_from}
use rubydex.Model.Name
use rubydex.Model.Name.{NameRef, ParentScope, no_parent, name_id, unresolved, resolved}
use rubydex.Model.Reference.{ConstantReference, constant_reference_id}
use rubydex.Model.Definition.{Definition, Mixin, definition_id}
use rubydex.Model.Document
use rubydex.Model.Document.{Document}
use rubydex.LocalGraph
use rubydex.LocalGraph.{LocalGraph}
use rubydex.LocalGraph.Index.{IsIndexed}
use rubydex.LocalGraph.Run.{Call, run, run-IsIndexed}
use rubydex.Graph.{Graph}
use rubydex.Graph.Extend.{extend}
use rubydex.Graph.Extend.Laws.{extend-Merges, Merges, IsHashed}
use rubydex.Graph.Invalidate.Relation.{Untouched}
use rubydex.Graph.Worklist.{invalidate}
use rubydex.Graph.Worklist.Untouched.{invalidate-Untouched}
use rubydex.Graph.Remove.{delete_document, consume_document_changes}
use rubydex.Graph.Remove.Replace.{consume_document_changes-Replaces, Replaces}
use rubydex.Graph.Remove.Removes.{Without}
use rubydex.Graph.Remove.Exact.{delete_document-Removes}
use rubydex.Model.Declaration.{Declaration}
use rubydex.Model.Dependent.{NameDependent}
use rubydex.Tests.{hash, world, empty_graph, class_definition, nowhere, result_of, name_of, simple}

-- `class A; end` and a use of `A`, a mixin and a member of the class
abbrev uri : Text
uri = codes "a.rb"

abbrev a_str : ℕ
a_str = id_from hash (codes "A")

abbrev a_name : ℕ
a_name = name_id hash (Name.new a_str no_parent none)

abbrev a_reference : ConstantReference
a_reference = record { name_id = a_name; uri_id = id_from hash uri; offset = nowhere }

abbrev a_class : Definition
a_class = class_definition a_name none

abbrev calls : List Call
calls =
    Call.interns (codes "A")
    ∷ Call.names (Name.new a_str no_parent none)
    ∷ Call.defines a_class
    ∷ Call.refers a_reference
    ∷ Call.gains_mixin (definition_id hash a_class)
        (Mixin.includes (constant_reference_id hash a_reference))
    ∷ Call.gains_member (definition_id hash a_class) 7
    ∷ []

abbrev indexed : LocalGraph
indexed =
    result_of (LocalGraph.new 0 (Document.new []))
      (run hash calls (LocalGraph.new (id_from hash uri) (Document.new uri)))

run-IsIndexed_example : IsIndexed indexed
unfolding run rubydex.LocalGraph.Run.step LocalGraph.intern_string get LocalGraph.new
    LocalGraph.add_name LocalGraph.add_definition Document.add_definition contains Document.new
    LocalGraph.add_constant_reference LocalGraph.get_definition_mut
    rubydex.Model.Definition.add_member rubydex.Model.Definition.add_mixin insert definition_id
    id_from rubydex.Model.Ids.decimal rubydex.Model.Definition.key_text name_id Name.name_text
    Name.new
run-IsIndexed_example = run-IsIndexed hash (id_from hash uri) uri calls refl

abbrev uri_id : ℕ
uri_id = id_from hash uri

abbrev document : Document
document = record {
  uri = uri;
  definition_ids = 111 ∷ [];
  method_reference_ids = 411 ∷ [];
  constant_reference_ids = 311 ∷ [];
  diagnostics = [];
}

-- the class `A` again, a call and a use of `A`
abbrev local : LocalGraph
local = record {
  uri_id = uri_id;
  document = document;
  definitions = (111, class_definition 201 none) ∷ [];
  strings = (21, record { value = codes "m"; ref_count = 1 }) ∷ [];
  names = (201, unresolved (record (name_of 14 none) { ref_count = 2 })) ∷ [];
  constant_references = (311, record { name_id = 201; uri_id = uri_id; offset = nowhere }) ∷ [];
  method_references =
      (411, record { str = 21; uri_id = uri_id; offset = nowhere; receiver = none }) ∷ [];
  name_dependents = (201, NameDependent.definition 111 ∷ NameDependent.reference 311 ∷ []) ∷ [];
}

local-IsHashed : IsHashed local
unfolding get
local-IsHashed = record { strings = (refl, tt); names = (refl, tt); name_dependents = (refl, tt) }

abbrev merged : Graph
merged = result_of empty_graph (extend local world)

extend-Merges_example : Merges local world merged
unfolding extend rubydex.Graph.Extend.insert_new get rubydex.Graph.Extend.merge_strings
    rubydex.Graph.Extend.merge_string rubydex.Graph.Extend.merge_names
    rubydex.Graph.Extend.merge_name Name.name_eq Name.increment_ref_count
    rubydex.Graph.Extend.insert_all
extend-Merges_example = extend-Merges local world merged local-IsHashed refl

-- the graph after the merge
abbrev present : Graph
present = record world {
  documents = (uri_id, document) ∷ [];
  definitions = (111, class_definition 201 none) ∷ [];
  strings = local.strings;
  names =
      (
        201,
        resolved (record { name = record (name_of 14 none) { ref_count = 3 }; declaration_id = 1 }),
      )
      ∷ [];
  constant_references = local.constant_references;
  method_references = local.method_references;
  name_dependents = local.name_dependents;
  declarations =
      (1, Declaration.constant (record (simple "A" (111 ∷ 101 ∷ []) 1) { references = 311 ∷ [] }))
      ∷ [];
}

abbrev invalidated : Graph
invalidated = result_of empty_graph (invalidate hash 9 (some document) none present)

invalidate-Untouched_example : Untouched present invalidated
unfolding invalidate get rubydex.Base.for_each rubydex.Graph.Lookup.definition_id_to_declaration_id
    rubydex.Graph.Lookup.declaration_loop rubydex.Graph.Lookup.definition_to_declaration_id
    rubydex.Base.fold rubydex.Graph.Names.name_id_to_declaration_id rubydex.Base.Map.push_at insert
    rubydex.Graph.Worklist.invalidate_graph rubydex.Graph.Worklist.invalidate_item
    rubydex.Graph.Worklist.invalidate_declaration rubydex.Graph.Worklist.detach_definitions
    rubydex.Base.Map.adjust rubydex.Model.Declaration.has_no_definitions
    rubydex.Model.Declaration.clear_diagnostics rubydex.Model.Declaration.remove_definition contains
    rubydex.Base.set_insert rubydex.Base.set_remove remove
    rubydex.Graph.Invalidate.adjust_declaration rubydex.Graph.Invalidate.is_resolved
    rubydex.Graph.Invalidate.names_for_declaration
    rubydex.Graph.Invalidate.queue_ancestor_triggered_invalidation
    rubydex.Graph.Invalidate.queue_structural_cascade rubydex.Graph.Names.push_work
    rubydex.Graph.Names.unresolve_name rubydex.Graph.Worklist.update_declaration
    rubydex.Graph.Worklist.remove_declaration rubydex.Graph.Worklist.leave_owner
    rubydex.Graph.Worklist.unresolve_seed rubydex.Model.Declaration.constant_references
    rubydex.Model.Declaration.on_namespace rubydex.Model.Declaration.remove_constant_reference
    rubydex.Model.Declaration.swap_remove rubydex.Model.Declaration.split_last id_from
    rubydex.Model.Ids.to_non_zero
invalidate-Untouched_example =
    invalidate-Untouched hash 9 (some document) none present invalidated refl

abbrev deleted : Graph × Option ℕ
deleted = result_of (empty_graph, none) (delete_document hash 9 uri present)

delete_document-Removes_example :
    (deleted.1 ≡ some uri_id)
    × (deleted.0.documents ≡ remove uri_id present.documents)
    × Without (411 ∷ []) present.method_references deleted.0.method_references
    × Without (311 ∷ []) present.constant_references deleted.0.constant_references
    × Without (111 ∷ []) present.definitions deleted.0.definitions
unfolding delete_document invalidate get rubydex.Base.for_each
    rubydex.Graph.Lookup.definition_id_to_declaration_id rubydex.Graph.Lookup.declaration_loop
    rubydex.Graph.Lookup.definition_to_declaration_id rubydex.Base.fold
    rubydex.Graph.Names.name_id_to_declaration_id rubydex.Base.Map.push_at insert
    rubydex.Graph.Worklist.invalidate_graph rubydex.Graph.Worklist.invalidate_item
    rubydex.Graph.Worklist.invalidate_declaration rubydex.Graph.Worklist.detach_definitions
    rubydex.Base.Map.adjust rubydex.Model.Declaration.has_no_definitions
    rubydex.Model.Declaration.clear_diagnostics rubydex.Model.Declaration.remove_definition contains
    rubydex.Base.set_insert rubydex.Base.set_remove remove
    rubydex.Graph.Invalidate.adjust_declaration rubydex.Graph.Invalidate.is_resolved
    rubydex.Graph.Invalidate.names_for_declaration
    rubydex.Graph.Invalidate.queue_ancestor_triggered_invalidation
    rubydex.Graph.Invalidate.queue_structural_cascade rubydex.Graph.Names.push_work
    rubydex.Graph.Names.unresolve_name rubydex.Graph.Worklist.update_declaration
    rubydex.Graph.Worklist.remove_declaration rubydex.Graph.Worklist.leave_owner
    rubydex.Graph.Worklist.unresolve_seed rubydex.Model.Declaration.constant_references
    rubydex.Model.Declaration.on_namespace rubydex.Model.Declaration.remove_constant_reference
    rubydex.Model.Declaration.swap_remove rubydex.Model.Declaration.split_last id_from
    rubydex.Model.Ids.to_non_zero rubydex.Graph.Counts.drop_dependent
    rubydex.Graph.Counts.remove_name_dependent rubydex.Graph.Counts.untrack_name
    rubydex.Graph.Counts.untrack_string rubydex.Graph.Counts.untrack_definition_strings
    rubydex.Graph.Counts.remove_name rubydex.Graph.Counts.drop_name_edges
    rubydex.Graph.Remove.remove_document_data rubydex.Graph.Remove.remove_method_reference
    rubydex.Graph.Remove.remove_constant_reference rubydex.Graph.Remove.remove_definition
    rubydex.Model.Dependent.without rubydex.Model.Name.decrement_ref_count
    rubydex.Model.StringRef.decrement_ref_count rubydex.Model.Name.parent_id
delete_document-Removes_example =
    delete_document-Removes hash 9 uri present deleted.0 document deleted.1 refl refl

-- the same document is indexed again
abbrev consumed : Graph
consumed = result_of empty_graph (consume_document_changes hash 9 local present)

consume_document_changes-Replaces_example :
    ((k : ℕ)
      → get k consumed.documents ≡ (if uri_id == k then some document else get k present.documents))
    × Replaces (111 ∷ []) local.definitions present.definitions consumed.definitions
    × Replaces
        (311 ∷ [])
        local.constant_references
        present.constant_references
        consumed.constant_references
    × Replaces
        (411 ∷ [])
        local.method_references
        present.method_references
        consumed.method_references
unfolding consume_document_changes rubydex.Graph.Remove.make_room invalidate get
    rubydex.Base.for_each rubydex.Graph.Lookup.definition_id_to_declaration_id
    rubydex.Graph.Lookup.declaration_loop rubydex.Graph.Lookup.definition_to_declaration_id
    rubydex.Base.fold rubydex.Graph.Names.name_id_to_declaration_id rubydex.Base.Map.push_at insert
    rubydex.Graph.Worklist.invalidate_graph rubydex.Graph.Worklist.invalidate_item
    rubydex.Graph.Worklist.invalidate_declaration rubydex.Graph.Worklist.detach_definitions
    rubydex.Base.Map.adjust rubydex.Model.Declaration.has_no_definitions
    rubydex.Model.Declaration.clear_diagnostics rubydex.Model.Declaration.remove_definition contains
    rubydex.Base.set_insert rubydex.Base.set_remove remove
    rubydex.Graph.Invalidate.adjust_declaration rubydex.Graph.Invalidate.is_resolved
    rubydex.Graph.Invalidate.names_for_declaration
    rubydex.Graph.Invalidate.queue_ancestor_triggered_invalidation
    rubydex.Graph.Invalidate.queue_structural_cascade rubydex.Graph.Names.push_work
    rubydex.Graph.Names.unresolve_name rubydex.Graph.Worklist.update_declaration
    rubydex.Graph.Worklist.remove_declaration rubydex.Graph.Worklist.leave_owner
    rubydex.Graph.Worklist.unresolve_seed rubydex.Model.Declaration.constant_references
    rubydex.Model.Declaration.on_namespace rubydex.Model.Declaration.remove_constant_reference
    rubydex.Model.Declaration.swap_remove rubydex.Model.Declaration.split_last id_from
    rubydex.Model.Ids.to_non_zero rubydex.Graph.Counts.drop_dependent
    rubydex.Graph.Counts.remove_name_dependent rubydex.Graph.Counts.untrack_name
    rubydex.Graph.Counts.untrack_string rubydex.Graph.Counts.untrack_definition_strings
    rubydex.Graph.Counts.remove_name rubydex.Graph.Counts.drop_name_edges
    rubydex.Graph.Remove.remove_document_data rubydex.Graph.Remove.remove_method_reference
    rubydex.Graph.Remove.remove_constant_reference rubydex.Graph.Remove.remove_definition
    rubydex.Model.Dependent.without rubydex.Model.Name.decrement_ref_count
    rubydex.Model.StringRef.decrement_ref_count rubydex.Model.Name.parent_id extend
    rubydex.Graph.Extend.insert_new rubydex.Graph.Extend.merge_strings
    rubydex.Graph.Extend.merge_string rubydex.Graph.Extend.merge_names
    rubydex.Graph.Extend.merge_name Name.name_eq Name.increment_ref_count
    rubydex.Graph.Extend.insert_all
consume_document_changes-Replaces_example =
    consume_document_changes-Replaces hash 9 local present consumed document local-IsHashed refl
      refl
