-- ===== src/LocalGraph/Entries.antt =====
-- A new or changed entry of a map, with its edges, keeps a local graph indexed.
use rubydex.Base.{
  ℕ, false, ◌&&◌, ◌||◌, some, [], ◌∷◌, ◌++◌, ◌≡◌, arith, ◌==◌, Bool-cases, inl, inr, subst, ap,
}
use rubydex.Base.Map.{Map, get, insert, contains_key, get-insert}
use rubydex.Model.StringRef.{StringRef}
use rubydex.Model.Name.{Name, NameRef, parent_id, unresolved, resolved, with_ref_count}
use rubydex.Model.Reference.{ConstantReference, MethodRef}
use rubydex.Model.Definition.{Definition, name_id_of}
use rubydex.Model.Dependent.{
  NameDependent, definition, reference, child_name, nested_name, has_edge, dependent_eq,
}
use rubydex.LocalGraph.{LocalGraph, push_dependent}
use rubydex.LocalGraph.Index.{is_id, IsIndexed, has_edge-push_dependent, contains-concat}

-- The states after the operations that add an entry.
abbrev pub after_definition : ℕ → Definition → LocalGraph → LocalGraph
after_definition id d g = record g {
  name_dependents = push_dependent (name_id_of d) (definition id) g.name_dependents;
  definitions = insert id d g.definitions;
  document = record (g.document) { definition_ids = g.document.definition_ids ++ id ∷ [] };
}

abbrev pub after_name : ℕ → Name → LocalGraph → LocalGraph
after_name id name g = record g {
  name_dependents =
      push_dependent name.nesting (nested_name id)
        (push_dependent (parent_id name.parent_scope) (child_name id) g.name_dependents);
  names = insert id (unresolved name) g.names;
}

abbrev pub after_reference : ℕ → ConstantReference → LocalGraph → LocalGraph
after_reference id r g = record g {
  name_dependents = push_dependent (some r.name_id) (reference id) g.name_dependents;
  constant_references = insert id r g.constant_references;
  document = record (g.document) {
    constant_reference_ids = g.document.constant_reference_ids ++ id ∷ [];
  };
}

module _ (g : LocalGraph) (h : IsIndexed g) (id : ℕ) where
  pub after_definition-IsIndexed :
      (d : Definition) → contains_key id g.definitions ≡ false → IsIndexed (after_definition id d g)
  after_definition-IsIndexed d fresh = record {
    definition_edges = λ j n. ground (
      arith,
      has_edge-push_dependent g.name_dependents (name_id_of d) n (definition id) (definition j),
      get-insert id j d g.definitions,
      h.definition_edges j n,
    );
    reference_edges = λ j n. ground (
      arith,
      has_edge-push_dependent g.name_dependents (name_id_of d) n (definition id) (reference j),
      h.reference_edges j n,
    );
    child_edges = λ j n. ground (
      arith,
      has_edge-push_dependent g.name_dependents (name_id_of d) n (definition id) (child_name j),
      h.child_edges j n,
    );
    nested_edges = λ j n. ground (
      arith,
      has_edge-push_dependent g.name_dependents (name_id_of d) n (definition id) (nested_name j),
      h.nested_edges j n,
    );
    document_definitions = λ j. ground (
      arith,
      contains-concat g.document.definition_ids id j,
      get-insert id j d g.definitions,
      h.document_definitions j,
    );
    document_references = h.document_references;
    document_method_references = h.document_method_references;
  }

  pub after_reference-IsIndexed :
      (r : ConstantReference)
      → contains_key id g.constant_references ≡ false
      → IsIndexed (after_reference id r g)
  after_reference-IsIndexed r fresh = record {
    definition_edges = λ j n. ground (
      arith,
      has_edge-push_dependent g.name_dependents (some r.name_id) n (reference id) (definition j),
      h.definition_edges j n,
    );
    reference_edges = λ j n. ground (
      arith,
      has_edge-push_dependent g.name_dependents (some r.name_id) n (reference id) (reference j),
      get-insert id j r g.constant_references,
      h.reference_edges j n,
    );
    child_edges = λ j n. ground (
      arith,
      has_edge-push_dependent g.name_dependents (some r.name_id) n (reference id) (child_name j),
      h.child_edges j n,
    );
    nested_edges = λ j n. ground (
      arith,
      has_edge-push_dependent g.name_dependents (some r.name_id) n (reference id) (nested_name j),
      h.nested_edges j n,
    );
    document_definitions = h.document_definitions;
    document_references = λ j. ground (
      arith,
      contains-concat g.document.constant_reference_ids id j,
      get-insert id j r g.constant_references,
      h.document_references j,
    );
    document_method_references = h.document_method_references;
  }

  -- the two edges of a new name, at once
  after_name-edges :
      (name : Name) (d : NameDependent) (n : ℕ)
      → has_edge (after_name id name g).name_dependents n d ≡ (
          (is_id n name.nesting && dependent_eq (nested_name id) d)
          || ((is_id n (parent_id name.parent_scope) && dependent_eq (child_name id) d)
              || has_edge g.name_dependents n d))
  after_name-edges name d n = rw (has_edge-push_dependent, has_edge-push_dependent)

  pub after_name-IsIndexed :
      (name : Name) → contains_key id g.names ≡ false → IsIndexed (after_name id name g)
  after_name-IsIndexed name fresh = record {
    definition_edges =
        λ j n. ground (arith, after_name-edges name (definition j) n, h.definition_edges j n);
    reference_edges =
        λ j n. ground (arith, after_name-edges name (reference j) n, h.reference_edges j n);
    child_edges = λ j n. ground (
      arith,
      after_name-edges name (child_name j) n,
      get-insert id j (unresolved name) g.names,
      h.child_edges j n,
    );
    nested_edges = λ j n. ground (
      arith,
      after_name-edges name (nested_name j) n,
      get-insert id j (unresolved name) g.names,
      h.nested_edges j n,
    );
    document_definitions = h.document_definitions;
    document_references = h.document_references;
    document_method_references = h.document_method_references;
  }

  -- another use of a name that is there
  pub recount-IsIndexed :
      (r : NameRef) (c : ℕ)
      → get id g.names ≡ some r
      → IsIndexed (record g { names = insert id (with_ref_count r c) g.names })
  recount-IsIndexed (unresolved r) c e = record {
    definition_edges = h.definition_edges;
    reference_edges = h.reference_edges;
    document_definitions = h.document_definitions;
    document_references = h.document_references;
    document_method_references = h.document_method_references;
    child_edges = λ j n.
        ground
          (arith, get-insert id j (with_ref_count (unresolved r) c) g.names, h.child_edges j n);
    nested_edges = λ j n.
        ground
          (arith, get-insert id j (with_ref_count (unresolved r) c) g.names, h.nested_edges j n);
  }
  recount-IsIndexed (resolved r) c e = record {
    definition_edges = h.definition_edges;
    reference_edges = h.reference_edges;
    document_definitions = h.document_definitions;
    document_references = h.document_references;
    document_method_references = h.document_method_references;
    child_edges = λ j n.
        ground (arith, get-insert id j (with_ref_count (resolved r) c) g.names, h.child_edges j n);
    nested_edges = λ j n.
        ground (arith, get-insert id j (with_ref_count (resolved r) c) g.names, h.nested_edges j n);
  }

  pub after_method_reference-IsIndexed :
      (r : MethodRef)
      → contains_key id g.method_references ≡ false
      → IsIndexed (record g {
        method_references = insert id r g.method_references;
        document = record (g.document) {
          method_reference_ids = g.document.method_reference_ids ++ id ∷ [];
        };
      })
  after_method_reference-IsIndexed r fresh = record {
    definition_edges = h.definition_edges;
    reference_edges = h.reference_edges;
    child_edges = h.child_edges;
    nested_edges = h.nested_edges;
    document_definitions = h.document_definitions;
    document_references = h.document_references;
    document_method_references = λ j. ground (
      arith,
      contains-concat g.document.method_reference_ids id j,
      get-insert id j r g.method_references,
      h.document_method_references j,
    );
  }

  -- another definition with the same name in the place of one that is there
  pub replace_definition-IsIndexed :
      (d d' : Definition)
      → get id g.definitions ≡ some d
      → name_id_of d' ≡ name_id_of d
      → IsIndexed (record g { definitions = insert id d' g.definitions })
  replace_definition-IsIndexed d d' e same = record {
    reference_edges = h.reference_edges;
    child_edges = h.child_edges;
    nested_edges = h.nested_edges;
    document_references = h.document_references;
    document_method_references = h.document_method_references;
    definition_edges = λ j n.
        let was = h.definition_edges j n in
        elim (Bool-cases (id == j)) [
          | inl here ↦
              let at : id ≡ j = ground (arith, here) in
              let known : get j g.definitions ≡ some d =
                subst (λ i. get i g.definitions ≡ some d) at e in
              let name : is_id n (name_id_of d') ≡ is_id n (name_id_of d) = ap (is_id n) same in
              ground (arith, was, known, name, get-insert id j d' g.definitions, here)
          | inr other ↦ ground (arith, was, get-insert id j d' g.definitions, other)
        ];
    document_definitions = λ j.
        let was = h.document_definitions j in
        elim (Bool-cases (id == j)) [
          | inl here ↦
              let at : id ≡ j = ground (arith, here) in
              let known : get j g.definitions ≡ some d =
                subst (λ i. get i g.definitions ≡ some d) at e in
              ground (arith, was, known, get-insert id j d' g.definitions, here)
          | inr other ↦ ground (arith, was, get-insert id j d' g.definitions, other)
        ];
  }

pub strings-IsIndexed :
    (g : LocalGraph) → IsIndexed g → (m : Map StringRef) → IsIndexed (record g { strings = m })
strings-IsIndexed g h m = record {
  definition_edges = h.definition_edges;
  reference_edges = h.reference_edges;
  child_edges = h.child_edges;
  nested_edges = h.nested_edges;
  document_definitions = h.document_definitions;
  document_references = h.document_references;
  document_method_references = h.document_method_references;
}
