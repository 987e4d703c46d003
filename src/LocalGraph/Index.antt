-- ===== src/LocalGraph/Index.antt =====
-- The reverse index and the document of a local graph agree with its maps.
use rubydex.Base.{
  ℕ, Bool, false, ◌&&◌, ◌||◌, Option, none, some, List, [], ◌∷◌, ◌++◌, ◌≡◌, refl, arith, ◌==◌,
  contains, contains-append,
}
use rubydex.Base.Map.{Map, get, contains_key}
use rubydex.Model.Name.{NameRef, parent_id, inner}
use rubydex.Model.Reference.{ConstantReference}
use rubydex.Model.Definition.{Definition, name_id_of}
use rubydex.Model.Dependent.{
  NameDependent, Dependents, definition, reference, child_name, nested_name, has_edge,
  has_edge-push_at, dependent_eq,
}
use rubydex.LocalGraph.{LocalGraph, push_dependent}

abbrev pub is_id : ℕ → Option ℕ → Bool
is_id n none = false
is_id n (some a) = a == n

-- whether the definition has the name
abbrev pub defines : Map Definition → ℕ → ℕ → Bool
defines definitions id n = elim (get id definitions) [
  | none ↦ false
  | some d ↦ is_id n (name_id_of d)
]

-- whether the constant reference has the name
abbrev pub refers : Map ConstantReference → ℕ → ℕ → Bool
refers references id n = elim (get id references) [ none ↦ false | some r ↦ r.name_id == n ]

-- whether the name has the other for its parent scope, for its nesting
abbrev pub has_parent : Map NameRef → ℕ → ℕ → Bool
has_parent names id n = elim (get id names) [
  | none ↦ false
  | some r ↦ is_id n (parent_id (inner r).parent_scope)
]

abbrev pub has_nesting : Map NameRef → ℕ → ℕ → Bool
has_nesting names id n = elim (get id names) [ none ↦ false | some r ↦ is_id n (inner r).nesting ]

pub record IsIndexed (g : LocalGraph) : Type 0 where
  pub definition_edges :
      (id n : ℕ) → has_edge g.name_dependents n (definition id) ≡ defines g.definitions id n
  pub reference_edges :
      (id n : ℕ) → has_edge g.name_dependents n (reference id) ≡ refers g.constant_references id n
  pub child_edges :
      (id n : ℕ) → has_edge g.name_dependents n (child_name id) ≡ has_parent g.names id n
  pub nested_edges :
      (id n : ℕ) → has_edge g.name_dependents n (nested_name id) ≡ has_nesting g.names id n
  pub document_definitions :
      (id : ℕ) → contains g.document.definition_ids id ≡ contains_key id g.definitions
  pub document_references :
      (id : ℕ)
      → contains g.document.constant_reference_ids id ≡ contains_key id g.constant_references
  pub document_method_references :
      (id : ℕ) → contains g.document.method_reference_ids id ≡ contains_key id g.method_references

pub has_edge-push_dependent :
    (index : Dependents) (o : Option ℕ) (name : ℕ) (x d : NameDependent)
    → has_edge (push_dependent o x index) name d
      ≡ ((is_id name o && dependent_eq x d) || has_edge index name d)
unfolding push_dependent
has_edge-push_dependent index none name x d = refl
has_edge-push_dependent index (some n) name x d = has_edge-push_at index n name x d

pub contains-concat :
    (xs : List ℕ) (x a : ℕ) → contains (xs ++ x ∷ []) a ≡ (x == a || contains xs a)
unfolding contains
contains-concat xs x a = ground (arith, contains-append xs (x ∷ []) a)
