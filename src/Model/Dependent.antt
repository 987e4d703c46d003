-- ===== src/Model/Dependent.antt =====
-- The reverse index from names to what depends on them: `NameDependent` of
-- rust/rubydex/src/model/graph.rs.
use rubydex.Base.{
  ℕ, Bool, true, false, ◌&&◌, ◌||◌, List, [], ◌∷◌, ◌++◌, ◌≡◌, refl, ◌==◌, if◌then◌else◌, arith,
  ==_refl,
}
use rubydex.Base.Map.{Map, get_or_default, push_at, get_or_default-push_at}

pub data NameDependent : Type 0 where
  definition reference child_name nested_name : ℕ → NameDependent

-- `PartialEq`
abbrev pub dependent_eq : NameDependent → NameDependent → Bool
dependent_eq (definition a) (definition b) = a == b
dependent_eq (reference a) (reference b) = a == b
dependent_eq (child_name a) (child_name b) = a == b
dependent_eq (nested_name a) (nested_name b) = a == b
dependent_eq _ _ = false

unfoldable pub has_dependent : NameDependent → List NameDependent → Bool
has_dependent d [] = false
has_dependent d (x ∷ xs) = dependent_eq x d || has_dependent d xs

-- `deps.retain(|d| *d != dependent)`
unfoldable pub without : NameDependent → List NameDependent → List NameDependent
without d [] = []
without d (x ∷ xs) = let rest = without d xs in if dependent_eq x d then rest else x ∷ rest

abbrev pub Dependents : Type 0
Dependents = Map (List NameDependent)

-- whether the index has the edge from the name to the dependent
abbrev pub has_edge : Dependents → ℕ → NameDependent → Bool
has_edge index name d = has_dependent d (get_or_default name index)

has_dependent-concat :
    (d x : NameDependent) (xs : List NameDependent)
    → has_dependent d (xs ++ x ∷ []) ≡ (dependent_eq x d || has_dependent d xs)
unfolding has_dependent
has_dependent-concat d x [] = refl
has_dependent-concat d x (y ∷ xs) = ground (arith, has_dependent-concat d x xs)

pub has_edge-push_at :
    (index : Dependents) (n name : ℕ) (x d : NameDependent)
    → has_edge (push_at n x index) name d
      ≡ ((n == name && dependent_eq x d) || has_edge index name d)
has_edge-push_at index n name x d = ground (
  arith,
  get_or_default-push_at n name x index,
  has_dependent-concat d x (get_or_default name index),
)

dependent_eq_refl : (d : NameDependent) → dependent_eq d d ≡ true
dependent_eq_refl (definition a) = ==_refl a
dependent_eq_refl (reference a) = ==_refl a
dependent_eq_refl (child_name a) = ==_refl a
dependent_eq_refl (nested_name a) = ==_refl a
