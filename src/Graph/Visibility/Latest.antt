-- ===== src/Graph/Visibility/Latest.antt =====
-- The latest definition wins.
use mathlib.Core.List.{reverse, reverse-append, append_assoc, append-nil}
use rubydex.Base.{
  ℕ, suc, Bool, true, false, some, List, [], ◌∷◌, ◌++◌, done, ◌≡◌, refl, arith, All, ap, subst,
}
use rubydex.Base.Map.{get}
use rubydex.Model.Ids.{Hash}
use rubydex.Model.Visibility.{is_public}
use rubydex.Model.Definition.{Definition, ConstantVisibilityDefinition}
use rubydex.Model.Declaration.{base_of, Declaration, Namespace}
use rubydex.Graph.{Graph}
use rubydex.Graph.Visibility.{constant_visibility_in, visibility_of, visibility}

-- whether the definition makes a constant private or public
abbrev pub sets_visibility : Graph → ℕ → Bool
sets_visibility g id = elim (get id g.definitions) [
  | some (Definition.constant_visibility d) ↦ true
  | _ ↦ false
]

abbrev pub NoneSets : Graph → List ℕ → Type 0
NoneSets g = All (λ id. sets_visibility g id ≡ false)

module _ (g : Graph) where
  skip :
      (id : ℕ) (ids : List ℕ)
      → sets_visibility g id ≡ false
      → constant_visibility_in g (id ∷ ids) ≡ constant_visibility_in g ids
  unfolding constant_visibility_in
  skip id ids h = ground arith

  skip_all :
      (post rest : List ℕ)
      → NoneSets g post
      → constant_visibility_in g (reverse post ++ rest) ≡ constant_visibility_in g rest
  skip_all [] rest h = refl
  skip_all (id ∷ post) rest (here, later) =
      rw (reverse-append (id ∷ []) post)
        (rw append_assoc (rw (skip_all post (id ∷ rest) later) (skip id rest here)))

  set_here :
      (id : ℕ) (rest : List ℕ) (d : ConstantVisibilityDefinition)
      → get id g.definitions ≡ some (Definition.constant_visibility d)
      → constant_visibility_in g (id ∷ rest) ≡ d.visibility
  unfolding constant_visibility_in
  set_here id rest d known = ground arith

  latest_in :
      (pre : List ℕ) (id : ℕ) (post : List ℕ) (d : ConstantVisibilityDefinition)
      → get id g.definitions ≡ some (Definition.constant_visibility d)
      → NoneSets g post
      → constant_visibility_in g (reverse (pre ++ id ∷ post)) ≡ d.visibility
  latest_in pre id post d known later =
      rw (reverse-append pre (id ∷ post), reverse-append (id ∷ []) post, append_assoc)
        (rw (skip_all post (id ∷ reverse pre) later) (set_here id (reverse pre) d known))

  default_in : (ids : List ℕ) → NoneSets g ids → constant_visibility_in g (reverse ids) ≡ is_public
  unfolding constant_visibility_in
  default_in ids none_sets =
      subst (λ l. constant_visibility_in g l ≡ is_public) (append-nil (reverse ids))
        (skip_all ids [] none_sets)

-- the declarations whose visibility is that of a constant
abbrev pub is_constant_like : Declaration → Bool
is_constant_like (Declaration.namespace (Namespace.singleton_class d)) = false
is_constant_like (Declaration.namespace n) = true
is_constant_like (Declaration.constant d) = true
is_constant_like (Declaration.constant_alias d) = true
is_constant_like _ = false

module _ (xxh3_64 : Hash) (g : Graph) where
  visibility-constant_like :
      (fuel id : ℕ) (d : Declaration)
      → get id g.declarations ≡ some d
      → is_constant_like d ≡ true
      → visibility xxh3_64 g (suc fuel) id
        ≡ done (some (constant_visibility_in g (reverse (base_of d).definition_ids)))
  unfolding visibility visibility_of
  visibility-constant_like fuel id d known like = ground arith

  -- The visibility of a class, a module, a constant or a constant alias is the one set by the last
  -- `private_constant` or `public_constant` among its definitions, and public if there is none.
  pub visibility-latest :
      (fuel id : ℕ) (d : Declaration)
      → get id g.declarations ≡ some d
      → is_constant_like d ≡ true
      → ((pre : List ℕ) (last : ℕ) (post : List ℕ) (v : ConstantVisibilityDefinition)
          → (base_of d).definition_ids ≡ pre ++ last ∷ post
          → get last g.definitions ≡ some (Definition.constant_visibility v)
          → NoneSets g post
          → visibility xxh3_64 g (suc fuel) id ≡ done (some v.visibility))
        × (NoneSets g (base_of d).definition_ids
            → visibility xxh3_64 g (suc fuel) id ≡ done (some is_public))
  visibility-latest fuel id d known like = (
    λ pre last post v split set later.
        rw (visibility-constant_like fuel id d known like, split)
          (ap (λ x. done (some x)) (latest_in g pre last post v set later)),
    λ none_sets.
        rw (visibility-constant_like fuel id d known like)
          (ap (λ x. done (some x)) (default_in g (base_of d).definition_ids none_sets)),
  )
