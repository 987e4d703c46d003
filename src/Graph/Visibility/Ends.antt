-- ===== src/Graph/Visibility/Ends.antt =====
-- `visibility` ends: aliases are followed at most once.
use mathlib.Core.List.{reverse, reverse-append}
use rubydex.Base.{
  ℕ, suc, Bool, true, false, Option, none, some, List, [], ◌∷◌, done, out_of_fuel, panic, ◌≡◌, ◌≢◌,
  refl, arith, contains, contains-append, Option-cases, Bool-cases, inl, inr, ap, ==_refl, ◌==◌,
  length, Checked,
}
use rubydex.Base.Map.{Map, get}
use rubydex.Model.Ids.{Hash}
use rubydex.Model.Visibility.{Visibility}
use rubydex.Model.Definition.{Definition}
use rubydex.Model.Declaration.{Declaration, Namespace, SimpleDeclaration}
use rubydex.Graph.{Graph}
use rubydex.Graph.Lookup.{definition_id_to_declaration_id}
use rubydex.Graph.Lookup.Enclosing.{IsNested}
use rubydex.Graph.Lookup.Total.{SelvesOutside, definition_id_to_declaration_id-ends}
use rubydex.Query.Ancestors.{ok, err}
use rubydex.Query.MethodAlias.{Followed, follow_method_alias}
use rubydex.Query.MethodAlias.Follows.{
  IsDefinedMethod, is_plain, any_plain, follow_method_alias-IsDefinedMethod,
  follow_method_alias-ends,
}
use rubydex.Graph.Visibility.{
  definition_visibility, MethodSays, says, only_alias, method_visibility_in, visibility_of,
  visibility, after_loop, after_follow, first_alias,
}

-- Each definition of a method that is in the graph and is no alias has a visibility.
abbrev pub MethodsHoldMethods : Graph → Type 0
MethodsHoldMethods g =
    (id : ℕ) (d : SimpleDeclaration) (definition_id : ℕ) (x : Definition)
    → get id g.declarations ≡ some (Declaration.method d)
    → contains d.definition_ids definition_id ≡ true
    → get definition_id g.definitions ≡ some x
    → is_plain g definition_id ≡ true
    → (v : Visibility) × (definition_visibility x ≡ some v)

module _ (g : Graph) where
  abbrev says_something : MethodSays → Bool
  says_something (says v) = true
  says_something (only_alias o) = false

  -- whether a definition in the list has a visibility
  abbrev speaks : ℕ → Bool
  speaks id = elim (get id g.definitions) [
    | none ↦ false
    | some d ↦ elim (definition_visibility d) [ none ↦ false | some v ↦ true ]
  ]

  says-speaks :
      (latest : Option ℕ) (ids : List ℕ) (id : ℕ)
      → contains ids id ≡ true
      → speaks id ≡ true
      → says_something (method_visibility_in g latest ids) ≡ true
  unfolding method_visibility_in contains
  says-speaks latest [] id h k = cc
  says-speaks latest (x ∷ ids) id h k = elim (Bool-cases (x == id)) [
    | inl here ↦ ground (arith, here)
    | inr other ↦ elim (Option-cases (get x g.definitions)) [
      | inl gone ↦ ground (arith, gone, says-speaks latest ids id)
      | inr (d, known) ↦ ground (arith, known, says-speaks (first_alias latest x d) ids id)
    ]
  ]

  -- a plain definition among those of a method speaks
  speaks-plain :
      MethodsHoldMethods g
      → (target : ℕ) (d : SimpleDeclaration)
      → get target g.declarations ≡ some (Declaration.method d)
      → (ids : List ℕ) → ((x : ℕ) → contains ids x ≡ true → contains d.definition_ids x ≡ true)
      → any_plain g ids ≡ true
      → (id : ℕ) × (contains ids id ≡ true) × (speaks id ≡ true)
  unfolding contains
  speaks-plain holds target d known [] sub h = cc
  speaks-plain holds target d known (x ∷ ids) sub h = elim (Bool-cases (is_plain g x)) [
    | inr alias ↦
        let (id, listed, speaks_up) =
          speaks-plain holds target d known ids (λ y m. sub y (ground (arith, m)))
            (ground (arith, alias)) in
        (id, ground (arith, listed), speaks_up)
    | inl plain ↦ elim (Option-cases (get x g.definitions)) [
      | inl gone ↦ absurd (ground (arith, gone))
      | inr (def, there) ↦
          let (v, e) = holds target d x def known (sub x (ground (arith, ==_refl x))) there plain in
          (x, ground (arith, ==_refl x), ground (arith, there, e))
    ]
  ]

contains-reverse : (xs : List ℕ) (a : ℕ) → contains (reverse xs) a ≡ contains xs a
unfolding contains
contains-reverse [] a = refl
contains-reverse (x ∷ xs) a =
    rw (reverse-append (x ∷ []) xs, contains-append) (ground (arith, contains-reverse xs a))

module _ (xxh3_64 : Hash) (g : Graph) (holds : MethodsHoldMethods g) where
  -- the target of an alias is not followed any further
  target-ends :
      (fuel target : ℕ)
      → IsDefinedMethod g target
      → visibility xxh3_64 g (suc fuel) target ≢ out_of_fuel
  unfolding visibility visibility_of after_loop
  target-ends fuel target m =
      let ids = m.declaration.definition_ids in
      let (id, listed, speaks_up) =
        speaks-plain g holds target m.declaration m.is_method ids (λ x h. h) m.plain in
      ground (
        arith,
        m.is_method,
        says-speaks g none (reverse ids) id (rw contains-reverse listed) speaks_up,
      )

  module _ (ends : (id : ℕ) → definition_id_to_declaration_id xxh3_64 g id ≢ out_of_fuel) where
    follow-ends :
        (fuel alias_id : ℕ) (r : Followed)
        → follow_method_alias xxh3_64 g alias_id ≡ r
        → after_follow (visibility xxh3_64 g (suc fuel)) r ≢ out_of_fuel
    unfolding after_follow
    follow-ends fuel alias_id (done (ok target)) e =
        target-ends fuel target (follow_method_alias-IsDefinedMethod xxh3_64 g alias_id target e)
    follow-ends fuel alias_id (done (err x)) e = ground arith
    follow-ends fuel alias_id panic e = ground arith
    follow-ends fuel alias_id out_of_fuel e =
        absurd (follow_method_alias-ends xxh3_64 g alias_id ends e)

    loop-ends :
        (fuel : ℕ) (m : MethodSays)
        → after_loop xxh3_64 g (visibility xxh3_64 g (suc fuel)) m ≢ out_of_fuel
    unfolding after_loop
    loop-ends fuel (says v) = ground arith
    loop-ends fuel (only_alias none) = ground arith
    loop-ends fuel (only_alias (some id)) =
        follow-ends fuel id (follow_method_alias xxh3_64 g id) refl

    of-ends :
        (fuel : ℕ) (d : Declaration)
        → visibility_of xxh3_64 g (visibility xxh3_64 g (suc fuel)) d ≢ out_of_fuel
    unfolding visibility_of
    of-ends fuel (Declaration.method d) =
        loop-ends fuel (method_visibility_in g none (reverse d.definition_ids))
    of-ends fuel (Declaration.namespace (Namespace.class n)) = ground arith
    of-ends fuel (Declaration.namespace (Namespace.singleton_class n)) = ground arith
    of-ends fuel (Declaration.namespace (Namespace.module_namespace n)) = ground arith
    of-ends fuel (Declaration.namespace (Namespace.todo n)) = ground arith
    of-ends fuel d = ground arith

    at-ends :
        (fuel : ℕ) (id : ℕ) (o : Option Declaration)
        → get id g.declarations ≡ o
        → visibility xxh3_64 g (suc (suc fuel)) id ≢ out_of_fuel
    unfolding visibility
    at-ends fuel id none e = ground arith
    at-ends fuel id (some d) e = rw (e, visibility) (of-ends fuel d)

-- in a graph without definitions there is no alias to follow
no_alias :
    (g : Graph) (ids : List ℕ)
    → g.definitions ≡ []
    → method_visibility_in g none ids ≡ only_alias none
unfolding method_visibility_in get
no_alias g [] none_there = refl
no_alias g (id ∷ ids) none_there =
    let gone : get id g.definitions ≡ none = ap (get id) none_there in
    ground (arith, gone, no_alias g ids none_there)

module _ (xxh3_64 : Hash) (g : Graph) (none_there : g.definitions ≡ []) where
  unaliased-ends :
      (again : ℕ → Checked (Option Visibility)) (d : Declaration)
      → visibility_of xxh3_64 g again d ≢ out_of_fuel
  unfolding visibility_of after_loop
  unaliased-ends again (Declaration.method d) =
      rw (no_alias g (reverse d.definition_ids) none_there) (λ e. ground (arith, e))
  unaliased-ends again (Declaration.namespace (Namespace.class n)) = ground arith
  unaliased-ends again (Declaration.namespace (Namespace.singleton_class n)) = ground arith
  unaliased-ends again (Declaration.namespace (Namespace.module_namespace n)) = ground arith
  unaliased-ends again (Declaration.namespace (Namespace.todo n)) = ground arith
  unaliased-ends again d = ground arith

  undefined-ends :
      (fuel id : ℕ) (o : Option Declaration)
      → get id g.declarations ≡ o
      → visibility xxh3_64 g (suc fuel) id ≢ out_of_fuel
  unfolding visibility
  undefined-ends fuel id none e = ground arith
  undefined-ends fuel id (some d) e =
      rw (e, visibility) (unaliased-ends (visibility xxh3_64 g fuel) d)

module _ (xxh3_64 : Hash) (g : Graph) (holds : MethodsHoldMethods g) (depth : ℕ → ℕ)
    (nested : IsNested g depth) (selves : SelvesOutside g depth) where
  ends_somewhere :
      (m : Map Definition)
      → g.definitions ≡ m
      → (fuel id : ℕ) → visibility xxh3_64 g (suc (suc fuel)) id ≢ out_of_fuel
  ends_somewhere [] e fuel id =
      undefined-ends xxh3_64 g e (suc fuel) id (get id g.declarations) refl
  ends_somewhere (first ∷ m) e fuel id =
      let there : length g.definitions ≡ length (first ∷ m) = ap length e in
      at-ends xxh3_64 g holds
        (definition_id_to_declaration_id-ends xxh3_64 g depth nested selves (ground (arith, there)))
        fuel id (get id g.declarations) refl

  -- In a graph whose definitions are well nested, with the definition of the `self` of a method or
  -- of an alias outside it, and in which each definition of a method that is no alias has a
  -- visibility, `visibility` ends within two steps of fuel: aliases lead to another method at most
  -- once, cyclic aliases included.
  pub visibility-ends : (fuel id : ℕ) → visibility xxh3_64 g (suc (suc fuel)) id ≢ out_of_fuel
  visibility-ends fuel id = ends_somewhere g.definitions refl fuel id
