-- ===== src/Resolution/Depth/Memo.antt =====
-- The cached depths of the names are the depths.

use rubydex.Base.{
  ℕ, zero, suc, ◌+◌, ◌<◌, ◌≤◌, ◌==◌, leb, true, Option, none, some, List, [], ◌∷◌, Checked, done,
  ◌>>=◌, ◌≡◌, refl, sym, ap, subst, inl, inr, arith, length, Bool-cases, Option-cases,
  if◌then◌else◌, All,
}
use rubydex.Base.Map.{Map, get, insert, get-insert, contains_key, keys}
use rubydex.Model.StringRef.{u32_max}
use rubydex.Model.Name.{
  Name, NameRef, ParentScope, no_parent, top_level, parent, attached, inner, parent_id,
}
use rubydex.Resolution.Depth.{
  depth_or_zero, add_depths, depth_of, name_depth, depths_loop, compute_name_depths,
}

abbrev pub or_zero : (ℕ → ℕ) → Option ℕ → ℕ
or_zero depth none = 0
or_zero depth (some id) = depth id

-- the depth of a name from those of its parent scope and nesting
abbrev pub depth_sum : (ℕ → ℕ) → Name → ParentScope → ℕ
depth_sum depth n top_level = 1
depth_sum depth n scope = or_zero depth (parent_id scope) + or_zero depth n.nesting + 1

abbrev pub IsKnown : Map NameRef → Option ℕ → Type 0
IsKnown names none = Unit
IsKnown names (some id) = contains_key id names ≡ true

-- A depth for every name, which there is only if no name is its own parent scope or nesting in the
-- end: that of a parent scope or nesting is less. All these names are known, and a depth is a `u32`.
pub record IsDepth (names : Map NameRef) (depth : ℕ → ℕ) : Type 0 where
  pub equation :
      (id : ℕ) (r : NameRef)
      → get id names ≡ some r
      → depth id ≡ depth_sum depth (inner r) (inner r).parent_scope
  pub parents :
      (id : ℕ) (r : NameRef)
      → get id names ≡ some r
      → IsKnown names (parent_id (inner r).parent_scope)
  pub nestings : (id : ℕ) (r : NameRef) → get id names ≡ some r → IsKnown names (inner r).nesting
  pub bounded : (id : ℕ) → depth id ≤ u32_max

keys-known :
    (m all : Map NameRef)
    → ((id : ℕ) → contains_key id m ≡ true → contains_key id all ≡ true)
    → All (λ id. contains_key id all ≡ true) (keys m)
unfolding get
keys-known [] all h = tt
keys-known ((k, r) ∷ m) all h =
    (h k (ground arith), keys-known m all (λ id known. h id (ground (arith, known))))

All-keys :
    (P : ℕ → Type 0) (m : Map NameRef) (id : ℕ) → All P (keys m) → contains_key id m ≡ true → P id
unfolding get
All-keys P [] id h known = cc
All-keys P ((k, r) ∷ m) id (here, rest) known = elim (Bool-cases (k == id)) [
  | inl same ↦ subst P (ground (arith, same)) here
  | inr other ↦ All-keys P m id rest (ground (arith, known, other))
]

get-nil : (id d : ℕ) → get {V = ℕ} id [] ≡ some d → ⊥
unfolding get
get-nil id d h = ground (arith, h)

module _ (names : Map NameRef) (depth : ℕ → ℕ) (is : IsDepth names depth) where
  -- how many names are not deeper
  below : Map NameRef → ℕ → ℕ
  below [] d = 0
  below ((id, r) ∷ m) d = (if leb (depth id) d then 1 else 0) + below m d

  below-le-length : (m : Map NameRef) (d : ℕ) → below m d ≤ length m
  unfolding below
  below-le-length [] d = omega arith
  below-le-length ((id, r) ∷ m) d = ground (arith, below-le-length m d)

  below-le : (m : Map NameRef) (d e : ℕ) → d ≤ e → below m d ≤ below m e
  unfolding below
  below-le [] d e h = omega arith
  below-le ((id, r) ∷ m) d e h = ground (arith, below-le m d e h)

  below-lt :
      (m : Map NameRef) (id d : ℕ)
      → contains_key id m ≡ true
      → d < depth id
      → below m d < below m (depth id)
  unfolding below get
  below-lt [] id d h k = cc
  below-lt ((j, r) ∷ m) id d h k = elim (Bool-cases (j == id)) [
    | inl same ↦
        let e : j ≡ id = ground (arith, same) in rw e (ground (arith, k, below-le m d (depth id)))
    | inr other ↦ ground (arith, k, other, below-lt m id d, below-le m d (depth id), h)
  ]

  -- what is cached is right
  abbrev IsCache : Map ℕ → Type 0
  IsCache cache =
      (id d : ℕ) → get id cache ≡ some d → (d ≡ depth id) × (contains_key id names ≡ true)

  abbrev Extends : Map ℕ → Map ℕ → Type 0
  Extends cache cache' = (id d : ℕ) → get id cache ≡ some d → get id cache' ≡ some d

  -- the call returns the depth, with a cache that is right and has no less
  abbrev Computes : ℕ → Map ℕ → Checked (ℕ × Map ℕ) → Type 0
  Computes d cache m =
      (cache' : Map ℕ) × (m ≡ done (d, cache')) × IsCache cache' × Extends cache cache'

  or_zero-Computes :
      (again : ℕ → Map ℕ → Checked (ℕ × Map ℕ)) (o : Option ℕ) (bound : ℕ)
      → ((id : ℕ) (cache : Map ℕ)
          → contains_key id names ≡ true
          → depth id < bound
          → IsCache cache
          → Computes (depth id) cache (again id cache))
      → IsKnown names o
      → or_zero depth o < bound
      → (cache : Map ℕ) → IsCache cache
      → Computes (or_zero depth o) cache (depth_or_zero again o cache)
  unfolding depth_or_zero
  or_zero-Computes again none bound h known lt cache c = (cache, refl, c, λ id d k. k)
  or_zero-Computes again (some id) bound h known lt cache c = h id cache known lt c

  add_depths_lem : (a b : ℕ) → a + b + 1 ≤ u32_max → add_depths a b ≡ done (a + b + 1)
  unfolding add_depths
  add_depths_lem a b h = ground (arith, h)

  module _ (again : ℕ → Map ℕ → Checked (ℕ × Map ℕ)) where
    scope-Computes :
        (n : Name) (scope : ParentScope)
        → (depth_of again n scope ≡ λ cache. depth_or_zero again (parent_id scope) cache >>= λ p.
            depth_or_zero again n.nesting p.1 >>= λ q. add_depths p.0 q.0 >>= λ d. done (d, q.1))
        → (total : ℕ) → total ≡ or_zero depth (parent_id scope) + or_zero depth n.nesting + 1
        → total ≤ u32_max
        → ((id : ℕ) (cache : Map ℕ)
            → contains_key id names ≡ true
            → depth id < total
            → IsCache cache
            → Computes (depth id) cache (again id cache))
        → IsKnown names (parent_id scope)
        → IsKnown names n.nesting
        → (cache : Map ℕ) → IsCache cache
        → Computes total cache (depth_of again n scope cache)
    scope-Computes n scope shape total e fits h kp kn cache c =
        let (c1, eq1, ok1, ext1) =
          or_zero-Computes again (parent_id scope) total h kp (omega (arith, e)) cache c in
        let (c2, eq2, ok2, ext2) =
          or_zero-Computes again n.nesting total h kn (omega (arith, e)) c1 ok1 in
        (
          c2,
          rw
              (
                shape,
                eq1,
                eq2,
                add_depths_lem (or_zero depth (parent_id scope)) (or_zero depth n.nesting)
                    (omega (arith, e, fits)),
              )
              (ap (λ (d : ℕ). done (d, c2)) (sym e)),
          ok2,
          λ id d k. ext2 id d (ext1 id d k),
        )

    depth_of-Computes :
        (n : Name) (scope : ParentScope) (total : ℕ)
        → total ≡ depth_sum depth n scope
        → total ≤ u32_max
        → ((id : ℕ) (cache : Map ℕ)
            → contains_key id names ≡ true
            → depth id < total
            → IsCache cache
            → Computes (depth id) cache (again id cache))
        → IsKnown names (parent_id scope)
        → IsKnown names n.nesting
        → (cache : Map ℕ) → IsCache cache
        → Computes total cache (depth_of again n scope cache)
    unfolding depth_of
    depth_of-Computes n top_level total e fits h kp kn cache c = (cache, rw e, c, λ id d k. k)
    depth_of-Computes n no_parent total e fits h kp kn cache c =
        scope-Computes n no_parent refl total e fits h kp kn cache c
    depth_of-Computes n (parent p) total e fits h kp kn cache c =
        scope-Computes n (parent p) refl total e fits h kp kn cache c
    depth_of-Computes n (attached p) total e fits h kp kn cache c =
        scope-Computes n (attached p) refl total e fits h kp kn cache c

  IsCache-insert :
      (id : ℕ) (cache : Map ℕ)
      → contains_key id names ≡ true
      → IsCache cache
      → IsCache (insert id (depth id) cache)
  IsCache-insert id cache known c j d h = elim (Bool-cases (id == j)) [
    | inl same ↦
        let e : id ≡ j = ground (arith, same) in
        subst (λ x. (d ≡ depth x) × (contains_key x names ≡ true)) e
          (ground (arith, h, same, get-insert id j (depth id) cache), known)
    | inr other ↦ c j d (ground (arith, h, other, get-insert id j (depth id) cache))
  ]

  below-pos : (m : Map NameRef) (id : ℕ) → contains_key id m ≡ true → 0 < below m (depth id)
  unfolding below get
  below-pos [] id h = cc
  below-pos ((j, r) ∷ m) id h = elim (Bool-cases (j == id)) [
    | inl same ↦ let e : j ≡ id = ground (arith, same) in rw e (ground arith)
    | inr other ↦ ground (arith, h, other, below-pos m id)
  ]

  -- the same as `Computes`, and the depth is in the cache
  abbrev Caches : ℕ → Map ℕ → Checked (ℕ × Map ℕ) → Type 0
  Caches id cache m =
      (cache' : Map ℕ) × (m ≡ done (depth id, cache'))
      × IsCache cache'
      × Extends cache cache'
      × (get id cache' ≡ some (depth id))

  cached :
      (fuel id d : ℕ) (cache : Map ℕ)
      → get id cache ≡ some d
      → IsCache cache
      → Caches id cache (name_depth names (suc fuel) id cache)
  unfolding name_depth
  cached fuel id d cache there c =
      let e = (c id d there).0 in
      (cache, ground (arith, there, e), c, λ j x k. k, ground (arith, there, e))

  kept :
      (id j d : ℕ) (cache : Map ℕ)
      → IsCache cache
      → get j cache ≡ some d
      → get j (insert id (depth id) cache) ≡ some d
  kept id j d cache c h = elim (Bool-cases (id == j)) [
    | inl same ↦
        let e : j ≡ id = ground (arith, same) in
        let right : d ≡ depth id = subst (λ x. d ≡ depth x) e (c j d h).0 in
        ground (arith, right, same, get-insert id j (depth id) cache)
    | inr other ↦ ground (arith, h, other, get-insert id j (depth id) cache)
  ]

  name_depth-new :
      (fuel id d : ℕ) (cache c1 : Map ℕ) (r : NameRef)
      → get id cache ≡ none
      → get id names ≡ some r
      → depth_of (name_depth names fuel) (inner r) (inner r).parent_scope cache ≡ done (d, c1)
      → name_depth names (suc fuel) id cache ≡ done (d, insert id d c1)
  unfolding name_depth
  name_depth-new fuel id d cache c1 r new there e = rw (new, name_depth) (rw there (rw e))

  -- A name that is cached has its depth, and another one gets it.
  name_depth-Caches :
      (fuel id : ℕ) (cache : Map ℕ)
      → below names (depth id) ≤ fuel
      → contains_key id names ≡ true
      → IsCache cache
      → Caches id cache (name_depth names fuel id cache)
  unfolding name_depth
  name_depth-Caches zero id cache fits known c =
      absurd (omega (arith, fits, below-pos names id known))
  name_depth-Caches (suc fuel) id cache fits known c = elim (Option-cases (get id cache)) [
    | inr (d, there) ↦ cached fuel id d cache there c
    | inl new ↦ elim (Option-cases (get id names)) [
      | inl absent ↦ absurd (ground (arith, known, absent))
      | inr (r, there) ↦
          let (c1, eq1, ok1, ext1) =
            depth_of-Computes (name_depth names fuel) (inner r) (inner r).parent_scope (depth id)
              (is.equation id r there) (is.bounded id)
              (λ j cache' kj lt cj.
                let (c', e, ok, ext, at) =
                  name_depth-Caches fuel j cache'
                    (omega (arith, fits, below-lt names id (depth j) known lt)) kj cj in
                (c', e, ok, ext))
              (is.parents id r there) (is.nestings id r there) cache c in
          (
            insert id (depth id) c1,
            name_depth-new fuel id (depth id) cache c1 r new there eq1,
            IsCache-insert id c1 known ok1,
            λ j d k. kept id j d c1 ok1 (ext1 j d k),
            ground (arith, get-insert id id (depth id) c1),
          )
    ]
  ]

  depths_loop-Caches :
      (fuel : ℕ) (ids : List ℕ) (cache : Map ℕ)
      → length names ≤ fuel
      → All (λ id. contains_key id names ≡ true) ids
      → IsCache cache
      → (cache' : Map ℕ) × (depths_loop names fuel ids cache ≡ done cache')
        × IsCache cache'
        × Extends cache cache'
        × All (λ id. get id cache' ≡ some (depth id)) ids
  unfolding depths_loop
  depths_loop-Caches fuel [] cache fits known c = (cache, refl, c, (λ id d k. k), tt)
  depths_loop-Caches fuel (id ∷ ids) cache fits (here, rest) c =
      let (c1, eq1, ok1, ext1, at1) =
        name_depth-Caches fuel id cache (omega (arith, fits, below-le-length names (depth id))) here
          c in
      let (c2, eq2, ok2, ext2, at2) = depths_loop-Caches fuel ids c1 fits rest ok1 in
      (c2, rw (eq1, eq2), ok2, (λ j d k. ext2 j d (ext1 j d k)), (ext2 id (depth id) at1, at2))

  -- If a depth within `u32` is given for every name that solves the equation of depths (1 for a name
  -- at the top level, else one more than the depths of the parent scope and of the nesting together),
  -- and all parent scopes and nestings are names of the map, then computing the depths of all names
  -- does not panic and gives each name its depth. Other names get none.
  pub compute_name_depths-IsDepth :
      (cache : Map ℕ) × (compute_name_depths names ≡ done cache)
      × ((id : ℕ) → get id cache ≡ (if contains_key id names then some (depth id) else none))
  unfolding compute_name_depths
  compute_name_depths-IsDepth =
      let (cache, eq, ok, ext, at) =
        depths_loop-Caches (length names) (keys names) [] (omega arith)
          (keys-known names names (λ id h. h)) (λ id d h. absurd (get-nil id d h)) in
      (
        cache,
        eq,
        λ id. elim (Bool-cases (contains_key id names)) [
          | inl known ↦
              ground (arith, known, All-keys (λ j. get j cache ≡ some (depth j)) names id at known)
          | inr unknown ↦ elim (Option-cases (get id cache)) [
            | inl none_there ↦ ground (arith, unknown, none_there)
            | inr (d, there) ↦ absurd (ground (arith, unknown, (ok id d there).1))
          ]
        ],
      )
