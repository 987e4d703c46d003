-- ===== src/Graph/Lookup/Enclosing.antt =====
-- The walk up the nesting of definitions, and the lookups that start from it.
use rubydex.Base.{
  ℕ, zero, suc, ◌<◌, Option, none, some, done, ◌≡◌, refl, arith, Option-cases, inl, inr, length,
}
use rubydex.Base.Map.{get}
use rubydex.Model.Definition.{Definition, base_of, name_id_of}
use rubydex.Graph.{Graph}
use rubydex.Graph.Lookup.{enclosing_loop, find_enclosing_namespace_name_id}

-- The name of the nearest definition that has one, from a definition outwards.
pub data Encloses (g : Graph) : Option ℕ → Option ℕ → Type 0 where
  nowhere : Encloses g none none
  here :
      (id name : ℕ) (d : Definition)
      → get id g.definitions ≡ some d
      → name_id_of d ≡ some name
      → Encloses g (some id) (some name)
  outside :
      (id : ℕ) (d : Definition) (r : Option ℕ)
      → get id g.definitions ≡ some d
      → name_id_of d ≡ none
      → Encloses g (base_of d).lexical_nesting_id r
      → Encloses g (some id) r

-- Nesting is well founded: each definition is deeper than the one around it, which is in the
-- graph, and no depth reaches the number of definitions.
pub record IsNested (g : Graph) (depth : ℕ → ℕ) : Type 0 where
  pub present :
      (id outer : ℕ) (d : Definition)
      → get id g.definitions ≡ some d
      → (base_of d).lexical_nesting_id ≡ some outer
      → (o : Definition) × (get outer g.definitions ≡ some o)
  pub deeper :
      (id outer : ℕ) (d : Definition)
      → get id g.definitions ≡ some d
      → (base_of d).lexical_nesting_id ≡ some outer
      → depth outer < depth id
  pub bounded :
      (id : ℕ) (d : Definition) → get id g.definitions ≡ some d → depth id < length g.definitions

pub enclosing_loop-none : (fuel : ℕ) (g : Graph) → enclosing_loop fuel g none ≡ done none
unfolding enclosing_loop
enclosing_loop-none zero g = refl
enclosing_loop-none (suc fuel) g = refl

module _ (g : Graph) (depth : ℕ → ℕ) (nested : IsNested g depth) where
  enclosing_loop-Encloses :
      (fuel id : ℕ) (d : Definition)
      → get id g.definitions ≡ some d
      → depth id < fuel
      → (r : Option ℕ) × (enclosing_loop fuel g (some id) ≡ done r) × Encloses g (some id) r
  unfolding enclosing_loop
  enclosing_loop-Encloses zero id d known h = absurd (omega arith)
  enclosing_loop-Encloses (suc fuel) id d known h = elim (Option-cases (name_id_of d)) [
    | inr (name, named) ↦ (some name, ground arith, here id name d known named)
    | inl unnamed ↦ elim (Option-cases (base_of d).lexical_nesting_id) [
      | inl top ↦ (
        none,
        ground (arith, enclosing_loop-none fuel g),
        outside id d none known unnamed (rw top nowhere),
      )
      | inr (outer, up) ↦
          let (o, there) = nested.present id outer d known up in
          let below = nested.deeper id outer d known up in
          let (r, runs, encloses) = enclosing_loop-Encloses fuel outer o there (omega arith) in
          (r, ground arith, outside id d r known unnamed (rw up encloses))
    ]
  ]

  -- In a graph whose definitions are well nested, the search for the enclosing name ends without
  -- a panic, from any definition of the graph, and returns the name of the nearest definition
  -- from there outwards that has one, or `none` if none has.
  pub find_enclosing-Encloses :
      (id : ℕ) (d : Definition)
      → get id g.definitions ≡ some d
      → (r : Option ℕ) × (find_enclosing_namespace_name_id g (some id) ≡ done r)
        × Encloses g (some id) r
  unfolding find_enclosing_namespace_name_id
  find_enclosing-Encloses id d known =
      enclosing_loop-Encloses (length g.definitions) id d known (nested.bounded id d known)
