-- ===== src/Graph/Extend/Merge.antt =====
-- What the loops of `extend` leave in the maps.
use rubydex.Base.{
  ℕ, ◌+◌, true, ◌||◌, Option, none, some, List, [], ◌∷◌, ◌++◌, done, ◌≡◌, refl, arith, >>=-eq-done,
  if◌then◌else◌, ◌==◌, Bool-cases, Option-cases, inl, inr, ap,
}
use rubydex.Base.Map.{UniqueKeys, Map, get, insert, contains_key, get-insert, get_or_default}
use rubydex.Model.StringRef
use rubydex.Model.StringRef.{StringRef}
use rubydex.Model.Name
use rubydex.Model.Name.{Name, NameRef, name_eq, inner, with_ref_count, unresolved, resolved}
use rubydex.Model.Dependent.{
  definition, reference, child_name, nested_name, NameDependent, Dependents, dependent_eq,
  has_dependent, has_edge,
}
use rubydex.Graph.Extend.{
  merge_string, merge_strings, merge_name, merge_names, insert_new, insert_all, push_dependents,
  merge_dependents,
}

abbrev pub string_uses : Map StringRef → ℕ → ℕ
string_uses m k = elim (get k m) [ none ↦ 0 | some s ↦ s.ref_count ]

abbrev pub name_uses : Map NameRef → ℕ → ℕ
name_uses m k = elim (get k m) [ none ↦ 0 | some r ↦ (inner r).ref_count ]

string_uses-merge_string :
    (id k : ℕ) (s : StringRef) (m m' : Map StringRef)
    → merge_string id s m ≡ done m'
    → string_uses m' k ≡ (if id == k then s.ref_count else 0) + string_uses m k
unfolding merge_string StringRef.increment_ref_count
string_uses-merge_string id k s m m' h = elim (Option-cases (get id m)) [
  | inl new ↦ ground (arith, new, get-insert id k s m)
  | inr (entry, old) ↦
      let bumped = record entry { ref_count = entry.ref_count + s.ref_count } in
      ground (arith, old, get-insert id k bumped m)
]

pub string_uses-merge_strings :
    (l m m' : Map StringRef) (k : ℕ)
    → UniqueKeys l
    → merge_strings l m ≡ done m'
    → string_uses m' k ≡ string_uses l k + string_uses m k
unfolding merge_strings get
string_uses-merge_strings [] m m' k unique h = ground arith
string_uses-merge_strings ((id, s) ∷ l) m m' k unique h =
    let (mid, first, rest) = >>=-eq-done (merge_string id s m) (merge_strings l) h in
    ground (
      arith,
      unique.0,
      string_uses-merge_string id k s m mid first,
      string_uses-merge_strings l mid m' k unique.1 rest,
    )

-- The declaration that a name is resolved to.
abbrev pub resolution : Map NameRef → ℕ → Option ℕ
resolution m k = elim (get k m) [ some (resolved r) ↦ some r.declaration_id | _ ↦ none ]

-- one merged name: its uses, and what it is resolved to
merge_name-get :
    (id k : ℕ) (r : NameRef) (m m' : Map NameRef)
    → merge_name id r m ≡ done m'
    → (name_uses m' k ≡ (if id == k then (inner r).ref_count else 0) + name_uses m k)
      × (resolution m' k ≡ (
          if contains_key k m then resolution m k else if id == k then resolution m' k else none))
unfolding merge_name Name.increment_ref_count
merge_name-get id k r m m' h = elim (Option-cases (get id m)) [
  | inl new ↦ ground (arith, new, get-insert id k r m)
  | inr (unresolved n, old) ↦
      let bumped = with_ref_count (unresolved n) (n.ref_count + (inner r).ref_count) in
      ground (arith, old, get-insert id k bumped m)
  | inr (resolved n, old) ↦
      let bumped = with_ref_count (resolved n) (n.name.ref_count + (inner r).ref_count) in
      ground (arith, old, get-insert id k bumped m)
]

pub name_uses-merge_names :
    (l m m' : Map NameRef) (k : ℕ)
    → UniqueKeys l
    → merge_names l m ≡ done m'
    → name_uses m' k ≡ name_uses l k + name_uses m k
unfolding merge_names get
name_uses-merge_names [] m m' k unique h = ground arith
name_uses-merge_names ((id, r) ∷ l) m m' k unique h =
    let (mid, first, rest) = >>=-eq-done (merge_name id r m) (merge_names l) h in
    ground (
      arith,
      unique.0,
      (merge_name-get id k r m mid first).0,
      name_uses-merge_names l mid m' k unique.1 rest,
    )

contains_key-merge_name :
    (id k : ℕ) (r : NameRef) (m m' : Map NameRef)
    → merge_name id r m ≡ done m'
    → contains_key k m' ≡ (id == k || contains_key k m)
unfolding merge_name Name.increment_ref_count
contains_key-merge_name id k r m m' h = elim (Option-cases (get id m)) [
  | inl new ↦ ground (arith, new, get-insert id k r m)
  | inr (entry, old) ↦
      let bumped = with_ref_count entry ((inner entry).ref_count + (inner r).ref_count) in
      ground (arith, old, get-insert id k bumped m)
]

-- A name that the graph has keeps its resolution.
pub resolution-merge_names :
    (l m m' : Map NameRef) (k : ℕ)
    → merge_names l m ≡ done m'
    → contains_key k m ≡ true
    → resolution m' k ≡ resolution m k
unfolding merge_names
resolution-merge_names [] m m' k h known = ground arith
resolution-merge_names ((id, r) ∷ l) m m' k h known =
    let (mid, first, rest) = >>=-eq-done (merge_name id r m) (merge_names l) h in
    ground (
      arith,
      contains_key-merge_name id k r m mid first,
      (merge_name-get id k r m mid first).1,
      resolution-merge_names l mid m' k rest,
    )

module _ {ℓ} {V : Type ℓ} where
  -- the entries of the first map, then those of the second
  abbrev pub first_of : Option V → Option V → Option V
  first_of none b = b
  first_of (some v) b = some v

  pub get-insert_new :
      (id k : ℕ) (v : V) (m m' : Map V)
      → insert_new id v m ≡ done m'
      → (get id m ≡ none) × (get k m' ≡ (if id == k then some v else get k m))
  unfolding insert_new
  get-insert_new id k v m m' h = ground (arith, get-insert id k v m)

  -- A key that is there cannot be inserted again.
  not_later :
      (id : ℕ) (v : V) (l m m' : Map V)
      → insert_all l m ≡ done m'
      → get id m ≡ some v
      → get id l ≡ none
  unfolding insert_all get
  not_later id v [] m m' h known = refl
  not_later id v ((j, w) ∷ l) m m' h known =
      let (mid, first, rest) = >>=-eq-done (insert_new j w m) (insert_all l) h in
      ground (arith, get-insert_new j id w m mid first, not_later id v l mid m' rest)

  pub get-insert_all :
      (l m m' : Map V) (k : ℕ) → insert_all l m ≡ done m' → get k m' ≡ first_of (get k l) (get k m)
  unfolding insert_all get
  get-insert_all [] m m' k h = ground arith
  get-insert_all ((id, v) ∷ l) m m' k h =
      let (mid, first, rest) = >>=-eq-done (insert_new id v m) (insert_all l) h in
      ground (
        arith,
        get-insert_new id k v m mid first,
        get-insert_all l mid m' k rest,
        not_later id v l mid m' rest (ground (arith, get-insert_new id id v m mid first)),
      )

has_dependent-concat :
    (d x : NameDependent) (xs : List NameDependent)
    → has_dependent d (xs ++ x ∷ []) ≡ (dependent_eq x d || has_dependent d xs)
unfolding has_dependent
has_dependent-concat d x [] = refl
has_dependent-concat d x (y ∷ xs) = ground (arith, has_dependent-concat d x xs)

-- equal dependents are found alike
has_dependent-eq :
    (d x : NameDependent) (xs : List NameDependent)
    → dependent_eq x d ≡ true
    → has_dependent x xs ≡ has_dependent d xs
has_dependent-eq (definition a) (definition b) xs h =
    ap (λ c. has_dependent (definition c) xs) (ground arith)
has_dependent-eq (reference a) (reference b) xs h =
    ap (λ c. has_dependent (reference c) xs) (ground arith)
has_dependent-eq (child_name a) (child_name b) xs h =
    ap (λ c. has_dependent (child_name c) xs) (ground arith)
has_dependent-eq (nested_name a) (nested_name b) xs h =
    ap (λ c. has_dependent (nested_name c) xs) (ground arith)
has_dependent-eq _ _ xs h = cc

has_dependent-push_dependents :
    (deps global : List NameDependent) (d : NameDependent)
    → has_dependent d (push_dependents deps global)
      ≡ (has_dependent d deps || has_dependent d global)
unfolding push_dependents has_dependent
has_dependent-push_dependents [] global d = refl
has_dependent-push_dependents (x ∷ deps) global d = elim (Bool-cases (has_dependent x global)) [
  | inl there ↦
      ground
        (arith, there, has_dependent-push_dependents deps global d, has_dependent-eq d x global)
  | inr new ↦ ground (
    arith,
    new,
    has_dependent-push_dependents deps (global ++ x ∷ []) d,
    has_dependent-concat d x global,
  )
]

-- The merged index has the edges of both.
pub has_edge-merge_dependents :
    (l m : Dependents) (name : ℕ) (d : NameDependent)
    → UniqueKeys l
    → has_edge (merge_dependents l m) name d ≡ (has_edge l name d || has_edge m name d)
unfolding merge_dependents get has_dependent
has_edge-merge_dependents [] m name d unique = refl
has_edge-merge_dependents ((n, deps) ∷ l) m name d unique =
    let merged = push_dependents deps (get_or_default n m) in
    ground (
      arith,
      unique.0,
      has_edge-merge_dependents l (insert n merged m) name d unique.1,
      get-insert n name merged m,
      has_dependent-push_dependents deps (get_or_default n m) d,
    )
