-- ===== src/Query/Ancestors/Found.antt =====
-- `find_member_in_ancestors` against the chain that it should search.
use rubydex.Base.{
  ℕ, Bool, true, false, Option, none, some, List, [], ◌∷◌, done, out_of_fuel, ◌≢◌, ◌≡◌, refl, arith,
  ◌==◌, if◌then◌else◌, All, Bool-cases, inl, inr,
}
use rubydex.Base.Map.{get}
use rubydex.Model.Declaration.{
  Declaration, Namespace, NamespaceDeclaration, Ancestor, as_namespace, inner, ancestor_list,
}
use rubydex.Graph.{Graph}
use rubydex.Graph.Lookup.{namespace_at}
use rubydex.Query.Ancestors.{
  Result, ok, err, FindMemberError, member_not_found, search_ancestors, find_member_in_ancestors,
}

-- the resolved ancestors, in order
abbrev pub complete_ids : List Ancestor → List ℕ
complete_ids [] = []
complete_ids (Ancestor.complete id ∷ rest) = id ∷ complete_ids rest
complete_ids (Ancestor.partial name ∷ rest) = complete_ids rest

-- what stands behind the first occurrence of the namespace
abbrev pub behind : ℕ → List ℕ → List ℕ
behind main [] = []
behind main (id ∷ rest) = if id == main then rest else behind main rest

-- the ancestors that are to be searched
abbrev pub chain : ℕ → Bool → List Ancestor → List ℕ
chain main only_inherited ancestors =
    if only_inherited then behind main (complete_ids ancestors) else complete_ids ancestors

abbrev pub member_in : Graph → ℕ → ℕ → Option ℕ
member_in g str_id id = elim (namespace_at g id) [ none ↦ none | some n ↦ get str_id n.members ]

-- the first member that one of the namespaces has
abbrev pub first_member : Graph → ℕ → List ℕ → Option ℕ
first_member g str_id [] = none
first_member g str_id (id ∷ rest) = elim (member_in g str_id id) [
  | some m ↦ some m
  | none ↦ first_member g str_id rest
]

abbrev pub AllNamespaces : Graph → List ℕ → Type 0
AllNamespaces g = All (λ id. (n : NamespaceDeclaration) × (namespace_at g id ≡ some n))

abbrev pub outcome : Option ℕ → Result ℕ FindMemberError
outcome none = err member_not_found
outcome (some m) = ok m

module _ (g : Graph) (main str_id : ℕ) where
  -- with the main namespace found, or none wanted
  search_all :
      (only_inherited : Bool) (l : List Ancestor)
      → AllNamespaces g (complete_ids l)
      → search_ancestors g main str_id only_inherited true l
        ≡ done (outcome (first_member g str_id (complete_ids l)))
  unfolding search_ancestors
  search_all only [] h = refl
  search_all only (Ancestor.partial name ∷ l) h = search_all only l h
  search_all only (Ancestor.complete id ∷ l) (here, rest) =
      ground (arith, here, search_all only l rest)

  -- nothing is skipped where the inherited members are not asked for
  search_any :
      (l : List Ancestor)
      → AllNamespaces g (complete_ids l)
      → search_ancestors g main str_id false false l
        ≡ done (outcome (first_member g str_id (complete_ids l)))
  unfolding search_ancestors
  search_any [] h = refl
  search_any (Ancestor.partial name ∷ l) h = search_any l h
  search_any (Ancestor.complete id ∷ l) (here, rest) = ground (arith, here, search_any l rest)

  search_behind :
      (l : List Ancestor)
      → AllNamespaces g (complete_ids l)
      → search_ancestors g main str_id true false l
        ≡ done (outcome (first_member g str_id (behind main (complete_ids l))))
  unfolding search_ancestors
  search_behind [] h = refl
  search_behind (Ancestor.partial name ∷ l) h = search_behind l h
  search_behind (Ancestor.complete id ∷ l) (here, rest) = elim (Bool-cases (id == main)) [
    | inl found ↦ rw found (search_all true l rest)
    | inr other ↦ rw other (search_behind l rest)
  ]

  -- For a namespace whose resolved ancestors are all namespaces of the graph, the search returns
  -- the member of the first resolved ancestor that has one of that name, in the order of the
  -- ancestor chain, and the error `member_not_found` if none has; with `only_inherited` only the
  -- ancestors behind the namespace itself count. It does not panic.
  pub find_member-first_member :
      (only_inherited : Bool) (n : Namespace)
      → get main g.declarations ≡ some (Declaration.namespace n)
      → AllNamespaces g (complete_ids (ancestor_list (inner n).ancestors))
      → find_member_in_ancestors g main str_id only_inherited
        ≡ done (
            outcome (
              first_member g str_id
                (chain main only_inherited (ancestor_list (inner n).ancestors))))
  unfolding find_member_in_ancestors
  find_member-first_member true n known all =
      ground (arith, search_behind (ancestor_list (inner n).ancestors) all)
  find_member-first_member false n known all =
      ground (arith, search_any (ancestor_list (inner n).ancestors) all)

search-ends :
    (g : Graph) (main str_id : ℕ) (only found : Bool) (l : List Ancestor)
    → search_ancestors g main str_id only found l ≢ out_of_fuel
unfolding search_ancestors
search-ends g main str_id only found [] = ground arith
search-ends g main str_id only found (Ancestor.partial name ∷ l) =
    search-ends g main str_id only found l
search-ends g main str_id only found (Ancestor.complete id ∷ l) =
    ground
      (arith, search-ends g main str_id only found l, search-ends g main str_id only (id == main) l)

-- The search is no loop that could run on.
pub find_member-ends :
    (g : Graph) (main str_id : ℕ) (only_inherited : Bool)
    → find_member_in_ancestors g main str_id only_inherited ≢ out_of_fuel
unfolding find_member_in_ancestors
find_member-ends g main str_id only = go (get main g.declarations)
  where
    go :
        (o : Option Declaration)
        → (elim o [
          | none ↦ done (err FindMemberError.declaration_not_found)
          | some d ↦ elim (as_namespace d) [
            | none ↦ done (err FindMemberError.not_namespace)
            | some n ↦ search_ancestors g main str_id only false (ancestor_list (inner n).ancestors)
          ]
        ])
          ≢ out_of_fuel
    go none = ground arith
    go (some (Declaration.namespace n)) =
        search-ends g main str_id only false (ancestor_list (inner n).ancestors)
    go (some d) = ground arith
