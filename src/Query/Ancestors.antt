-- ===== src/Query/Ancestors.antt =====
-- `find_member_in_ancestors` of rust/rubydex/src/query.rs.
pub mod Found
use rubydex.Base.{
  ℕ, Bool, true, false, not, ◌&&◌, ◌||◌, Option, none, some, List, [], ◌∷◌, Checked, done, panic,
  ◌==◌, if◌then◌else◌,
}
use rubydex.Base.Map.{get}
use rubydex.Model.Declaration.{Declaration, Ancestor, as_namespace, inner, ancestor_list}
use rubydex.Graph.{Graph}
use rubydex.Graph.Lookup.{namespace_at}

-- `std::result::Result`
pub data Result {ℓ κ} (A : Type ℓ) (E : Type κ) : Type (ℓ ⊔ κ) where
  ok : A → Result A E
  err : E → Result A E

pub data FindMemberError : Type 0 where
  declaration_not_found not_namespace member_not_found : FindMemberError

abbrev pub Search : Type 0
Search = Checked (Result ℕ FindMemberError)

-- one ancestor that is searched, before the rest
look_in : Graph → ℕ → ℕ → Search → Search
look_in g str_id ancestor_id rest = elim (namespace_at g ancestor_id) [
  | none ↦ panic
  | some n ↦ elim (get str_id n.members) [ none ↦ rest | some member_id ↦ done (ok member_id) ]
]

-- the loop over the ancestors; the flag is `found_main_namespace`
unfoldable pub search_ancestors : Graph → ℕ → ℕ → Bool → Bool → List Ancestor → Search
unfolding look_in
search_ancestors g declaration_id str_id only_inherited found [] = done (err member_not_found)
search_ancestors g declaration_id str_id only_inherited found (Ancestor.partial name ∷ rest) =
    search_ancestors g declaration_id str_id only_inherited found rest
search_ancestors g declaration_id str_id only_inherited found (Ancestor.complete id ∷ rest) =
    let skipped =
      search_ancestors g declaration_id str_id only_inherited (id == declaration_id) rest in
    let next = search_ancestors g declaration_id str_id only_inherited found rest in
    if only_inherited && not found then skipped else look_in g str_id id next

unfoldable pub find_member_in_ancestors : Graph → ℕ → ℕ → Bool → Search
find_member_in_ancestors g declaration_id str_id only_inherited =
    elim (get declaration_id g.declarations) [
      | none ↦ done (err declaration_not_found)
      | some d ↦ elim (as_namespace d) [
        | none ↦ done (err not_namespace)
        | some n ↦
            search_ancestors g declaration_id str_id only_inherited false
              (ancestor_list (inner n).ancestors)
      ]
    ]
