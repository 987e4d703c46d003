-- ===== src/Tests/Checks.antt =====
-- An application of the theorem on the integrity check.
use rubydex.Base.{Option, List, [], ◌∷◌, Checked, done, ◌≡◌, refl, ◌↔◌, All}
use rubydex.Base.Map.{get}
use rubydex.Model.Ids.{codes, id_from}
use rubydex.Model.Declaration.{Declaration, Namespace, new_namespace}
use rubydex.Graph.{Graph}
use rubydex.Graph.Lookup.{object_id}
use rubydex.Integrity.{IntegrityError, check_integrity, fmt}
use rubydex.Integrity.Owned.{IsOwned, HaveDocuments, check_integrity-IsOwned}
use rubydex.Tests.{hash, simple}
use rubydex.Tests.Resolving.{before}

-- `Object`, and a constant whose owner is not there
abbrev checked : Graph
checked = record before {
  declarations =
      (
        object_id hash,
        Declaration.namespace (
            Namespace.class (record (new_namespace (codes "Object") (object_id hash)) {
              base = simple "Object" (303 ∷ []) (object_id hash);
            })),
      )
      ∷ ((5, Declaration.constant (simple "Foo" (306 ∷ []) 77)) ∷ []);
}

have_documents : HaveDocuments hash checked checked.declarations
unfolding get
have_documents = (((_, refl, _, refl), tt), (((_, refl, _, refl), tt), tt))

check_integrity-IsOwned_example :
    (es : List IntegrityError) × (check_integrity hash checked ≡ done es)
    × ((es ≡ []) ↔ All (λ (id, d). IsOwned checked hash id d) checked.declarations)
check_integrity-IsOwned_example = check_integrity-IsOwned hash checked have_documents

-- the message about the constant
abbrev messages : Checked (List IntegrityError) → List (List rubydex.Base.ℕ)
messages (done (e ∷ [])) = fmt e ∷ []
messages _ = []

message_of_foo :
    messages (check_integrity hash checked)
    ≡ codes "Declaration `Foo` has an owner that does not exist in the graph. Defined in: file" ∷ []
unfolding check_integrity rubydex.Integrity.check_loop rubydex.Integrity.push_error
    rubydex.Integrity.error_of object_id id_from rubydex.Integrity.is_self_owner
    rubydex.Integrity.owner_error get rubydex.Integrity.collect_uris fmt rubydex.Integrity.message
    rubydex.Integrity.join
message_of_foo = refl
