-- ===== src/Integrity/Owned.antt =====
-- The integrity check reports nothing exactly when every declaration is owned as it should be.

use rubydex.Base.{
  ℕ, zero, suc, true, false, ◌==◌, Option, none, some, List, [], ◌∷◌, ◌++◌, done, ◌≡◌, ◌≢◌, refl,
  ◌↔◌, ◌⊎◌, inl, inr, All, Bool-cases, arith, ap, ◌∙◌, sym,
}
use mathlib.Core.List.{append_assoc, append-nil}
use rubydex.Base.Map.{Map, get}
use rubydex.Model.Ids.{Hash, Text}
use rubydex.Model.Definition
use rubydex.Model.Declaration.{Declaration, Namespace, NamespaceDeclaration, base_of, definitions}
use rubydex.Model.Document.{Document}
use rubydex.Graph.{Graph}
use rubydex.Graph.Lookup.{object_id}
use rubydex.Resolution.Singleton.{basic_object_id}
use rubydex.Integrity.{
  IntegrityErrorKind, IntegrityError, collect_uris, chain_loop, max_singleton_depth,
  singleton_chain_terminates, is_singleton_class, owner_error, is_self_owner, error_of, push_error,
  check_loop, check_integrity,
}

module _ (g : Graph) where
  -- The owners lead from a declaration, over singleton classes, to a namespace that is none, within
  -- so many declarations.
  pub data Attaches : ℕ → ℕ → Type 0 where
    ends :
        {id : ℕ} {n : ℕ} (d : Namespace)
        → get id g.declarations ≡ some (Declaration.namespace d)
        → is_singleton_class (Declaration.namespace d) ≡ false
        → Attaches (suc n) id
    up :
        {id : ℕ} {n : ℕ} (d : NamespaceDeclaration)
        → get id g.declarations ≡ some (Declaration.namespace (Namespace.singleton_class d))
        → Attaches n d.base.owner_id
        → Attaches (suc n) id

  -- A declaration owns itself and is `Object` or `BasicObject`; or its owner is a namespace of the
  -- graph, and the owners of a singleton class lead to a namespace that is none.
  pub data IsOwned (xxh3_64 : Hash) (id : ℕ) (d : Declaration) : Type 0 where
    root :
        (base_of d).owner_id ≡ id
        → (id ≡ object_id xxh3_64) ⊎ (id ≡ basic_object_id xxh3_64)
        → IsOwned xxh3_64 id d
    owned :
        (owner : Namespace)
        → (base_of d).owner_id ≢ id
        → get (base_of d).owner_id g.declarations ≡ some (Declaration.namespace owner)
        → (is_singleton_class d ≡ true → Attaches max_singleton_depth (base_of d).owner_id)
        → IsOwned xxh3_64 id d

  attached :
      (n id : ℕ) (o : Option Declaration)
      → get id g.declarations ≡ o
      → ((id : ℕ) → chain_loop n g id ≡ true → Attaches n id)
      → chain_loop (suc n) g id ≡ true
      → Attaches (suc n) id
  unfolding chain_loop
  attached n id none e again h = absurd (ground (arith, e, h))
  attached n id (some (Declaration.namespace (Namespace.class d))) e again h =
      ends (Namespace.class d) e refl
  attached n id (some (Declaration.namespace (Namespace.module_namespace d))) e again h =
      ends (Namespace.module_namespace d) e refl
  attached n id (some (Declaration.namespace (Namespace.todo d))) e again h =
      ends (Namespace.todo d) e refl
  attached n id (some (Declaration.namespace (Namespace.singleton_class d))) e again h =
      up d e (again d.base.owner_id (ground (arith, e, h)))
  attached n id (some (Declaration.constant d)) e again h = absurd (ground (arith, e, h))
  attached n id (some (Declaration.constant_alias d)) e again h = absurd (ground (arith, e, h))
  attached n id (some (Declaration.method d)) e again h = absurd (ground (arith, e, h))
  attached n id (some (Declaration.global_variable d)) e again h = absurd (ground (arith, e, h))
  attached n id (some (Declaration.instance_variable d)) e again h = absurd (ground (arith, e, h))
  attached n id (some (Declaration.class_variable d)) e again h = absurd (ground (arith, e, h))

  chain_loop-Attaches : (n id : ℕ) → chain_loop n g id ≡ true → Attaches n id
  unfolding chain_loop
  chain_loop-Attaches zero id h = cc
  chain_loop-Attaches (suc n) id h =
      attached n id (get id g.declarations) refl (chain_loop-Attaches n) h

  Attaches-chain_loop : (n id : ℕ) → Attaches n id → chain_loop n g id ≡ true
  unfolding chain_loop
  Attaches-chain_loop zero id h = elim h [ ]
  Attaches-chain_loop (suc n) id (ends (Namespace.class d) e no_singleton) = ground (arith, e)
  Attaches-chain_loop (suc n) id (ends (Namespace.module_namespace d) e no_singleton) =
      ground (arith, e)
  Attaches-chain_loop (suc n) id (ends (Namespace.todo d) e no_singleton) = ground (arith, e)
  Attaches-chain_loop (suc n) id (ends (Namespace.singleton_class d) e no_singleton) = cc
  Attaches-chain_loop (suc n) id (up d e more) =
      let rest = Attaches-chain_loop n d.base.owner_id more in ground (arith, e, rest)

module _ (xxh3_64 : Hash) (g : Graph) where
  is_self_owner-or :
      (id : ℕ)
      → is_self_owner xxh3_64 id ≡ true
      → (id ≡ object_id xxh3_64) ⊎ (id ≡ basic_object_id xxh3_64)
  unfolding is_self_owner
  is_self_owner-or id h = elim (Bool-cases (object_id xxh3_64 == id)) [
    | inl e ↦ inl (ground (arith, e))
    | inr other ↦ inr (ground (arith, h, other))
  ]

  -- a declaration that another one owns
  owner_error-IsOwned :
      (id : ℕ) (d : Declaration)
      → (base_of d).owner_id ≢ id
      → (o : Option Declaration) → get (base_of d).owner_id g.declarations ≡ o
      → owner_error g d o ≡ none
      → IsOwned g xxh3_64 id d
  unfolding owner_error singleton_chain_terminates
  owner_error-IsOwned id d other none e h = cc
  owner_error-IsOwned id d other (some (Declaration.namespace n)) e h =
      owned n other e
        λ is. chain_loop-Attaches g max_singleton_depth (base_of d).owner_id (ground (arith, h, is))
  owner_error-IsOwned id d other (some (Declaration.constant o)) e h = cc
  owner_error-IsOwned id d other (some (Declaration.constant_alias o)) e h = cc
  owner_error-IsOwned id d other (some (Declaration.method o)) e h = cc
  owner_error-IsOwned id d other (some (Declaration.global_variable o)) e h = cc
  owner_error-IsOwned id d other (some (Declaration.instance_variable o)) e h = cc
  owner_error-IsOwned id d other (some (Declaration.class_variable o)) e h = cc

  error_of-IsOwned :
      (id : ℕ) (d : Declaration) → error_of xxh3_64 g id d ≡ none → IsOwned g xxh3_64 id d
  unfolding error_of
  error_of-IsOwned id d h = elim (Bool-cases (id == (base_of d).owner_id)) [
    | inl same ↦ root (ground (arith, same)) (is_self_owner-or id (ground (arith, h, same)))
    | inr other ↦
        owner_error-IsOwned id d (λ is. ground (arith, is, other))
          (get (base_of d).owner_id g.declarations) refl (ground (arith, h, other))
  ]

  IsOwned-error_of :
      (id : ℕ) (d : Declaration) → IsOwned g xxh3_64 id d → error_of xxh3_64 g id d ≡ none
  unfolding error_of is_self_owner owner_error singleton_chain_terminates
  IsOwned-error_of id d (root itself (inl is)) = ground (arith, itself, is)
  IsOwned-error_of id d (root itself (inr is)) = ground (arith, itself, is)
  IsOwned-error_of id d (owned n other there leads) = elim (Bool-cases (is_singleton_class d)) [
    | inl is ↦
        let ends = Attaches-chain_loop g max_singleton_depth (base_of d).owner_id (leads is) in
        ground (arith, there, is, ends)
    | inr is_not ↦ ground (arith, there, is_not)
  ]

  -- a definition with its document
  abbrev pub HasDocument : ℕ → Type 0
  HasDocument id =
      (d : Definition.Definition) × (get id g.definitions ≡ some d)
      × (document : Document) × (get (Definition.base_of d).uri_id g.documents ≡ some document)

  collect_uris-done :
      (ids : List ℕ) → All HasDocument ids → (us : List Text) × (collect_uris g ids ≡ done us)
  unfolding collect_uris
  collect_uris-done [] all = ([], refl)
  collect_uris-done (id ∷ ids) ((d, known, document, there), all) =
      let (us, runs) = collect_uris-done ids all in
      (document.uri ∷ us, rw (known, there, runs) refl)

  abbrev pub AllOwned : Map Declaration → Type 0
  AllOwned m = All (λ (id, d). IsOwned g xxh3_64 id d) m

  abbrev pub HaveDocuments : Map Declaration → Type 0
  HaveDocuments m = All (λ (id, d). All HasDocument (definitions d)) m

  -- the errors that a part of the declarations adds
  Checks : Map Declaration → List IntegrityError → Type 0
  Checks m errors =
      (es : List IntegrityError) × (check_loop xxh3_64 g m errors ≡ done (errors ++ es))
      × ((es ≡ []) ↔ AllOwned m)

  push_error-Checks :
      (id : ℕ) (d : Declaration) (m : Map Declaration) (errors : List IntegrityError)
      → HaveDocuments ((id, d) ∷ m)
      → ((errors' : List IntegrityError) → Checks m errors')
      → (o : Option IntegrityErrorKind) → error_of xxh3_64 g id d ≡ o
      → Checks ((id, d) ∷ m) errors
  unfolding check_loop push_error Checks
  push_error-Checks id d m errors known next none e =
      let (es, runs, iff) = next errors in
      (
        es,
        rw (e, check_loop, push_error) runs,
        (λ nil. (error_of-IsOwned id d e, iff.0 nil), λ (one, all). iff.1 all),
      )
  push_error-Checks id d m errors (here, known) next (some kind) e =
      let (us, collected) = collect_uris-done (definitions d) here in
      let error : IntegrityError = record {
        kind = kind;
        declaration_name = (base_of d).name;
        uris = us;
      } in
      let (es, runs, iff) = next (errors ++ error ∷ []) in
      (
        error ∷ es,
        rw (e, check_loop, push_error, collected)
            (runs ∙ ap done (append_assoc errors (error ∷ []) es)),
        (λ nil. cc, λ (one, all). absurd (ground (arith, e, IsOwned-error_of id d one))),
      )

  check_loop-Checks :
      (m : Map Declaration) (errors : List IntegrityError) → HaveDocuments m → Checks m errors
  unfolding check_loop Checks
  check_loop-Checks [] errors known = ([], ap done (sym (append-nil errors)), (λ h. tt, λ h. refl))
  check_loop-Checks ((id, d) ∷ m) errors known =
      push_error-Checks id d m errors known (λ errors'. check_loop-Checks m errors' known.1)
        (error_of xxh3_64 g id d) refl

  -- If the definitions of all declarations are there with their documents, the integrity check
  -- returns, and it returns no error exactly when each declaration is owned as it should be: it is
  -- `Object` or `BasicObject` and owns itself, or its owner is another declaration, which is a
  -- namespace, and for a singleton class, at most 128 declarations lead from its owner, over
  -- singleton classes, to a namespace that is none.
  pub check_integrity-IsOwned :
      HaveDocuments g.declarations
      → (es : List IntegrityError) × (check_integrity xxh3_64 g ≡ done es)
        × ((es ≡ []) ↔ All (λ (id, d). IsOwned g xxh3_64 id d) g.declarations)
  unfolding check_integrity Checks
  check_integrity-IsOwned known = check_loop-Checks g.declarations [] known
