-- ===== src/Model/Declaration/Detach.antt =====
-- Detaching a definition from its declaration.
use rubydex.Base.{
  ℕ, ◌+◌, false, ◌&&◌, List, [], ◌∷◌, ◌++◌, done, ◌≡◌, refl, arith, ◌==◌, contains, count,
  if◌then◌else◌, subst, sym, ap, ◌∙◌, ==_refl,
}
use rubydex.Model.Declaration.{
  Declaration, base_of, definitions, remove_definition, add_definition, swap_remove, split_last,
  update_base, Namespace, namespace, SimpleDeclaration,
}

count-split_last :
    (a x : ℕ) (xs : List ℕ)
    → count a (split_last x xs).0 + (if (split_last x xs).1 == a then 1 else 0) ≡ count a (x ∷ xs)
unfolding count split_last
count-split_last a x [] = ground arith
count-split_last a x (y ∷ ys) = ground (arith, count-split_last a y ys)

count-swap_remove :
    (id a : ℕ) (xs : List ℕ)
    → count a (swap_remove id xs) + (if id == a && contains xs id then 1 else 0) ≡ count a xs
unfolding count swap_remove contains
count-swap_remove id a [] = ground arith
count-swap_remove id a (x ∷ []) = ground arith
count-swap_remove id a (x ∷ (y ∷ ys)) =
    ground (arith, count-swap_remove id a (y ∷ ys), count-split_last a y ys)

swap_remove-append :
    (id : ℕ) (xs : List ℕ) → contains xs id ≡ false → swap_remove id (xs ++ id ∷ []) ≡ xs
unfolding swap_remove contains
swap_remove-append id [] h = ground (arith, ==_refl id)
swap_remove-append id (x ∷ []) h = ground (arith, ==_refl id)
swap_remove-append id (x ∷ (y ∷ ys)) h = ground (arith, swap_remove-append id (y ∷ ys))

base_of-update_base :
    (f : SimpleDeclaration → SimpleDeclaration) (d : Declaration)
    → base_of (update_base f d) ≡ f (base_of d)
base_of-update_base f (namespace (Namespace.class n)) = refl
base_of-update_base f (namespace (Namespace.singleton_class n)) = refl
base_of-update_base f (namespace (Namespace.module_namespace n)) = refl
base_of-update_base f (namespace (Namespace.todo n)) = refl
base_of-update_base f (Declaration.constant b) = refl
base_of-update_base f (Declaration.constant_alias b) = refl
base_of-update_base f (Declaration.method b) = refl
base_of-update_base f (Declaration.global_variable b) = refl
base_of-update_base f (Declaration.instance_variable b) = refl
base_of-update_base f (Declaration.class_variable b) = refl

-- Removing a definition says whether it was there, and takes away one occurrence of it and nothing
-- else, although the last definition takes its place; the name, the owner, the references and the
-- diagnostics stay as they are.
pub remove_definition_lem :
    (id : ℕ) (d : Declaration)
    → ((remove_definition id d).1 ≡ contains (definitions d) id)
      × ((a : ℕ)
          → count a (definitions (remove_definition id d).0)
              + (if id == a && contains (definitions d) id then 1 else 0)
            ≡ count a (definitions d))
      × (record (base_of (remove_definition id d).0) { definition_ids = definitions d } ≡ base_of d)
unfolding remove_definition
remove_definition_lem id d =
    let f : SimpleDeclaration → SimpleDeclaration =
      λ b. record b { definition_ids = swap_remove id b.definition_ids } in
    let restore : SimpleDeclaration → SimpleDeclaration =
      λ b. record b { definition_ids = definitions d } in
    let same = base_of-update_base f d in
    (
      refl,
      λ a.
          subst
            (λ b.
              count a b.definition_ids + (if id == a && contains (definitions d) id then 1 else 0)
              ≡ count a (definitions d))
            (sym same) (count-swap_remove id a (definitions d)),
      ap restore same,
    )

-- If adding a definition to a declaration does not panic, the definition was new to it and comes
-- behind the others, and removing it again gives the list of definitions back.
pub remove_definition-add_definition :
    (id : ℕ) (d d' : Declaration)
    → add_definition id d ≡ done d'
    → (contains (definitions d) id ≡ false)
      × (definitions d' ≡ definitions d ++ id ∷ [])
      × (definitions (remove_definition id d').0 ≡ definitions d)
unfolding add_definition remove_definition
remove_definition-add_definition id d d' h =
    let push_id : SimpleDeclaration → SimpleDeclaration =
      λ b. record b { definition_ids = b.definition_ids ++ id ∷ [] } in
    let remove_id : SimpleDeclaration → SimpleDeclaration =
      λ b. record b { definition_ids = swap_remove id b.definition_ids } in
    let new : contains (definitions d) id ≡ false = ground (arith, h) in
    let added : d' ≡ update_base push_id d = ground (arith, h) in
    let behind : definitions d' ≡ definitions d ++ id ∷ [] =
      rw added (ap (λ b. b.definition_ids) (base_of-update_base push_id d)) in
    (
      new,
      behind,
      ap (λ b. b.definition_ids) (base_of-update_base remove_id d')
          ∙ ap (swap_remove id) behind
          ∙ swap_remove-append id (definitions d) new,
    )
