-- ===== src/LocalGraph/Calls.antt =====
-- Each operation on a local graph keeps it indexed.
use rubydex.Base.{
  ℕ, ◌+◌, ◌≡◌, refl, arith, done, Bool-cases, Option-cases, inl, inr, subst, Ensures, Ensures->>=,
  Checked,
}
use rubydex.Base.Map.{get, contains_key}
use rubydex.Model.Ids.{Text, Hash}
use rubydex.Model.StringRef
use rubydex.Model.StringRef.{StringRef}
use rubydex.Model.Name
use rubydex.Model.Name.{
  Name, NameRef, name_id, parent_id, unresolved, resolved, inner, with_ref_count,
}
use rubydex.Model.Reference.{
  ConstantReference, MethodRef, constant_reference_id, method_reference_id,
}
use rubydex.Model.Definition.{Definition, Mixin, definition_id, name_id_of, add_member, add_mixin}
use rubydex.Model.Document
use rubydex.LocalGraph.{
  LocalGraph, push_dependent, add_definition, intern_string, add_name, add_constant_reference,
  add_method_reference, get_definition_mut,
}
use rubydex.LocalGraph.Index.{IsIndexed}
use rubydex.LocalGraph.Entries.{
  after_definition-IsIndexed, after_reference-IsIndexed, after_name-IsIndexed, recount-IsIndexed,
  after_method_reference-IsIndexed, replace_definition-IsIndexed, strings-IsIndexed,
}

module _ (xxh3_64 : Hash) (g : LocalGraph) (h : IsIndexed g) {g' : LocalGraph} {id : ℕ} where
  pub add_definition-IsIndexed :
      (d : Definition) → add_definition xxh3_64 d g ≡ done (g', id) → IsIndexed g'
  unfolding add_definition Document.add_definition
  add_definition-IsIndexed d e =
      let new = definition_id xxh3_64 d in
      elim (Bool-cases (contains_key new g.definitions)) [
        | inl old ↦ absurd (ground (arith, old))
        | inr fresh ↦
            subst IsIndexed (ground (arith, fresh)) (after_definition-IsIndexed g h new d fresh)
      ]

  pub add_constant_reference-IsIndexed :
      (r : ConstantReference) → add_constant_reference xxh3_64 r g ≡ done (g', id) → IsIndexed g'
  unfolding add_constant_reference Document.add_constant_reference push_dependent
  add_constant_reference-IsIndexed r e =
      let new = constant_reference_id xxh3_64 r in
      elim (Bool-cases (contains_key new g.constant_references)) [
        | inl old ↦ absurd (ground (arith, old))
        | inr fresh ↦
            subst IsIndexed (ground (arith, fresh)) (after_reference-IsIndexed g h new r fresh)
      ]

  pub add_method_reference-IsIndexed :
      (r : MethodRef) → add_method_reference xxh3_64 r g ≡ done (g', id) → IsIndexed g'
  unfolding add_method_reference Document.add_method_reference
  add_method_reference-IsIndexed r e =
      let new = method_reference_id xxh3_64 r in
      elim (Bool-cases (contains_key new g.method_references)) [
        | inl old ↦ absurd (ground (arith, old))
        | inr fresh ↦
            subst IsIndexed (ground (arith, fresh))
              (after_method_reference-IsIndexed g h new r fresh)
      ]

  pub intern_string-IsIndexed :
      (t : Text) → intern_string xxh3_64 t g ≡ done (g', id) → IsIndexed g'
  unfolding intern_string StringRef.increment_ref_count
  intern_string-IsIndexed t e = subst IsIndexed (ground arith) (strings-IsIndexed g h g'.strings)

  pub add_name-IsIndexed : (n : Name) → add_name xxh3_64 n g ≡ done (g', id) → IsIndexed g'
  unfolding add_name Name.increment_ref_count
  add_name-IsIndexed n e = elim (Option-cases (get (name_id xxh3_64 n) g.names)) [
    | inl fresh ↦
        subst IsIndexed (ground (arith, fresh))
          (after_name-IsIndexed g h (name_id xxh3_64 n) n (rw fresh))
    | inr (r, old) ↦
        subst IsIndexed (ground (arith, old))
          (recount-IsIndexed g h (name_id xxh3_64 n) r ((inner r).ref_count + 1) old)
  ]

-- Changes to a definition that keep its name.
abbrev pub KeepsName : (Definition → Checked Definition) → Type 0
KeepsName change = (d : Definition) → Ensures (λ d'. name_id_of d' ≡ name_id_of d) (change d)

pub add_member-KeepsName : (member_id : ℕ) → KeepsName (add_member member_id)
unfolding add_member
add_member-KeepsName member_id (Definition.class d) = refl
add_member-KeepsName member_id (Definition.singleton_class d) = refl
add_member-KeepsName member_id (Definition.module_definition d) = refl
add_member-KeepsName member_id d = tt

pub add_mixin-KeepsName : (mixin : Mixin) → KeepsName (add_mixin mixin)
unfolding add_mixin
add_mixin-KeepsName mixin (Definition.class d) = refl
add_mixin-KeepsName mixin (Definition.singleton_class d) = refl
add_mixin-KeepsName mixin (Definition.module_definition d) = refl
add_mixin-KeepsName mixin d = refl

pub get_definition_mut-IsIndexed :
    (g : LocalGraph)
    → IsIndexed g
    → (id : ℕ) (change : Definition → Checked Definition) → KeepsName change
    → Ensures IsIndexed (get_definition_mut id change g)
unfolding get_definition_mut
get_definition_mut-IsIndexed g h id change keeps = elim (Option-cases (get id g.definitions)) [
  | inl gone ↦ rw (gone, Ensures) tt
  | inr (d, known) ↦
      rw (known, Ensures)
        (Ensures->>= (λ d'. name_id_of d' ≡ name_id_of d) IsIndexed (change d) _ (keeps d)
          λ d' same. replace_definition-IsIndexed g h id d d' known same)
]
