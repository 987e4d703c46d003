-- ===== src/Resolution/Grows/Steps.antt =====
-- The changes that the resolver makes to the graph, each of which grows it.

use rubydex.Base.{
  ℕ, Bool, true, false, Option, none, some, List, [], ◌∷◌, ◌++◌, Checked, done, ◌≡◌, refl, inl, inr,
  Ensures, Ensures-read, Ensures->>=, arith, ◌==◌, subst, unwrap, debug_assert, ◌∙◌, ◌>>=◌, ◌&&◌,
  not, contains, Ensures-all, Ensures-map, Bool-cases, Option-cases,
}
use rubydex.Base.Map.{
  Map, get, insert, remove, adjust, is_some, contains_key, get-insert, get-remove, get-adjust,
}
use rubydex.Model.Ids.{text_eq, Text, Hash, id_from}
use rubydex.Model.Name.{Name, NameRef}
use rubydex.Model.Declaration
use rubydex.Model.Declaration.{
  Declaration, Namespace, NamespaceDeclaration, SimpleDeclaration, as_namespace, update_base,
  on_namespace, update,
}
use rubydex.Graph.{Graph, WorkUnit}
use rubydex.Graph.Declarations.{
  is_namespace, absorb, promote_if, declare, add_declaration, promote_constant_to_namespace,
  add_member, with_member, record_resolved_reference, is_namespace_definition,
  is_promotable_declaration,
}
use rubydex.Graph.Names.{record_resolved_name, push_work, extend_work}
use rubydex.Resolution.Grows.{Grows, Grows-refl, GrowsTo, NameGrows, NameGrows-refl, append-Holds}

-- `matches!(.., Declaration::Namespace(_))`
abbrev pub names_space : Declaration → Bool
names_space d = is_some (as_namespace d)

-- a change of the declarations alone
pub Grows-declarations :
    (g : Graph) (m : Map Declaration)
    → ((id : ℕ) → contains_key id g.declarations ≡ true → contains_key id m ≡ true)
    → ((id : ℕ) → is_namespace g id ≡ true → is_namespace (record g { declarations = m }) id ≡ true)
    → Grows g (record g { declarations = m })
Grows-declarations g m h k =
    let same = Grows-refl g in
    record {
      definitions = refl;
      strings = refl;
      constant_references = refl;
      method_references = refl;
      name_dependents = refl;
      documents = same.documents;
      names = same.names;
      declared = h;
      namespaces = k;
      pending = same.pending;
    }

pub Grows-insert :
    (g : Graph) (id : ℕ) (d : Declaration)
    → (is_namespace g id ≡ true → names_space d ≡ true)
    → Grows g (record g { declarations = insert id d g.declarations })
unfolding is_namespace
Grows-insert g id d h =
    Grows-declarations g (insert id d g.declarations)
      (λ j k. ground (arith, k, get-insert id j d g.declarations))
      (λ j k. ground (arith, k, h, get-insert id j d g.declarations))

pub Grows-adjust :
    (g : Graph) (id : ℕ) (f : Declaration → Declaration)
    → ((d : Declaration) → names_space (f d) ≡ names_space d)
    → Grows g (record g { declarations = adjust id f g.declarations })
unfolding is_namespace
Grows-adjust g id f h =
    Grows-declarations g (adjust id f g.declarations)
      (λ j k. ground (arith, k, get-adjust id j f g.declarations))
      λ j k. elim (Option-cases (get j g.declarations)) [
        | inl absent ↦ absurd (ground (arith, k, absent))
        | inr (d, there) ↦ ground (arith, k, there, h d, get-adjust id j f g.declarations)
      ]

-- a change of the names alone
pub Grows-names :
    (g : Graph) (m : Map NameRef)
    → ((id : ℕ) → NameGrows (get id g.names) (get id m))
    → Grows g (record g { names = m })
unfolding is_namespace
Grows-names g m h =
    let same = Grows-refl g in
    record {
      definitions = refl;
      strings = refl;
      constant_references = refl;
      method_references = refl;
      name_dependents = refl;
      documents = same.documents;
      names = h;
      declared = same.declared;
      namespaces = same.namespaces;
      pending = same.pending;
    }

-- more pending work
pub Grows-work :
    (g : Graph) (work : List WorkUnit)
    → Grows g (record g { pending_work = g.pending_work ++ work })
unfolding is_namespace
Grows-work g work =
    let same = Grows-refl g in
    record {
      definitions = refl;
      strings = refl;
      constant_references = refl;
      method_references = refl;
      name_dependents = refl;
      documents = same.documents;
      names = same.names;
      declared = same.declared;
      namespaces = same.namespaces;
      pending = append-Holds g.pending_work work;
    }

names_space-update_base :
    (f : SimpleDeclaration → SimpleDeclaration) (d : Declaration)
    → names_space (update_base f d) ≡ names_space d
names_space-update_base f (Declaration.namespace n) = refl
names_space-update_base f (Declaration.constant d) = refl
names_space-update_base f (Declaration.constant_alias d) = refl
names_space-update_base f (Declaration.method d) = refl
names_space-update_base f (Declaration.global_variable d) = refl
names_space-update_base f (Declaration.instance_variable d) = refl
names_space-update_base f (Declaration.class_variable d) = refl

names_space-on_namespace :
    (f : NamespaceDeclaration → NamespaceDeclaration) (d : Declaration)
    → names_space (on_namespace f d) ≡ names_space d
unfolding on_namespace
names_space-on_namespace f (Declaration.namespace n) = refl
names_space-on_namespace f (Declaration.constant d) = refl
names_space-on_namespace f (Declaration.constant_alias d) = refl
names_space-on_namespace f (Declaration.method d) = refl
names_space-on_namespace f (Declaration.global_variable d) = refl
names_space-on_namespace f (Declaration.instance_variable d) = refl
names_space-on_namespace f (Declaration.class_variable d) = refl

pub Grows-on_namespace :
    (g : Graph) (id : ℕ) (f : NamespaceDeclaration → NamespaceDeclaration)
    → Grows g (record g { declarations = adjust id (on_namespace f) g.declarations })
Grows-on_namespace g id f = Grows-adjust g id (on_namespace f) (names_space-on_namespace f)

pub Grows-update_base :
    (g : Graph) (id : ℕ) (f : SimpleDeclaration → SimpleDeclaration)
    → Grows g (record g { declarations = adjust id (update_base f) g.declarations })
Grows-update_base g id f = Grows-adjust g id (update_base f) (names_space-update_base f)

-- a namespace in place of a declaration that was taken out
Grows-replace :
    (g : Graph) (id : ℕ) (d : Declaration)
    → names_space d ≡ true
    → Grows g (record g { declarations = insert id d (remove id g.declarations) })
unfolding is_namespace
Grows-replace g id d h =
    Grows-declarations g (insert id d (remove id g.declarations))
      (λ j k.
        ground
          (arith, k, get-insert id j d (remove id g.declarations), get-remove id j g.declarations))
      λ j k.
        ground (
          arith,
          k,
          h,
          get-insert id j d (remove id g.declarations),
          get-remove id j g.declarations,
        )

absorb-names_space : (old new : Declaration) → Ensures (λ d. names_space d ≡ true) (absorb old new)
unfolding absorb
absorb-names_space old new =
    Ensures-read _ (unwrap (as_namespace new)) _
      λ n. Ensures-read _ (Declaration.extend old n) _ λ n'. refl

pub promote-Grows :
    (id : ℕ) (c : Text → ℕ → Declaration) → GrowsTo (λ g. g) (promote_constant_to_namespace id c)
unfolding promote_constant_to_namespace
promote-Grows id c g = Ensures-read _ (unwrap (get id g.declarations)) _ λ old.
    Ensures->>= (λ d. names_space d ≡ true) _ (absorb old (c _ _)) _
      (absorb-names_space old (c _ _)) λ new h. Grows-replace g id new h

promote_if-names_space :
    (b : Bool) (existing new : Declaration)
    → names_space existing ≡ true
    → Ensures (λ d. names_space d ≡ true) (promote_if b existing new)
unfolding promote_if
promote_if-names_space true existing new h = absorb-names_space existing new
promote_if-names_space false existing new h = h

add_definition-names_space :
    (id : ℕ) (d : Declaration)
    → names_space d ≡ true
    → Ensures (λ d'. names_space d' ≡ true) (Declaration.add_definition id d)
unfolding Declaration.add_definition
add_definition-names_space id d h =
    let add =
      λ (b : SimpleDeclaration). record b { definition_ids = b.definition_ids ++ id ∷ [] } in
    Ensures-read (λ d'. names_space d' ≡ true)
      (debug_assert (not (contains (Declaration.definitions d) id))) (λ x. done (update_base add d))
      λ checked. names_space-update_base add d ∙ h

declare-names_space :
    (g : Graph) (definition_id : ℕ) (name : Text) (c : Text → Declaration) (existing : Declaration)
    → names_space existing ≡ true
    → Ensures (λ d. names_space d ≡ true) (declare g definition_id name c (some existing))
unfolding declare
declare-names_space g definition_id name c existing h =
    let promotes =
      is_namespace_definition g definition_id && is_promotable_declaration g existing in
    Ensures-read (λ d. names_space d ≡ true)
      (debug_assert (text_eq (Declaration.base_of existing).name name))
      (λ x. promote_if promotes existing (c name) >>= Declaration.add_definition definition_id)
      λ checked.
        Ensures->>= (λ d. names_space d ≡ true) (λ d. names_space d ≡ true)
          (promote_if promotes existing (c name)) (Declaration.add_definition definition_id)
          (promote_if-names_space promotes existing (c name) h)
          (add_definition-names_space definition_id)

-- what `add_declaration` stores in the place of what was there
declare-keeps :
    (g : Graph) (definition_id : ℕ) (name : Text) (c : Text → Declaration) (o : Option Declaration)
    → Ensures
        (λ d.
          (elim o [ none ↦ false | some e ↦ is_some (as_namespace e) ]) ≡ true
          → names_space d ≡ true)
        (declare g definition_id name c o)
declare-keeps g definition_id name c none =
    Ensures-all _ (declare g definition_id name c none) λ d h. cc
declare-keeps g definition_id name c (some existing) = elim (Bool-cases (names_space existing)) [
  | inl is ↦
      Ensures-map (λ d. names_space d ≡ true) _ (declare g definition_id name c (some existing))
        (declare-names_space g definition_id name c existing is) λ d h k. h
  | inr other ↦ Ensures-all _ (declare g definition_id name c (some existing)) λ d h. cc
]

pub add_declaration-Grows :
    (xxh3_64 : Hash) (definition_id : ℕ) (name : Text) (c : Text → Declaration)
    → GrowsTo (λ x. x.0) (add_declaration xxh3_64 definition_id name c)
unfolding add_declaration is_namespace
add_declaration-Grows xxh3_64 definition_id name c g =
    let id = id_from xxh3_64 name in
    Ensures->>= _ _ (declare g definition_id name c (get id g.declarations)) _
      (declare-keeps g definition_id name c (get id g.declarations)) λ d h. Grows-insert g id d h

with_member-names_space :
    (str_id member_id : ℕ) (d : Declaration)
    → Ensures (λ d'. names_space d' ≡ names_space d) (with_member str_id member_id d)
unfolding with_member
with_member-names_space str_id member_id (Declaration.namespace n) = refl
with_member-names_space str_id member_id (Declaration.constant d) = refl
with_member-names_space str_id member_id (Declaration.constant_alias d) = tt
with_member-names_space str_id member_id (Declaration.method d) = tt
with_member-names_space str_id member_id (Declaration.global_variable d) = tt
with_member-names_space str_id member_id (Declaration.instance_variable d) = tt
with_member-names_space str_id member_id (Declaration.class_variable d) = tt

-- what is stored in the place of a declaration
Grows-stored :
    (g : Graph) (id : ℕ) (d : Declaration)
    → get id g.declarations ≡ some d
    → (m : Checked Declaration) → Ensures (λ d'. names_space d' ≡ names_space d) m
    → Ensures
        (λ g'. Grows g g')
        (m >>= λ d'. done (record g { declarations = insert id d' g.declarations }))
unfolding is_namespace
Grows-stored g id d there m h =
    Ensures->>= (λ d'. names_space d' ≡ names_space d) (λ g'. Grows g g') m
      (λ d'. done (record g { declarations = insert id d' g.declarations })) h
      λ d' same. Grows-insert g id d' (λ k. ground (arith, k, there, same))

pub add_member-Grows :
    (owner_id member_id str_id : ℕ) → GrowsTo (λ g. g) (add_member owner_id member_id str_id)
unfolding add_member
add_member-Grows owner_id member_id str_id g = elim (Option-cases (get owner_id g.declarations)) [
  | inl absent ↦ rw (absent, Ensures, add_member) (Grows-refl g)
  | inr (d, there) ↦
      rw (there, Ensures, add_member)
        (Grows-stored g owner_id d there (with_member str_id member_id d)
          (with_member-names_space str_id member_id d))
]

add_reference-names_space :
    (id : ℕ) (d : Declaration)
    → Ensures (λ d'. names_space d' ≡ names_space d) (Declaration.add_constant_reference id d)
unfolding Declaration.add_constant_reference
add_reference-names_space id (Declaration.namespace n) = refl
add_reference-names_space id (Declaration.constant d) = refl
add_reference-names_space id (Declaration.constant_alias d) = refl
add_reference-names_space id (Declaration.method d) = tt
add_reference-names_space id (Declaration.global_variable d) = tt
add_reference-names_space id (Declaration.instance_variable d) = tt
add_reference-names_space id (Declaration.class_variable d) = tt

pub record_resolved_reference-Grows :
    (reference_id id : ℕ) → GrowsTo (λ g. g) (record_resolved_reference reference_id id)
unfolding record_resolved_reference
record_resolved_reference-Grows reference_id id g = elim (Option-cases (get id g.declarations)) [
  | inl absent ↦ rw absent tt
  | inr (d, there) ↦ rw there (
      Grows-stored g id d there (Declaration.add_constant_reference reference_id d)
        (add_reference-names_space reference_id d))
]

resolves :
    (a b : Option NameRef) (n : Name) (id : ℕ)
    → a ≡ some (NameRef.unresolved n)
    → b ≡ some (NameRef.resolved (record { name = n; declaration_id = id }))
    → NameGrows a b
resolves none b n id was is = cc
resolves (some (NameRef.resolved r)) b n id was is = cc
resolves (some (NameRef.unresolved m)) b n id was is = inr (id, ground (arith, was, is))

-- a name that has been resolved
Grows-resolved :
    (g : Graph) (name_id id : ℕ) (n : Name)
    → get name_id g.names ≡ some (NameRef.unresolved n)
    → let now = NameRef.resolved (record { name = n; declaration_id = id }) in
      Grows g (record g { names = insert name_id now (remove name_id g.names) })
Grows-resolved g name_id id n there =
    let now = NameRef.resolved (record { name = n; declaration_id = id }) in
    let after = λ (j : ℕ). get-insert name_id j now (remove name_id g.names) in
    let before = λ (j : ℕ). get-remove name_id j g.names in
    Grows-names g (insert name_id now (remove name_id g.names)) λ j.
      elim (Bool-cases (name_id == j)) [
        | inl here ↦
            resolves (get j g.names) (get j (insert name_id now (remove name_id g.names))) n id
              (ground (arith, there, here)) (ground (arith, after j, here))
        | inr other ↦
            subst (NameGrows (get j g.names)) (ground (arith, after j, before j, other))
              (NameGrows-refl (get j g.names))
      ]

pub record_resolved_name-Grows :
    (name_id id : ℕ) → GrowsTo (λ g. g) (record_resolved_name name_id id)
unfolding record_resolved_name
record_resolved_name-Grows name_id id g = recorded (get name_id g.names) refl
  where
    recorded :
        (o : Option NameRef)
        → get name_id g.names ≡ o
        → Ensures (λ g'. Grows g g') (record_resolved_name name_id id g)
    recorded none there = rw (there, Ensures, record_resolved_name) tt
    recorded (some (NameRef.resolved r)) there =
        rw (there, Ensures, record_resolved_name) (Grows-refl g)
    recorded (some (NameRef.unresolved n)) there =
        rw (there, Ensures, record_resolved_name) (Grows-resolved g name_id id n there)

pub push_work-Grows : (unit : WorkUnit) (g : Graph) → Grows g (push_work unit g)
unfolding push_work
push_work-Grows unit g = Grows-work g _

pub extend_work-Grows : (units : List WorkUnit) (g : Graph) → Grows g (extend_work units g)
unfolding extend_work
extend_work-Grows units g = Grows-work g _
