-- ===== src/Graph/Remove/Removes.antt =====
-- What a step removes of the data of a document; untracking names and strings removes none.
use rubydex.Base.{
  ℕ, Bool, true, false, Option, none, some, List, [], ◌∷◌, ◌++◌, Checked, done, ◌>>=◌, ◌≡◌, refl,
  ◌∙◌, arith, contains, contains-append, Ensures, Ensures->>=, Ensures-read, Ensures-map,
  if◌then◌else◌,
}
use rubydex.Base.Map.{Map, get, remove, insert, get-remove}
use rubydex.Model.StringRef
use rubydex.Model.StringRef.{StringRef}
use rubydex.Model.Name
use rubydex.Model.Name.{NameRef, resolved, unresolved, inner}
use rubydex.Model.Definition.{Definition}
use rubydex.Model.Dependent.{NameDependent}
use rubydex.Graph.{Graph}
use rubydex.Graph.Counts.{
  untrack_string, untrack_name, untrack_definition_strings, remove_name, remove_name_dependent,
  keep_or_remove,
}

-- the second map is the first without the listed keys
abbrev pub Without {ℓ} : {V : Type ℓ} → List ℕ → Map V → Map V → Type ℓ
Without ids m m' = (k : ℕ) → get k m' ≡ (if contains ids k then none else get k m)

-- what is gone of the method references, the constant references and the definitions
pub record Removes (ms cs ds : List ℕ) (g g' : Graph) : Type 0 where
  pub documents : g'.documents ≡ g.documents
  pub method_references : Without ms g.method_references g'.method_references
  pub constant_references : Without cs g.constant_references g'.constant_references
  pub definitions : Without ds g.definitions g'.definitions

pub Without-append {ℓ} :
    {V : Type ℓ} (xs ys : List ℕ) (m m' m'' : Map V)
    → Without xs m m'
    → Without ys m' m''
    → Without (xs ++ ys) m m''
Without-append xs ys m m' m'' a b k = ground (arith, a k, b k, contains-append xs ys k)

pub Without-nil {ℓ} : {V : Type ℓ} (m : Map V) → Without [] m m
unfolding contains
Without-nil m k = refl

pub Without-one {ℓ} : {V : Type ℓ} (id : ℕ) (m : Map V) → Without (id ∷ []) m (remove id m)
unfolding contains
Without-one id m k = ground (arith, get-remove id k m)

pub Removes-append :
    (ms cs ds ms' cs' ds' : List ℕ) (g h i : Graph)
    → Removes ms cs ds g h
    → Removes ms' cs' ds' h i
    → Removes (ms ++ ms') (cs ++ cs') (ds ++ ds') g i
Removes-append ms cs ds ms' cs' ds' g h i a b = record {
  documents = b.documents ∙ a.documents;
  method_references =
      Without-append ms ms' g.method_references h.method_references i.method_references
        a.method_references b.method_references;
  constant_references =
      Without-append cs cs' g.constant_references h.constant_references i.constant_references
        a.constant_references b.constant_references;
  definitions =
      Without-append ds ds' g.definitions h.definitions i.definitions a.definitions b.definitions;
}

-- steps that remove nothing of these
abbrev pub Same : Graph → Graph → Type 0
Same = Removes [] [] []

pub Same-refl : (g : Graph) → Same g g
Same-refl g = record {
  documents = refl;
  method_references = Without-nil g.method_references;
  constant_references = Without-nil g.constant_references;
  definitions = Without-nil g.definitions;
}

pub then_Same :
    (ds : List ℕ) (cs : List ℕ) (ms : List ℕ) (g h i : Graph)
    → Removes ms cs ds g h
    → Same h i
    → Removes ms cs ds g i
unfolding contains
then_Same ds cs ms g h i a b = record {
  documents = b.documents ∙ a.documents;
  method_references = λ k. b.method_references k ∙ a.method_references k;
  constant_references = λ k. b.constant_references k ∙ a.constant_references k;
  definitions = λ k. b.definitions k ∙ a.definitions k;
}

pub untrack_string-Same : (id : ℕ) (g : Graph) → Ensures (Same g) (untrack_string id g)
unfolding untrack_string
untrack_string-Same id g =
    elim (get id g.strings)
      as (λ found. Ensures (Same g) (elim found as (λ _. Checked Graph) [
        | none ↦ done g
        | some entry ↦ do
          counted ← StringRef.decrement_ref_count entry
          done (record g { strings = keep_or_remove id counted g.strings })
      ])) [
        | none ↦ Same-refl g
        | some entry ↦
            Ensures-read (Same g) (StringRef.decrement_ref_count entry)
              (λ counted. done (record g { strings = keep_or_remove id counted g.strings }))
              (λ counted. record {
                documents = refl;
                method_references = Without-nil g.method_references;
                constant_references = Without-nil g.constant_references;
                definitions = Without-nil g.definitions;
              })
      ]

module _ (ms cs ds : List ℕ) (g : Graph) where
  -- a step that removes nothing, after one that may
  pub then_keeps :
      (m : Checked Graph) (f : Graph → Checked Graph)
      → Ensures (Removes ms cs ds g) m
      → ((h : Graph) → Ensures (Same h) (f h))
      → Ensures (Removes ms cs ds g) (m >>= f)
  then_keeps m f first next =
      Ensures->>= (Removes ms cs ds g) (Removes ms cs ds g) m f first (λ h removed.
        Ensures-map (Same h) (Removes ms cs ds g) (f h) (next h)
          (λ i same. then_Same ds cs ms g h i removed same))

  -- a step that removes nothing, on a graph that has lost something
  pub on_removed :
      (h : Graph) (m : Checked Graph)
      → Removes ms cs ds g h
      → Ensures (Same h) m
      → Ensures (Removes ms cs ds g) m
  on_removed h m removed next =
      Ensures-map (Same h) (Removes ms cs ds g) m next
        (λ i same. then_Same ds cs ms g h i removed same)

pub remove_name_dependent-Same :
    (id : ℕ) (d : NameDependent) (g : Graph) → Same g (remove_name_dependent id d g)
unfolding remove_name_dependent
remove_name_dependent-Same id d g = record {
  documents = refl;
  method_references = Without-nil g.method_references;
  constant_references = Without-nil g.constant_references;
  definitions = Without-nil g.definitions;
}

counted-Same :
    (id : ℕ) (entry : NameRef) (left : Bool) (g : Graph)
    → let counted : Graph = record g { names = insert id entry g.names } in
      Same g (if left then counted else remove_name id counted)
unfolding remove_name
counted-Same id entry true g = record {
  documents = refl;
  method_references = Without-nil g.method_references;
  constant_references = Without-nil g.constant_references;
  definitions = Without-nil g.definitions;
}
counted-Same id entry false g = record {
  documents = refl;
  method_references = Without-nil g.method_references;
  constant_references = Without-nil g.constant_references;
  definitions = Without-nil g.definitions;
}

pub untrack_name-Same : (id : ℕ) (g : Graph) → Ensures (Same g) (untrack_name id g)
unfolding untrack_name
untrack_name-Same id g = go (get id g.names)
  where
    after : NameRef → NameRef × Bool → Graph
    after entry x =
        let counted = record g { names = insert id x.0 g.names } in
        if x.1 then counted else remove_name id counted

    go :
        (found : Option NameRef)
        → Ensures (Same g) (elim found as (λ _. Checked Graph) [
          | none ↦ done g
          | some entry ↦ Name.decrement_ref_count entry >>= λ x.
              untrack_string (inner entry).str (after entry x)
        ])
    go none = Same-refl g
    go (some entry) =
        Ensures-read (Same g) (Name.decrement_ref_count entry)
          (λ x. untrack_string (inner entry).str (after entry x))
          (λ x.
            on_removed [] [] [] g (after entry x) (untrack_string (inner entry).str (after entry x))
              (counted-Same id x.0 x.1 g) (untrack_string-Same (inner entry).str (after entry x)))

pub untrack_definition_strings-Same :
    (d : Definition) (g : Graph) → Ensures (Same g) (untrack_definition_strings d g)
unfolding untrack_definition_strings
untrack_definition_strings-Same (Definition.class d) g = Same-refl g
untrack_definition_strings-Same (Definition.singleton_class d) g = Same-refl g
untrack_definition_strings-Same (Definition.module_definition d) g = Same-refl g
untrack_definition_strings-Same (Definition.constant d) g = Same-refl g
untrack_definition_strings-Same (Definition.constant_alias d) g = Same-refl g
untrack_definition_strings-Same (Definition.constant_visibility d) g = Same-refl g
untrack_definition_strings-Same (Definition.method_visibility d) g = untrack_string-Same d.str_id g
untrack_definition_strings-Same (Definition.method d) g = untrack_string-Same d.str_id g
untrack_definition_strings-Same (Definition.attr_accessor d) g = untrack_string-Same d.str_id g
untrack_definition_strings-Same (Definition.attr_reader d) g = untrack_string-Same d.str_id g
untrack_definition_strings-Same (Definition.attr_writer d) g = untrack_string-Same d.str_id g
untrack_definition_strings-Same (Definition.global_variable d) g = untrack_string-Same d.str_id g
untrack_definition_strings-Same (Definition.instance_variable d) g = untrack_string-Same d.str_id g
untrack_definition_strings-Same (Definition.class_variable d) g = untrack_string-Same d.str_id g
untrack_definition_strings-Same (Definition.method_alias d) g =
    then_keeps [] [] [] g (untrack_string d.new_name_str_id g) (untrack_string d.old_name_str_id)
      (untrack_string-Same d.new_name_str_id g) (untrack_string-Same d.old_name_str_id)
untrack_definition_strings-Same (Definition.global_variable_alias d) g =
    then_keeps [] [] [] g (untrack_string d.new_name_str_id g) (untrack_string d.old_name_str_id)
      (untrack_string-Same d.new_name_str_id g) (untrack_string-Same d.old_name_str_id)

pub Without-missing {ℓ} :
    {V : Type ℓ} (id : ℕ) (m : Map V) → get id m ≡ none → Without (id ∷ []) m m
unfolding contains
Without-missing id m h k = ground (arith, h)
