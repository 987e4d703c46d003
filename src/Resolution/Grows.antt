-- ===== src/Resolution/Grows.antt =====
-- What every action of the resolver keeps, and the rules to show it.
pub mod Steps
use rubydex.Base
use rubydex.Base.{
  ℕ, Bool, true, false, Option, none, some, List, [], ◌∷◌, Checked, done, panic, out_of_fuel, ◌≡◌,
  refl, sym, ◌∙◌, ◌⊎◌, inl, inr, if◌then◌else◌, Ensures, arith, ◌||◌, ◌==◌, ◌++◌,
}
use rubydex.Base.Map.{Map, get, is_some, contains_key}
use rubydex.Model.Document.{Document}
use rubydex.Model.Name.{Name, NameRef}
use rubydex.Graph.{Graph, WorkUnit}
use rubydex.Graph.Declarations.{is_namespace}
use rubydex.Resolution.{
  Resolver, Action, pure, reads, changes, updates, push_back, set_progress, ◌>>=◌, case_option,
  for_all,
}

-- An unresolved name stays or is resolved; else nothing changes.
abbrev pub NameGrows : Option NameRef → Option NameRef → Type 0
NameGrows none after = after ≡ none
NameGrows (some (NameRef.resolved r)) after = after ≡ some (NameRef.resolved r)
NameGrows (some (NameRef.unresolved n)) after =
    (after ≡ some (NameRef.unresolved n))
    ⊎ ((id : ℕ) × (after ≡ some (NameRef.resolved (record { name = n; declaration_id = id }))))

-- a document but for its diagnostics
abbrev pub undiagnosed : Option Document → Option Document
undiagnosed none = none
undiagnosed (some d) = some (record d { diagnostics = [] })

-- whether the reference is in the queue
unfoldable pub has_reference : ℕ → List WorkUnit → Bool
has_reference id [] = false
has_reference id (WorkUnit.constant_ref r ∷ work) = r == id || has_reference id work
has_reference id (_ ∷ work) = has_reference id work

pub has_reference-append :
    (id : ℕ) (l k : List WorkUnit)
    → has_reference id (l ++ k) ≡ (has_reference id l || has_reference id k)
unfolding has_reference
has_reference-append id [] k = refl
has_reference-append id (WorkUnit.definition d ∷ l) k = has_reference-append id l k
has_reference-append id (WorkUnit.constant_ref r ∷ l) k =
    ground (arith, has_reference-append id l k)
has_reference-append id (WorkUnit.ancestors d ∷ l) k = has_reference-append id l k

pub has_reference-cons :
    (id : ℕ) (u : WorkUnit) (l : List WorkUnit)
    → has_reference id (u ∷ l) ≡ (has_reference id (u ∷ []) || has_reference id l)
unfolding has_reference
has_reference-cons id (WorkUnit.definition d) l = refl
has_reference-cons id (WorkUnit.constant_ref r) l = ground arith
has_reference-cons id (WorkUnit.ancestors d) l = refl

-- no reference is lost
abbrev pub Holds : List WorkUnit → List WorkUnit → Type 0
Holds l k = (id : ℕ) → has_reference id l ≡ true → has_reference id k ≡ true

pub append-Holds : (l k : List WorkUnit) → Holds l (l ++ k)
append-Holds l k id h = ground (arith, h, has_reference-append id l k)

-- The data of the documents stay as they are but for diagnostics, names are only resolved, what is
-- declared, or a namespace, stays so, and no reference that is pending is dropped.
pub record Grows (g g' : Graph) : Type 0 where
  pub definitions : g'.definitions ≡ g.definitions
  pub strings : g'.strings ≡ g.strings
  pub constant_references : g'.constant_references ≡ g.constant_references
  pub method_references : g'.method_references ≡ g.method_references
  pub name_dependents : g'.name_dependents ≡ g.name_dependents
  pub documents : (id : ℕ) → undiagnosed (get id g'.documents) ≡ undiagnosed (get id g.documents)
  pub names : (id : ℕ) → NameGrows (get id g.names) (get id g'.names)
  pub declared :
      (id : ℕ) → contains_key id g.declarations ≡ true → contains_key id g'.declarations ≡ true
  pub namespaces : (id : ℕ) → is_namespace g id ≡ true → is_namespace g' id ≡ true
  pub pending : Holds g.pending_work g'.pending_work

pub NameGrows-refl : (o : Option NameRef) → NameGrows o o
NameGrows-refl none = refl
NameGrows-refl (some (NameRef.resolved r)) = refl
NameGrows-refl (some (NameRef.unresolved n)) = inl refl

NameGrows-trans : (a b c : Option NameRef) → NameGrows a b → NameGrows b c → NameGrows a c
NameGrows-trans none b c h k = rw h at k
NameGrows-trans (some (NameRef.resolved r)) b c h k = rw h at k
NameGrows-trans (some (NameRef.unresolved n)) b c (inl same) k = rw same at k
NameGrows-trans (some (NameRef.unresolved n)) b c (inr (id, found)) k =
    let after = rw found at k in inr (id, after)

pub Grows-refl : (g : Graph) → Grows g g
Grows-refl g = record {
  definitions = refl;
  strings = refl;
  constant_references = refl;
  method_references = refl;
  name_dependents = refl;
  documents = λ id. refl;
  names = λ id. NameGrows-refl (get id g.names);
  declared = λ id h. h;
  namespaces = λ id h. h;
  pending = λ id h. h;
}

pub Grows-trans : (g h k : Graph) → Grows g h → Grows h k → Grows g k
Grows-trans g h k a b = record {
  definitions = b.definitions ∙ a.definitions;
  strings = b.strings ∙ a.strings;
  constant_references = b.constant_references ∙ a.constant_references;
  method_references = b.method_references ∙ a.method_references;
  name_dependents = b.name_dependents ∙ a.name_dependents;
  documents = λ id. b.documents id ∙ a.documents id;
  names = λ id.
      NameGrows-trans (get id g.names) (get id h.names) (get id k.names) (a.names id) (b.names id);
  declared = λ id d. b.declared id (a.declared id d);
  namespaces = λ id d. b.namespaces id (a.namespaces id d);
  pending = λ id d. b.pending id (a.pending id d);
}

-- The graph grows, and the queue loses no reference.
pub record Advances (r r' : Resolver) : Type 0 where
  pub grows : Grows r.graph r'.graph
  pub queue : Holds r.unit_queue r'.unit_queue

pub Advances-refl : (r : Resolver) → Advances r r
Advances-refl r = record { grows = Grows-refl r.graph; queue = λ id h. h }

pub Advances-trans : (a b c : Resolver) → Advances a b → Advances b c → Advances a c
Advances-trans a b c h k = record {
  grows = Grows-trans a.graph b.graph c.graph h.grows k.grows;
  queue = λ id q. k.queue id (h.queue id q);
}

-- every normal return of the action advances the resolver
pub record IsGrowing {A : Type 0} (m : Action A) : Type 0 where
  pub at : (r : Resolver) → Ensures (λ x. Advances r x.1) (m r)

abbrev pub GrowsTo : {A : Type 0} → (A → Graph) → (Graph → Checked A) → Type 0
GrowsTo f m = (g : Graph) → Ensures (λ x. Grows g (f x)) (m g)

module _ {A : Type 0} where
  pub IsGrowing-pure : (a : A) → IsGrowing (pure a)
  unfolding pure
  IsGrowing-pure a = record { at = λ r. Advances-refl r }

  pub IsGrowing-reads : (f : Graph → Checked A) → IsGrowing (reads f)
  unfolding reads
  IsGrowing-reads f = record {
    at = λ r. Base.Ensures-read _ (f r.graph) (λ a. done (a, r)) (λ a. Advances-refl r);
  }

  pub IsGrowing-changes :
      (f : Graph → Checked (Graph × A)) → GrowsTo (λ x. x.0) f → IsGrowing (changes f)
  unfolding changes
  IsGrowing-changes f h = record {
    at = λ r.
        Base.Ensures->>= (λ x. Grows r.graph x.0) _ (f r.graph)
          (λ (g, a). done (a, record r { graph = g })) (h r.graph)
          (λ x k. record { grows = k; queue = λ id q. q });
  }

  pub IsGrowing-if :
      (b : Bool) (m n : Action A) → IsGrowing m → IsGrowing n → IsGrowing (if b then m else n)
  IsGrowing-if true m n h k = h
  IsGrowing-if false m n h k = k

pub IsGrowing-updates : (f : Graph → Checked Graph) → GrowsTo (λ g. g) f → IsGrowing (updates f)
unfolding updates
IsGrowing-updates f h = record {
  at = λ r.
      Base.Ensures->>= (λ g. Grows r.graph g) _ (f r.graph) (λ g. done (tt, record r { graph = g }))
        (h r.graph) (λ x k. record { grows = k; queue = λ id q. q });
}

pub IsGrowing-push_back : (u : WorkUnit) → IsGrowing (push_back u)
unfolding push_back
IsGrowing-push_back u = record {
  at = λ r. record { grows = Grows-refl r.graph; queue = append-Holds r.unit_queue (u ∷ []) };
}

pub IsGrowing-set_progress : (b : Bool) → IsGrowing (set_progress b)
unfolding set_progress
IsGrowing-set_progress b = record {
  at = λ r. record { grows = Grows-refl r.graph; queue = λ id q. q };
}

module _ {A B : Type 0} where
  pub IsGrowing->>= :
      (m : Action A) (f : A → Action B)
      → IsGrowing m
      → ((a : A) → IsGrowing (f a))
      → IsGrowing (m >>= f)
  unfolding ◌>>=◌
  IsGrowing->>= m f h k = record {
    at = λ r.
        Base.Ensures->>= (λ x. Advances r x.1) _ (m r) (λ (a, r'). f a r') (h.at r)
          (λ (a, r') grown.
            Base.Ensures-map (λ y. Advances r' y.1) _ (f a r') ((k a).at r')
              (λ y more. Advances-trans r r' y.1 grown more));
  }

  pub IsGrowing-case_option :
      (o : Option A) (m : Action B) (f : A → Action B)
      → IsGrowing m
      → ((a : A) → IsGrowing (f a))
      → IsGrowing (case_option o m f)
  unfolding case_option
  IsGrowing-case_option none m f h k = h
  IsGrowing-case_option (some a) m f h k = k a

pub IsGrowing-for_all :
    {A : Type 0} (f : A → Action (Unit {0})) (l : List A)
    → ((a : A) → IsGrowing (f a))
    → IsGrowing (for_all f l)
unfolding for_all
IsGrowing-for_all f [] h = IsGrowing-pure tt
IsGrowing-for_all f (a ∷ l) h = IsGrowing->>= _ _ (h a) (λ u. IsGrowing-for_all f l h)

pub ruleset growing_rules = (
  IsGrowing-pure, IsGrowing-reads, IsGrowing-push_back, IsGrowing-set_progress, IsGrowing->>=,
  IsGrowing-case_option, IsGrowing-if,
)
