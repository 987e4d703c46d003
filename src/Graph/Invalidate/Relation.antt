-- ===== src/Graph/Invalidate/Relation.antt =====
-- What it means that an invalidation leaves the raw data of the documents alone.
use rubydex.Base.{
  ◌≤◌, Ensures, Ensures->>=, Ensures-map, Ensures-read, ℕ, Option, none, some, List, [], ◌∷◌, ◌++◌,
  Checked, ◌>>=◌, ◌≡◌, refl, sym, ap, ◌∙◌, arith, for_each,
}
use mathlib.Core.Option
use mathlib.Core.List.{append-nil, append_assoc}
use rubydex.Base.Map.{Map, get, insert, get-insert, adjust}
use rubydex.Base.Unseen.{unseen, unseen-insert, unseen-adjust}
use rubydex.Model.Name.{Name, NameRef, resolved, unresolved, inner}
use rubydex.Model.Declaration.{Declaration}
use rubydex.Graph.{Graph, WorkUnit}
use rubydex.Graph.Names.{unresolve_name, push_work}

-- the names without what they are resolved to
abbrev pub name_at : Graph → ℕ → Option Name
name_at g k = Option.map inner (get k g.names)

-- `declared` says that, whatever is left out, no more declarations are counted than before.
pub record Untouched (g g' : Graph) : Type 0 where
  pub documents : g'.documents ≡ g.documents
  pub definitions : g'.definitions ≡ g.definitions
  pub strings : g'.strings ≡ g.strings
  pub constant_references : g'.constant_references ≡ g.constant_references
  pub method_references : g'.method_references ≡ g.method_references
  pub name_dependents : g'.name_dependents ≡ g.name_dependents
  pub names : (k : ℕ) → name_at g' k ≡ name_at g k
  pub declared : (seen : List ℕ) → unseen g'.declarations seen ≤ unseen g.declarations seen
  pub pending_work : (more : List WorkUnit) × (g'.pending_work ≡ g.pending_work ++ more)

pub Untouched-refl : (g : Graph) → Untouched g g
Untouched-refl g = record {
  documents = refl;
  definitions = refl;
  strings = refl;
  constant_references = refl;
  method_references = refl;
  name_dependents = refl;
  names = λ k. refl;
  declared = λ seen. omega arith;
  pending_work = ([], sym (append-nil g.pending_work));
}

pub Untouched-trans : (g h i : Graph) → Untouched g h → Untouched h i → Untouched g i
Untouched-trans g h i a b = record {
  documents = b.documents ∙ a.documents;
  definitions = b.definitions ∙ a.definitions;
  strings = b.strings ∙ a.strings;
  constant_references = b.constant_references ∙ a.constant_references;
  method_references = b.method_references ∙ a.method_references;
  name_dependents = b.name_dependents ∙ a.name_dependents;
  names = λ k. b.names k ∙ a.names k;
  declared = λ seen. omega (arith, a.declared seen, b.declared seen);
  pending_work = (
    a.pending_work.0 ++ b.pending_work.0,
    b.pending_work.1
        ∙ ap (λ l. l ++ b.pending_work.0) a.pending_work.1
        ∙ append_assoc g.pending_work a.pending_work.0 b.pending_work.0,
  );
}

-- writes to declarations, and removals
pub declarations-Untouched :
    (g : Graph) (m : Map Declaration)
    → ((seen : List ℕ) → unseen m seen ≤ unseen g.declarations seen)
    → Untouched g (record g { declarations = m })
declarations-Untouched g m less = record {
  documents = refl;
  definitions = refl;
  strings = refl;
  constant_references = refl;
  method_references = refl;
  name_dependents = refl;
  names = λ k. refl;
  declared = less;
  pending_work = ([], sym (append-nil g.pending_work));
}

-- a write to a declaration that is there
pub insert-Untouched :
    (g : Graph) (id : ℕ) (d d' : Declaration)
    → get id g.declarations ≡ some d
    → Untouched g (record g { declarations = insert id d' g.declarations })
insert-Untouched g id d d' h =
    declarations-Untouched g (insert id d' g.declarations)
      (λ seen. omega (arith, unseen-insert id d d' g.declarations seen h))

pub adjust-Untouched :
    (g : Graph) (id : ℕ) (f : Declaration → Declaration)
    → Untouched g (record g { declarations = adjust id f g.declarations })
adjust-Untouched g id f =
    declarations-Untouched g (adjust id f g.declarations)
      (λ seen. omega (arith, unseen-adjust id f g.declarations seen))

pub names-Untouched :
    (g : Graph) (m : Map NameRef)
    → ((k : ℕ) → Option.map inner (get k m) ≡ name_at g k)
    → Untouched g (record g { names = m })
names-Untouched g m same = record {
  documents = refl;
  definitions = refl;
  strings = refl;
  constant_references = refl;
  method_references = refl;
  name_dependents = refl;
  names = same;
  declared = λ seen. omega arith;
  pending_work = ([], sym (append-nil g.pending_work));
}

pub push_work-Untouched : (unit : WorkUnit) (g : Graph) → Untouched g (push_work unit g)
unfolding push_work
push_work-Untouched unit g = record {
  documents = refl;
  definitions = refl;
  strings = refl;
  constant_references = refl;
  method_references = refl;
  name_dependents = refl;
  names = λ k. refl;
  declared = λ seen. omega arith;
  pending_work = (unit ∷ [], refl);
}

pub name_at-insert :
    (id : ℕ) (r r' : NameRef) (m : Map NameRef) (k : ℕ)
    → get id m ≡ some r
    → inner r' ≡ inner r
    → Option.map inner (get k (insert id r' m)) ≡ Option.map inner (get k m)
name_at-insert id r r' m k found same = ground (arith, get-insert id k r' m, found, same)

pub unresolve_found-Untouched :
    (id : ℕ) (g : Graph) (found : Option NameRef)
    → get id g.names ≡ found
    → Untouched g
        (elim found as (λ _. Graph × Option ℕ) [
          | some (resolved r) ↦
              (record g { names = insert id (unresolved r.name) g.names }, some r.declaration_id)
          | _ ↦ (g, none)
        ]).0
unresolve_found-Untouched id g none h = Untouched-refl g
unresolve_found-Untouched id g (some (unresolved n)) h = Untouched-refl g
unresolve_found-Untouched id g (some (resolved r)) h =
    names-Untouched g (insert id (unresolved r.name) g.names)
      (λ k. name_at-insert id (resolved r) (unresolved r.name) g.names k h refl)

pub unresolve_name-Untouched : (id : ℕ) (g : Graph) → Untouched g (unresolve_name id g).0
unfolding unresolve_name
unresolve_name-Untouched id g = unresolve_found-Untouched id g (get id g.names) refl

-- The graph in what is returned, if anything is, is untouched.
abbrev pub Leaves {ℓ} : {S : Type ℓ} → (S → Graph) → Graph → Checked S → Type 0
Leaves view g m = Ensures (λ s. Untouched g (view s)) m

pub Leaves->>= {ℓ κ} :
    {S : Type ℓ} {T : Type κ} (view : S → Graph) (look : T → Graph) (g : Graph) (m : Checked S)
    (f : S → Checked T)
    → Leaves view g m
    → ((s : S) → Leaves look (view s) (f s))
    → Leaves look g (m >>= f)
Leaves->>= view look g m f first next =
    Ensures->>= (λ s. Untouched g (view s)) (λ t. Untouched g (look t)) m f first
      (λ s a.
        Ensures-map (λ t. Untouched (view s) (look t)) (λ t. Untouched g (look t)) (f s) (next s)
          (λ t b. Untouched-trans g (view s) (look t) a b))

-- what is read before does not matter
pub Leaves-read {ℓ κ} :
    {A : Type ℓ} {T : Type κ} (look : T → Graph) (g : Graph) (m : Checked A) (f : A → Checked T)
    → ((a : A) → Leaves look g (f a))
    → Leaves look g (m >>= f)
Leaves-read look g m f next = Ensures-read (λ t. Untouched g (look t)) m f next

pub Leaves-for_each {ℓ κ} :
    {A : Type ℓ} {S : Type κ} (view : S → Graph) (f : A → S → Checked S)
    → ((a : A) (s : S) → Leaves view (view s) (f a s))
    → (xs : List A) (s : S) → Leaves view (view s) (for_each f xs s)
unfolding for_each
Leaves-for_each view f each [] s = Untouched-refl (view s)
Leaves-for_each view f each (a ∷ xs) s =
    Leaves->>= view view (view s) (f a s) (for_each f xs) (each a s)
      (Leaves-for_each view f each xs)

abbrev pub itself : Graph → Graph
itself g = g

abbrev pub graph_of {ℓ} : {A : Type ℓ} → Graph × A → Graph
graph_of s = s.0
