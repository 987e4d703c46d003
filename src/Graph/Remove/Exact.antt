-- ===== src/Graph/Remove/Exact.antt =====
-- Deleting a document removes its data and no other.
use rubydex.Base.{
  ℕ, Option, none, some, List, [], ◌∷◌, done, ◌>>=◌, ◌≡◌, refl, ◌∙◌, subst, arith, for_each,
  Ensures, Ensures->>=, Ensures-read, Ensures-map,
}
use mathlib.Core.List.{append-nil}
use rubydex.Base.Map.{get, remove}
use rubydex.Model.Ids.{Text, Hash, id_from}
use rubydex.Model.Document.{Document}
use rubydex.Graph.{Graph}
use rubydex.Graph.Worklist.{invalidate}
use rubydex.Graph.Worklist.Untouched.{invalidate-Leaves}
use rubydex.Graph.Remove.{
  remove_method_reference, remove_constant_reference, missed_definitions, detach_missed,
  remove_definition, remove_document_data, delete_found, delete_document,
}
use rubydex.Graph.Remove.Removes.{Without, Removes, Removes-append, Same, Same-refl, Without-nil}
use rubydex.Graph.Remove.Steps.{
  remove_method_reference-Removes, remove_constant_reference-Removes, remove_definition-Removes,
  Leaves-Same,
}

remove_method_references-Removes :
    (ids : List ℕ) (g : Graph)
    → Ensures (Removes ids [] [] g) (for_each remove_method_reference ids g)
unfolding for_each
remove_method_references-Removes [] g = Same-refl g
remove_method_references-Removes (id ∷ ids) g =
    Ensures->>= (Removes (id ∷ []) [] [] g) (Removes (id ∷ ids) [] [] g)
      (remove_method_reference id g) (for_each remove_method_reference ids)
      (remove_method_reference-Removes id g)
      (λ h a.
        Ensures-map (Removes ids [] [] h) (Removes (id ∷ ids) [] [] g)
          (for_each remove_method_reference ids h) (remove_method_references-Removes ids h)
          (λ i b. Removes-append (id ∷ []) [] [] ids [] [] g h i a b))

remove_constant_references-Removes :
    (ids : List ℕ) (g : Graph)
    → Ensures (Removes [] ids [] g) (for_each remove_constant_reference ids g)
unfolding for_each
remove_constant_references-Removes [] g = Same-refl g
remove_constant_references-Removes (id ∷ ids) g =
    Ensures->>= (Removes [] (id ∷ []) [] g) (Removes [] (id ∷ ids) [] g)
      (remove_constant_reference id g) (for_each remove_constant_reference ids)
      (remove_constant_reference-Removes id g)
      (λ h a.
        Ensures-map (Removes [] ids [] h) (Removes [] (id ∷ ids) [] g)
          (for_each remove_constant_reference ids h) (remove_constant_references-Removes ids h)
          (λ i b. Removes-append [] (id ∷ []) [] [] ids [] g h i a b))

remove_definitions-Removes :
    (ids : List ℕ) (g : Graph) → Ensures (Removes [] [] ids g) (for_each remove_definition ids g)
unfolding for_each
remove_definitions-Removes [] g = Same-refl g
remove_definitions-Removes (id ∷ ids) g =
    Ensures->>= (Removes [] [] (id ∷ []) g) (Removes [] [] (id ∷ ids) g) (remove_definition id g)
      (for_each remove_definition ids) (remove_definition-Removes id g)
      (λ h a.
        Ensures-map (Removes [] [] ids h) (Removes [] [] (id ∷ ids) g)
          (for_each remove_definition ids h) (remove_definitions-Removes ids h)
          (λ i b. Removes-append [] [] (id ∷ []) [] [] ids g h i a b))

detach_missed-Same : (missed : List ℕ) (g : Graph) → Same g (detach_missed missed g)
unfolding detach_missed
detach_missed-Same missed g = record {
  documents = refl;
  method_references = Without-nil g.method_references;
  constant_references = Without-nil g.constant_references;
  definitions = Without-nil g.definitions;
}

-- what the document lists is gone
abbrev pub RemovesDocument : Document → Graph → Graph → Type 0
RemovesDocument d = Removes d.method_reference_ids d.constant_reference_ids d.definition_ids

after_three :
    (ms cs ds : List ℕ) (g a b c d : Graph)
    → Removes ms [] [] g a
    → Removes [] cs [] a b
    → Same b c
    → Removes [] [] ds c d
    → Removes ms cs ds g d
after_three ms cs ds g a b c d r s t u =
    subst (λ m. Removes m cs ds g d) (append-nil ms)
      (Removes-append ms [] [] [] cs ds g a d r (
        subst (λ l. Removes [] l ds a d) (append-nil cs)
          (Removes-append [] cs [] [] [] ds a b d s (Removes-append [] [] [] [] [] ds b c d t u))))

pub remove_document_data-Removes :
    (xxh3_64 : Hash) (d : Document) (g : Graph)
    → Ensures (RemovesDocument d g) (remove_document_data xxh3_64 d g)
unfolding remove_document_data
remove_document_data-Removes xxh3_64 d g =
    let goal : Graph → Type 0 = RemovesDocument d g in
    Ensures->>= (Removes d.method_reference_ids [] [] g) goal
      (for_each remove_method_reference d.method_reference_ids g)
      (λ a. for_each remove_constant_reference d.constant_reference_ids a >>= λ b.
        missed_definitions xxh3_64 b d.definition_ids >>= λ missed.
        for_each remove_definition d.definition_ids (detach_missed missed b))
      (remove_method_references-Removes d.method_reference_ids g)
      (λ a r.
        Ensures->>= (Removes [] d.constant_reference_ids [] a) goal
          (for_each remove_constant_reference d.constant_reference_ids a)
          (λ b. missed_definitions xxh3_64 b d.definition_ids >>= λ missed.
            for_each remove_definition d.definition_ids (detach_missed missed b))
          (remove_constant_references-Removes d.constant_reference_ids a)
          (λ b s.
            Ensures-read goal (missed_definitions xxh3_64 b d.definition_ids)
              (λ missed. for_each remove_definition d.definition_ids (detach_missed missed b))
              (λ missed.
                Ensures-map (Removes [] [] d.definition_ids (detach_missed missed b)) goal
                  (for_each remove_definition d.definition_ids (detach_missed missed b))
                  (remove_definitions-Removes d.definition_ids (detach_missed missed b))
                  (λ e u.
                    after_three d.method_reference_ids d.constant_reference_ids d.definition_ids g a
                      b (detach_missed missed b) e r s (detach_missed-Same missed b) u))))

abbrev Deleted : ℕ → Document → Graph → Graph × Option ℕ → Type 0
Deleted id d g s =
    (s.1 ≡ some id)
    × (s.0.documents ≡ remove id g.documents)
    × Without d.method_reference_ids g.method_references s.0.method_references
    × Without d.constant_reference_ids g.constant_references s.0.constant_references
    × Without d.definition_ids g.definitions s.0.definitions

delete_found-Deleted :
    (xxh3_64 : Hash) (fuel id : ℕ) (d : Document) (g : Graph)
    → Ensures (Deleted id d g) (delete_found xxh3_64 fuel id d g)
unfolding delete_found
delete_found-Deleted xxh3_64 fuel id d g =
    let start : Graph = record g { documents = remove id g.documents } in
    Ensures->>= (Same start) (Deleted id d g) (invalidate xxh3_64 fuel (some d) none start)
      (λ g1. remove_document_data xxh3_64 d g1 >>= λ g2. done (g2, some id))
      (Leaves-Same start (invalidate xxh3_64 fuel (some d) none start)
        (invalidate-Leaves xxh3_64 fuel (some d) none start))
      (λ g1 a.
        Ensures->>= (RemovesDocument d g1) (Deleted id d g) (remove_document_data xxh3_64 d g1)
          (λ g2. done (g2, some id)) (remove_document_data-Removes xxh3_64 d g1)
          (λ g2 b.
            let c =
              Removes-append [] [] [] d.method_reference_ids d.constant_reference_ids
                d.definition_ids start g1 g2 a b in
            (refl, c.documents, c.method_references, c.constant_references, c.definitions)))

delete_document-found :
    (xxh3_64 : Hash) (fuel : ℕ) (uri : Text) (g : Graph) (d : Document)
    → get (id_from xxh3_64 uri) g.documents ≡ some d
    → delete_found xxh3_64 fuel (id_from xxh3_64 uri) d g ≡ delete_document xxh3_64 fuel uri g
unfolding delete_document
delete_document-found xxh3_64 fuel uri g d found = ground (arith, found)

-- If deleting a document that the graph has does not panic, its id is returned; the document is
-- gone and no other; and of the definitions, constant references and method references of the
-- graph exactly those that the document lists are gone, every other being as it was.
pub delete_document-Removes :
    (xxh3_64 : Hash) (fuel : ℕ) (uri : Text) (g g' : Graph) (d : Document) (result : Option ℕ)
    → get (id_from xxh3_64 uri) g.documents ≡ some d
    → delete_document xxh3_64 fuel uri g ≡ done (g', result)
    → (result ≡ some (id_from xxh3_64 uri))
      × (g'.documents ≡ remove (id_from xxh3_64 uri) g.documents)
      × Without d.method_reference_ids g.method_references g'.method_references
      × Without d.constant_reference_ids g.constant_references g'.constant_references
      × Without d.definition_ids g.definitions g'.definitions
unfolding delete_document
delete_document-Removes xxh3_64 fuel uri g g' d result found h =
    let id = id_from xxh3_64 uri in
    subst (Ensures (Deleted id d g)) (delete_document-found xxh3_64 fuel uri g d found ∙ h)
      (delete_found-Deleted xxh3_64 fuel id d g)
