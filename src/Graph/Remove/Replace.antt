-- ===== src/Graph/Remove/Replace.antt =====
-- Indexing a document again replaces its data.
use rubydex.Base.{
  ℕ, none, some, List, [], done, >>=-eq-done, ◌≡◌, sym, ap, ◌∙◌, subst, arith, contains, ◌==◌,
  Ensures, Ensures->>=, Ensures-map, if◌then◌else◌,
}
use rubydex.Base.Map.{Map, get, remove, get-remove}
use rubydex.Model.Ids.{Hash}
use rubydex.Model.Document.{Document}
use rubydex.LocalGraph.{LocalGraph}
use rubydex.Graph.{Graph}
use rubydex.Graph.Extend.{extend}
use rubydex.Graph.Extend.Merge.{first_of}
use rubydex.Graph.Extend.Laws.{IsHashed, extend-Merges}
use rubydex.Graph.Worklist.{invalidate}
use rubydex.Graph.Worklist.Untouched.{invalidate-Leaves}
use rubydex.Graph.Remove.{remove_document_data, make_room, consume_document_changes}
use rubydex.Graph.Remove.Removes.{Removes-append, Same}
use rubydex.Graph.Remove.Steps.{Leaves-Same}
use rubydex.Graph.Remove.Exact.{RemovesDocument, remove_document_data-Removes}

make_room-Removes :
    (xxh3_64 : Hash) (fuel : ℕ) (old : Document) (other : LocalGraph) (g : Graph)
    → Ensures (RemovesDocument old g) (make_room xxh3_64 fuel (some old) other g)
unfolding make_room
make_room-Removes xxh3_64 fuel old other g =
    Ensures->>= (Same g) (RemovesDocument old g) (invalidate xxh3_64 fuel (some old) (some other) g)
      (remove_document_data xxh3_64 old)
      (Leaves-Same g (invalidate xxh3_64 fuel (some old) (some other) g)
        (invalidate-Leaves xxh3_64 fuel (some old) (some other) g))
      (λ h a.
        Ensures-map (RemovesDocument old h) (RemovesDocument old g)
          (remove_document_data xxh3_64 old h) (remove_document_data-Removes xxh3_64 old h)
          (λ i b.
            Removes-append [] [] [] old.method_reference_ids old.constant_reference_ids
              old.definition_ids g h i a b))

-- the second map is the first without the listed keys, and with the new entries
abbrev pub Replaces {ℓ} : {V : Type ℓ} → List ℕ → Map V → Map V → Map V → Type ℓ
Replaces ids new m m' =
    (k : ℕ) → get k m' ≡ first_of (get k new) (if contains ids k then none else get k m)

-- If the graph has an old version of the document and consuming the new one does not panic, the
-- graph has the new document in place of the old one and every other document as it was; it has the
-- definitions, constant references and method references of the new document, none that only the
-- old one lists, and every other one as it was.
pub consume_document_changes-Replaces :
    (xxh3_64 : Hash) (fuel : ℕ) (other : LocalGraph) (g g' : Graph) (old : Document)
    → IsHashed other
    → get other.uri_id g.documents ≡ some old
    → consume_document_changes xxh3_64 fuel other g ≡ done g'
    → ((k : ℕ)
        → get k g'.documents
          ≡ (if other.uri_id == k then some other.document else get k g.documents))
      × Replaces old.definition_ids other.definitions g.definitions g'.definitions
      × Replaces old.constant_reference_ids other.constant_references g.constant_references
          g'.constant_references
      × Replaces old.method_reference_ids other.method_references g.method_references
          g'.method_references
unfolding consume_document_changes
consume_document_changes-Replaces xxh3_64 fuel other g g' old hashed found h =
    let start : Graph = record g { documents = remove other.uri_id g.documents } in
    let (ready, room, merged) =
      >>=-eq-done (make_room xxh3_64 fuel (get other.uri_id g.documents) other start) (extend other)
        h in
    let gone =
      subst (Ensures (RemovesDocument old start))
        (ap (λ o. make_room xxh3_64 fuel o other start) (sym found) ∙ room)
        (make_room-Removes xxh3_64 fuel old other start) in
    let m = extend-Merges other ready g' hashed merged in
    (
      λ k.
          let before : get k ready.documents ≡ get k (remove other.uri_id g.documents) =
            ap (get k) gone.documents in
          ground (arith, m.documents k, before, get-remove other.uri_id k g.documents),
      λ k. m.definitions k ∙ ap (first_of (get k other.definitions)) (gone.definitions k),
      λ k.
          m.constant_references k
          ∙ ap (first_of (get k other.constant_references)) (gone.constant_references k),
      λ k.
          m.method_references k
          ∙ ap (first_of (get k other.method_references)) (gone.method_references k),
    )
