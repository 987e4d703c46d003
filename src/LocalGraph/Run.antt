-- ===== src/LocalGraph/Run.antt =====
-- The calls with which the Ruby and the RBS indexer change a local graph, in any order: what they
-- add, and the members and mixins that a definition gains through `get_definition_mut`.
use rubydex.Base.{
  ℕ, List, [], ◌∷◌, ◌≡◌, refl, Checked, done, ◌>>=◌, >>=-eq-done, panic, out_of_fuel, subst,
  contains, Ensures,
}
use rubydex.Base.Map.{get}
use rubydex.Model.Dependent.{has_dependent}
use rubydex.Model.Ids.{Text, Hash}
use rubydex.Model.Source.{Offset, Rule}
use rubydex.Model.Name.{Name}
use rubydex.Model.Reference.{ConstantReference, MethodRef}
use rubydex.Model.Definition.{Definition, Mixin, add_member, add_mixin}
use rubydex.Model.Document
use rubydex.LocalGraph.{
  LocalGraph, new, add_definition, intern_string, add_name, add_constant_reference,
  add_method_reference, add_diagnostic, get_definition_mut,
}
use rubydex.LocalGraph.Index.{IsIndexed}
use rubydex.LocalGraph.Calls.{
  add_definition-IsIndexed, intern_string-IsIndexed, add_name-IsIndexed,
  add_constant_reference-IsIndexed, add_method_reference-IsIndexed, get_definition_mut-IsIndexed,
  add_member-KeepsName, add_mixin-KeepsName,
}

pub data Call : Type 0 where
  defines : Definition → Call
  interns : Text → Call
  names : Name → Call
  refers : ConstantReference → Call
  calls : MethodRef → Call
  diagnoses : Rule → Offset → Text → Call
  -- to a definition that is there, by its id
  gains_member : ℕ → ℕ → Call
  gains_mixin : ℕ → Mixin → Call

-- the state, without the id that the call returns
abbrev state : Checked (LocalGraph × ℕ) → Checked LocalGraph
state r = r >>= λ p. done p.0

state-eq-done :
    (r : Checked (LocalGraph × ℕ)) {g : LocalGraph}
    → state r ≡ done g
    → (id : ℕ) × (r ≡ done (g, id))
state-eq-done (done (g, id)) h = (id, cc)
state-eq-done panic h = cc
state-eq-done out_of_fuel h = cc

add_diagnostic-IsIndexed :
    (g : LocalGraph)
    → IsIndexed g
    → (rule : Rule) (offset : Offset) (message : Text)
    → IsIndexed (add_diagnostic rule offset message g)
unfolding add_diagnostic Document.add_diagnostic
add_diagnostic-IsIndexed g h rule offset message = record {
  definition_edges = h.definition_edges;
  reference_edges = h.reference_edges;
  child_edges = h.child_edges;
  nested_edges = h.nested_edges;
  document_definitions = h.document_definitions;
  document_references = h.document_references;
  document_method_references = h.document_method_references;
}

new-IsIndexed : (uri_id : ℕ) (uri : Text) → IsIndexed (new uri_id (Document.new uri))
unfolding new Document.new contains get has_dependent
new-IsIndexed uri_id uri = record {
  definition_edges = λ id n. refl;
  reference_edges = λ id n. refl;
  child_edges = λ id n. refl;
  nested_edges = λ id n. refl;
  document_definitions = λ id. refl;
  document_references = λ id. refl;
  document_method_references = λ id. refl;
}

module _ (xxh3_64 : Hash) where
  unfoldable pub step : Call → LocalGraph → Checked LocalGraph
  step (defines d) g = state (add_definition xxh3_64 d g)
  step (interns t) g = state (intern_string xxh3_64 t g)
  step (names n) g = state (add_name xxh3_64 n g)
  step (refers r) g = state (add_constant_reference xxh3_64 r g)
  step (calls r) g = state (add_method_reference xxh3_64 r g)
  step (diagnoses rule offset message) g = done (add_diagnostic rule offset message g)
  step (gains_member owner_id member_id) g = get_definition_mut owner_id (add_member member_id) g
  step (gains_mixin id mixin) g = get_definition_mut id (add_mixin mixin) g

  unfoldable pub run : List Call → LocalGraph → Checked LocalGraph
  run [] g = done g
  run (c ∷ rest) g = step c g >>= run rest

module _ (xxh3_64 : Hash) where
  step-IsIndexed :
      (c : Call) (g : LocalGraph) {g' : LocalGraph}
      → IsIndexed g
      → step xxh3_64 c g ≡ done g'
      → IsIndexed g'
  unfolding step
  step-IsIndexed (defines d) g h e =
      add_definition-IsIndexed xxh3_64 g h d (state-eq-done (add_definition xxh3_64 d g) e).1
  step-IsIndexed (interns t) g h e =
      intern_string-IsIndexed xxh3_64 g h t (state-eq-done (intern_string xxh3_64 t g) e).1
  step-IsIndexed (names n) g h e =
      add_name-IsIndexed xxh3_64 g h n (state-eq-done (add_name xxh3_64 n g) e).1
  step-IsIndexed (refers r) g h e =
      add_constant_reference-IsIndexed xxh3_64 g h r
        (state-eq-done (add_constant_reference xxh3_64 r g) e).1
  step-IsIndexed (calls r) g h e =
      add_method_reference-IsIndexed xxh3_64 g h r
        (state-eq-done (add_method_reference xxh3_64 r g) e).1
  step-IsIndexed (diagnoses rule offset message) g h e =
      subst IsIndexed (cc) (add_diagnostic-IsIndexed g h rule offset message)
  step-IsIndexed (gains_member owner_id member_id) g h e = subst (Ensures IsIndexed) e (
      get_definition_mut-IsIndexed g h owner_id (add_member member_id)
        (add_member-KeepsName member_id))
  step-IsIndexed (gains_mixin id mixin) g h e =
      subst (Ensures IsIndexed) e
        (get_definition_mut-IsIndexed g h id (add_mixin mixin) (add_mixin-KeepsName mixin))

  run_from-IsIndexed :
      (cs : List Call) (g : LocalGraph) {g' : LocalGraph}
      → IsIndexed g
      → run xxh3_64 cs g ≡ done g'
      → IsIndexed g'
  unfolding run
  run_from-IsIndexed [] g h e = subst IsIndexed (cc) h
  run_from-IsIndexed (c ∷ rest) g h e =
      let (next, stepped, rest_runs) = >>=-eq-done (step xxh3_64 c g) (run xxh3_64 rest) e in
      run_from-IsIndexed rest next (step-IsIndexed c g h stepped) rest_runs

  -- Whatever calls the indexers make to add definitions, strings, names, references and diagnostics
  -- and to give definitions members and mixins, in any order, if none panics, the local graph that
  -- they build from a new document has exactly the edges that its names, definitions and references call for, and its
  -- document lists exactly the definitions and references that its maps hold.
  pub run-IsIndexed :
      (uri_id : ℕ) (uri : Text) (cs : List Call) {g : LocalGraph}
      → run xxh3_64 cs (new uri_id (Document.new uri)) ≡ done g
      → IsIndexed g
  run-IsIndexed uri_id uri cs e =
      run_from-IsIndexed cs (new uri_id (Document.new uri)) (new-IsIndexed uri_id uri) e
