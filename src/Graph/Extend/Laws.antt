-- ===== src/Graph/Extend/Laws.antt =====
-- `extend` as a whole: the merged graph holds what the graph and the local graph hold.
use rubydex.Base.{◌==◌, if◌then◌else◌, ℕ, ◌+◌, true, ◌||◌, none, some, ◌++◌, map, done, ◌≡◌, arith}
use rubydex.Base.Map.{UniqueKeys, get, contains_key, keys}
use rubydex.Model.Dependent.{NameDependent, has_edge}
use rubydex.LocalGraph.{LocalGraph}
use rubydex.Graph.{Graph, definition, constant_ref}
use rubydex.Graph.Extend.{
  extend, insert_new, insert_all, merge_strings, merge_names, merge_dependents,
}
use rubydex.Graph.Extend.Merge.{
  string_uses, name_uses, resolution, first_of, get-insert_all, string_uses-merge_strings,
  name_uses-merge_names, resolution-merge_names, has_edge-merge_dependents, get-insert_new,
}

-- The iteration of a hash map meets each key once.
pub record IsHashed (g : LocalGraph) : Type 0 where
  pub strings : UniqueKeys g.strings
  pub names : UniqueKeys g.names
  pub name_dependents : UniqueKeys g.name_dependents

pub record Merges (other : LocalGraph) (g g' : Graph) : Type 0 where
  pub fresh : get other.uri_id g.documents ≡ none
  pub documents :
      (k : ℕ)
      → get k g'.documents ≡ (if other.uri_id == k then some other.document else get k g.documents)
  pub definitions :
      (k : ℕ) → get k g'.definitions ≡ first_of (get k other.definitions) (get k g.definitions)
  pub constant_references :
      (k : ℕ)
      → get k g'.constant_references
        ≡ first_of (get k other.constant_references) (get k g.constant_references)
  pub method_references :
      (k : ℕ)
      → get k g'.method_references
        ≡ first_of (get k other.method_references) (get k g.method_references)
  pub strings :
      (k : ℕ) → string_uses g'.strings k ≡ string_uses other.strings k + string_uses g.strings k
  pub names : (k : ℕ) → name_uses g'.names k ≡ name_uses other.names k + name_uses g.names k
  pub resolutions :
      (k : ℕ) → contains_key k g.names ≡ true → resolution g'.names k ≡ resolution g.names k
  pub edges :
      (n : ℕ) (d : NameDependent)
      → has_edge g'.name_dependents n d
        ≡ (has_edge other.name_dependents n d || has_edge g.name_dependents n d)
  pub work :
      g'.pending_work
      ≡ g.pending_work
        ++ (map definition (keys other.definitions)
            ++ map constant_ref (keys other.constant_references))
  pub declarations : g'.declarations ≡ g.declarations

-- Each map of the result is what its loop returns.
record Parts (other : LocalGraph) (g g' : Graph) : Type 0 where
  documents : insert_new other.uri_id other.document g.documents ≡ done g'.documents
  strings : merge_strings other.strings g.strings ≡ done g'.strings
  names : merge_names other.names g.names ≡ done g'.names
  definitions : insert_all other.definitions g.definitions ≡ done g'.definitions
  constant_references :
      insert_all other.constant_references g.constant_references ≡ done g'.constant_references
  method_references :
      insert_all other.method_references g.method_references ≡ done g'.method_references
  index : g'.name_dependents ≡ merge_dependents other.name_dependents g.name_dependents
  work :
      g'.pending_work
      ≡ g.pending_work
        ++ (map definition (keys other.definitions)
            ++ map constant_ref (keys other.constant_references))
  declarations : g'.declarations ≡ g.declarations

extend-Parts : (other : LocalGraph) (g g' : Graph) → extend other g ≡ done g' → Parts other g g'
unfolding extend
extend-Parts other g g' h = ground arith

-- If `extend` does not panic, the document was not in the graph and is now, beside the others; every
-- definition and reference of the local graph is added and none is lost; the use counts of strings and names are
-- the sums of both; names known to the graph stay resolved as they were; the reverse index has the
-- edges of both; each new definition and constant reference is queued as work, behind the work
-- that was pending; and the declarations are unchanged.
pub extend-Merges :
    (other : LocalGraph) (g g' : Graph)
    → IsHashed other
    → extend other g ≡ done g'
    → Merges other g g'
extend-Merges other g g' hashed h =
    let parts = extend-Parts other g g' h in
    record {
      fresh =
          (get-insert_new other.uri_id 0 other.document g.documents g'.documents parts.documents).0;
      documents = λ k.
          (get-insert_new other.uri_id k other.document g.documents g'.documents parts.documents).1;
      definitions =
          λ k. get-insert_all other.definitions g.definitions g'.definitions k parts.definitions;
      constant_references = λ k.
          get-insert_all other.constant_references g.constant_references g'.constant_references k
            parts.constant_references;
      method_references = λ k.
          get-insert_all other.method_references g.method_references g'.method_references k
            parts.method_references;
      strings = λ k.
          string_uses-merge_strings other.strings g.strings g'.strings k hashed.strings
            parts.strings;
      names = λ k. name_uses-merge_names other.names g.names g'.names k hashed.names parts.names;
      resolutions = λ k. resolution-merge_names other.names g.names g'.names k parts.names;
      edges = λ n d. rw parts.index (
          has_edge-merge_dependents other.name_dependents g.name_dependents n d
            hashed.name_dependents);
      work = parts.work;
      declarations = parts.declarations;
    }
