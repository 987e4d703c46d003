-- ===== src/Graph/Names.antt =====
-- The methods of rust/rubydex/src/model/graph.rs that resolve names and references and take that
-- back.
pub mod Resolution
use rubydex.Base.{
  ℕ, Bool, true, false, Option, none, some, List, [], ◌∷◌, ◌++◌, Checked, done, panic, ◌>>=◌,
  unwrap,
}
use rubydex.Base.Map.{Map, get, insert, remove}
use rubydex.Model.Name.{Name, NameRef, ResolvedName, unresolved, resolved}
use rubydex.Model.Declaration
use rubydex.Model.Declaration.{Declaration}
use rubydex.Graph.{Graph, WorkUnit}

unfoldable pub name_id_to_declaration_id : Graph → ℕ → Option ℕ
name_id_to_declaration_id g name_id = elim (get name_id g.names) [
  | some (resolved r) ↦ some r.declaration_id
  | _ ↦ none
]

unfoldable pub record_resolved_name : ℕ → ℕ → Graph → Checked Graph
record_resolved_name name_id declaration_id g = elim (get name_id g.names) [
  | some (unresolved n) ↦ done (record g {
    names =
        insert name_id (resolved (record { name = n; declaration_id = declaration_id }))
          (remove name_id g.names);
  })
  | some (resolved r) ↦ done g
  | none ↦ panic
]

-- the graph, and the declaration that the name was resolved to
unfoldable pub unresolve_name : ℕ → Graph → Graph × Option ℕ
unresolve_name name_id g = elim (get name_id g.names) [
  | some (resolved r) ↦
      (record g { names = insert name_id (unresolved r.name) g.names }, some r.declaration_id)
  | _ ↦ (g, none)
]

-- the end of `unresolve_reference`
unfoldable pub detach_reference : ℕ → Graph × Option ℕ → Checked (Graph × Option ℕ)
detach_reference reference_id (g, none) = done (g, none)
detach_reference reference_id (g, some old_decl_id) = do
  d ← unwrap (get old_decl_id g.declarations)
  d' ← Declaration.remove_constant_reference reference_id d
  done (record g { declarations = insert old_decl_id d' g.declarations }, some old_decl_id)

unfoldable pub unresolve_reference : ℕ → Graph → Checked (Graph × Option ℕ)
unfolding detach_reference
unresolve_reference reference_id g = elim (get reference_id g.constant_references) [
  | none ↦ done (g, none)
  | some r ↦ detach_reference reference_id (unresolve_name r.name_id g)
]

unfoldable pub take_pending_work : Graph → Graph × List WorkUnit
take_pending_work g = (record g { pending_work = [] }, g.pending_work)

unfoldable pub push_work : WorkUnit → Graph → Graph
push_work unit g = record g { pending_work = g.pending_work ++ unit ∷ [] }

unfoldable pub extend_work : List WorkUnit → Graph → Graph
extend_work units g = record g { pending_work = g.pending_work ++ units }
