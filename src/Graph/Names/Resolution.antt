-- ===== src/Graph/Names/Resolution.antt =====
-- Resolving a name and unresolving it again.
use rubydex.Base.{
  ℕ, false, Option, none, some, Checked, done, ◌≡◌, refl, arith, ◌==◌, contains,
  contains-set_remove, ==_refl, ◌>>=◌, >>=-eq-done, Option-cases, inl, inr,
}
use rubydex.Base.Map.{get, insert, remove, get-insert, get-remove}
use rubydex.Model.Name.{Name, NameRef, ResolvedName, unresolved, resolved}
use rubydex.Model.Reference.{ConstantReference}
use rubydex.Model.Declaration
use rubydex.Model.Declaration.{Declaration, Namespace, base_of}
use rubydex.Graph.{Graph}
use rubydex.Graph.Names.{
  name_id_to_declaration_id, record_resolved_name, unresolve_name, unresolve_reference,
}

-- Recording a resolution never panics for a name that the graph has. A name that had none is then
-- resolved to the declaration, one that was resolved stays as it was, and every other name keeps
-- what it is resolved to.
pub record_resolved_name_lem :
    (name_id declaration_id : ℕ) (g : Graph) (r : NameRef)
    → get name_id g.names ≡ some r
    → (g' : Graph) × (record_resolved_name name_id declaration_id g ≡ done g')
      × (name_id_to_declaration_id g' name_id ≡ elim (name_id_to_declaration_id g name_id) [
        | none ↦ some declaration_id
        | some d ↦ some d
      ])
      × ((k : ℕ)
          → (name_id == k) ≡ false
          → name_id_to_declaration_id g' k ≡ name_id_to_declaration_id g k)
unfolding record_resolved_name name_id_to_declaration_id
record_resolved_name_lem name_id declaration_id g (unresolved n) e =
    let r = resolved (record { name = n; declaration_id = declaration_id }) in
    (
      record g { names = insert name_id r (remove name_id g.names) },
      ground arith,
      ground (arith, get-insert name_id name_id r (remove name_id g.names)),
      λ k other.
          ground
            (arith, get-insert name_id k r (remove name_id g.names), get-remove name_id k g.names),
    )
record_resolved_name_lem name_id declaration_id g (resolved r) e =
    (g, ground arith, ground arith, λ k other. refl)

-- Unresolving a name that has just been resolved gives its declaration back, and each name of the
-- graph is as it was before.
pub unresolve_name-record_resolved_name :
    (name_id declaration_id : ℕ) (g g' : Graph) (n : Name)
    → get name_id g.names ≡ some (unresolved n)
    → record_resolved_name name_id declaration_id g ≡ done g'
    → ((unresolve_name name_id g').1 ≡ some declaration_id)
      × ((k : ℕ) → get k (unresolve_name name_id g').0.names ≡ get k g.names)
unfolding record_resolved_name unresolve_name
unresolve_name-record_resolved_name name_id declaration_id g g' n e h =
    let r = resolved (record { name = n; declaration_id = declaration_id }) in
    let bare = remove name_id g.names in
    (
      ground (arith, get-insert name_id name_id r bare),
      λ k. ground (
        arith,
        get-insert name_id name_id r bare,
        get-insert name_id k r bare,
        get-remove name_id k g.names,
        get-insert name_id k (unresolved n) (insert name_id r bare),
      ),
    )

remove_constant_reference-gone :
    (id : ℕ) (d d' : Declaration)
    → Declaration.remove_constant_reference id d ≡ done d'
    → contains (base_of d').references id ≡ false
unfolding Declaration.remove_constant_reference
remove_constant_reference-gone id (Declaration.namespace (Namespace.class n)) d' h =
    ground (arith, contains-set_remove id id n.base.references, ==_refl id)
remove_constant_reference-gone id (Declaration.namespace (Namespace.singleton_class n)) d' h =
    ground (arith, contains-set_remove id id n.base.references, ==_refl id)
remove_constant_reference-gone id (Declaration.namespace (Namespace.module_namespace n)) d' h =
    ground (arith, contains-set_remove id id n.base.references, ==_refl id)
remove_constant_reference-gone id (Declaration.namespace (Namespace.todo n)) d' h =
    ground (arith, contains-set_remove id id n.base.references, ==_refl id)
remove_constant_reference-gone id (Declaration.constant d) d' h =
    ground (arith, contains-set_remove id id d.references, ==_refl id)
remove_constant_reference-gone id (Declaration.constant_alias d) d' h =
    ground (arith, contains-set_remove id id d.references, ==_refl id)
remove_constant_reference-gone id _ d' h = cc

-- If unresolving a reference, whose name is resolved, does not panic, it returns the declaration
-- that the name was resolved to, that declaration is still there and no longer holds the
-- reference, and the name is unresolved.
pub unresolve_reference_lem :
    (reference_id : ℕ) (g g' : Graph) (c : ConstantReference) (r : ResolvedName) (result : Option ℕ)
    → get reference_id g.constant_references ≡ some c
    → get c.name_id g.names ≡ some (resolved r)
    → unresolve_reference reference_id g ≡ done (g', result)
    → (result ≡ some r.declaration_id)
      × ((d : Declaration) × (get r.declaration_id g'.declarations ≡ some d)
          × (contains (base_of d).references reference_id ≡ false))
      × (get c.name_id g'.names ≡ some (unresolved r.name))
unfolding unresolve_reference unresolve_name
unresolve_reference_lem reference_id g g' c r result known named h =
    elim (Option-cases (get r.declaration_id g.declarations)) [
      | inl gone ↦ absurd (ground (arith, gone))
      | inr (d, there) ↦
          let names = insert c.name_id (unresolved r.name) g.names in
          let store : Declaration → Checked (Graph × Option ℕ) = λ d'. done (
            record g { names = names; declarations = insert r.declaration_id d' g.declarations },
            some r.declaration_id,
          ) in
          let removal = Declaration.remove_constant_reference reference_id d in
          let runs : (removal >>= store) ≡ done (g', result) = ground (arith, there) in
          let (d', removed, stored) = >>=-eq-done removal store runs in
          (
            ground (arith, stored),
            (
              d',
              ground
                  (arith, stored, get-insert r.declaration_id r.declaration_id d' g.declarations),
              remove_constant_reference-gone reference_id d d' removed,
            ),
            ground (arith, stored, get-insert c.name_id c.name_id (unresolved r.name) g.names),
          )
    ]
