-- ===== src/Graph/Declarations/Add.antt =====
-- Adding and promoting declarations loses nothing that was recorded.
use rubydex.Base.{
  ℕ, Bool, true, false, ◌&&◌, ◌||◌, some, [], ◌∷◌, ◌++◌, Checked, done, ◌≡◌, refl, arith, ◌>>=◌,
  >>=-eq-done, debug_assert, ◌==◌, contains, contains-set_extend, subst, contains-append, ==_refl,
  set_extend,
}
use rubydex.Base.Map.{get, insert, get-insert, get-remove, remove}
use rubydex.Model.Ids.{Text, text_eq, Hash, id_from}
use rubydex.Model.Declaration
use rubydex.Model.Declaration.{
  Declaration, Namespace, SimpleDeclaration, namespace, base_of, as_namespace, definitions, inner,
  constant_references,
}
use rubydex.Graph.{Graph}
use rubydex.Graph.Declarations.{
  absorb, declare, promote_if, add_declaration, promote_constant_to_namespace,
  is_namespace_definition, is_promotable_declaration,
}

-- what a declaration holds under a reference id; only namespaces, constants and constant aliases
-- hold any constant references
abbrev pub has_reference : Declaration → ℕ → Bool
has_reference d r = contains (base_of d).references r

-- `new` has taken over all that `old` held, behind its own
pub record Absorbs (old new result : Declaration) : Type 0 where
  pub name : (base_of result).name ≡ (base_of new).name
  pub owner : (base_of result).owner_id ≡ (base_of new).owner_id
  pub definitions : definitions result ≡ definitions new ++ definitions old
  pub diagnostics :
      (base_of result).diagnostics ≡ (base_of new).diagnostics ++ (base_of old).diagnostics
  pub references : (r : ℕ) → has_reference result r ≡ (has_reference new r || has_reference old r)

-- the same of the structs
record Takes (old : SimpleDeclaration) (d r : SimpleDeclaration) : Type 0 where
  name : r.name ≡ d.name
  owner : r.owner_id ≡ d.owner_id
  definition_ids : r.definition_ids ≡ d.definition_ids ++ old.definition_ids
  diagnostics : r.diagnostics ≡ d.diagnostics ++ old.diagnostics
  references : r.references ≡ set_extend d.references old.references

extend_declaration-Takes :
    (old : Declaration) (d r : Declaration.NamespaceDeclaration)
    → Declaration.extend_declaration old d ≡ done r
    → Takes (base_of old) d.base r.base
unfolding Declaration.extend_declaration
extend_declaration-Takes (namespace n) d r h = ground arith
extend_declaration-Takes _ d r h = ground arith

Absorbs-namespace :
    (old : Declaration) (n n' : Namespace)
    → Takes (base_of old) (inner n).base (inner n').base
    → Absorbs old (namespace n) (namespace n')
Absorbs-namespace old n n' t = record {
  name = t.name;
  owner = t.owner;
  definitions = t.definition_ids;
  diagnostics = t.diagnostics;
  references = λ r.
      rw t.references (contains-set_extend (inner n).base.references (base_of old).references r);
}

-- for any of the four constructors
wrapped-Takes :
    (wrap : Declaration.NamespaceDeclaration → Namespace)
    → ((x : Declaration.NamespaceDeclaration) → (inner (wrap x)).base ≡ x.base)
    → (old : Declaration) (d : Declaration.NamespaceDeclaration) (n' : Namespace)
    → (Declaration.extend_declaration old d >>= λ x. done (wrap x)) ≡ done n'
    → Takes (base_of old) d.base (inner n').base
wrapped-Takes wrap same old d n' h =
    let (r, e, k) = >>=-eq-done (Declaration.extend_declaration old d) (λ x. done (wrap x)) h in
    let base : r.base ≡ (inner n').base = cc (same r, unwrapped wrap r n' k) in
    subst (Takes (base_of old) d.base) base (extend_declaration-Takes old d r e)
  where
    unwrapped :
        (wrap : Declaration.NamespaceDeclaration → Namespace) (r : Declaration.NamespaceDeclaration)
        (n' : Namespace)
        → ◌≡◌ {A = Checked Namespace} (done (wrap r)) (done n')
        → (inner (wrap r)).base ≡ (inner n').base
    unwrapped wrap r n' k = cc

extend-Takes :
    (old : Declaration) (n n' : Namespace)
    → Declaration.extend old n ≡ done n'
    → Takes (base_of old) (inner n).base (inner n').base
unfolding Declaration.extend
extend-Takes old (Namespace.class d) = wrapped-Takes Namespace.class (λ x. refl) old d
extend-Takes old (Namespace.singleton_class d) =
    wrapped-Takes Namespace.singleton_class (λ x. refl) old d
extend-Takes old (Namespace.module_namespace d) =
    wrapped-Takes Namespace.module_namespace (λ x. refl) old d
extend-Takes old (Namespace.todo d) = wrapped-Takes Namespace.todo (λ x. refl) old d

absorb-Absorbs :
    (old new result : Declaration) → absorb old new ≡ done result → Absorbs old new result
unfolding absorb
absorb-Absorbs old (namespace n) result h =
    let (n', e, k) = >>=-eq-done (Declaration.extend old n) (λ x. done (namespace x)) h in
    subst (Absorbs old (namespace n)) (cc (k))
      (Absorbs-namespace old n n' (extend-Takes old n n' e))
absorb-Absorbs old _ result h = cc

-- If promoting a declaration does not panic, the declaration is a new one with the name and the
-- owner that the constructor gave it; it has the definitions and diagnostics of the old one behind
-- its own, and both their constant references; and no other declaration has changed.
pub promote-Absorbs :
    (id : ℕ) (constructor : Text → ℕ → Declaration) (g g' : Graph) (old : Declaration)
    → get id g.declarations ≡ some old
    → promote_constant_to_namespace id constructor g ≡ done g'
    → (new : Declaration) × (get id g'.declarations ≡ some new)
      × Absorbs old (constructor (base_of old).name (base_of old).owner_id) new
      × ((k : ℕ) → (id == k) ≡ false → get k g'.declarations ≡ get k g.declarations)
unfolding promote_constant_to_namespace
promote-Absorbs id constructor g g' old known h =
    let built = constructor (base_of old).name (base_of old).owner_id in
    let store : Declaration → Checked Graph =
      λ new. done (record g { declarations = insert id new (remove id g.declarations) }) in
    let (new, absorbed, stored) = >>=-eq-done (absorb old built) store (rw known at h) in
    (
      new,
      ground (arith, stored, get-insert id id new (remove id g.declarations)),
      absorb-Absorbs old built new absorbed,
      λ k other. ground (
        arith,
        stored,
        get-insert id k new (remove id g.declarations),
        get-remove id k g.declarations,
      ),
    )

-- One more definition at the end, and the rest as it was.
record AddsDefinition (id : ℕ) (d d' : Declaration) : Type 0 where
  new : contains (definitions d) id ≡ false
  definitions : definitions d' ≡ definitions d ++ id ∷ []
  references : (base_of d').references ≡ (base_of d).references

add_definition-AddsDefinition :
    (id : ℕ) (d d' : Declaration)
    → Declaration.add_definition id d ≡ done d'
    → AddsDefinition id d d'
unfolding Declaration.add_definition
add_definition-AddsDefinition id (namespace (Namespace.class n)) d' h = ground arith
add_definition-AddsDefinition id (namespace (Namespace.singleton_class n)) d' h = ground arith
add_definition-AddsDefinition id (namespace (Namespace.module_namespace n)) d' h = ground arith
add_definition-AddsDefinition id (namespace (Namespace.todo n)) d' h = ground arith
add_definition-AddsDefinition id _ d' h = ground arith

-- What becomes of the declaration that had the name.
pub record Keeps (definition_id : ℕ) (old d : Declaration) : Type 0 where
  pub new : contains (definitions d) definition_id ≡ true
  pub definitions :
      (x : ℕ) → contains (definitions old) x ≡ true → contains (definitions d) x ≡ true
  pub references : (r : ℕ) → has_reference old r ≡ true → has_reference d r ≡ true

unpromoted-Keeps :
    (id : ℕ) (old d : Declaration) → Declaration.add_definition id old ≡ done d → Keeps id old d
unfolding contains
unpromoted-Keeps id old d h =
    let a = add_definition-AddsDefinition id old d h in
    record {
      new = ground (arith, a, contains-append (definitions old) (id ∷ []) id, ==_refl id);
      definitions = λ x held. ground (arith, a, contains-append (definitions old) (id ∷ []) x);
      references = λ r held. ground (arith, a);
    }

promoted-Keeps :
    (id : ℕ) (old built mid d : Declaration)
    → absorb old built ≡ done mid
    → Declaration.add_definition id mid ≡ done d
    → Keeps id old d
promoted-Keeps id old built mid d e h =
    let a = absorb-Absorbs old built mid e in
    let k = unpromoted-Keeps id mid d h in
    record {
      new = k.new;
      definitions = λ x held.
          k.definitions x (
            ground (arith, a.definitions, contains-append (definitions built) (definitions old) x));
      references = λ r held. k.references r (ground (arith, a.references r));
    }

promote_if-Keeps :
    (promotes : Bool) (id : ℕ) (old built mid d : Declaration)
    → promote_if promotes old built ≡ done mid
    → Declaration.add_definition id mid ≡ done d
    → Keeps id old d
unfolding promote_if
promote_if-Keeps true id old built mid d e h = promoted-Keeps id old built mid d e h
promote_if-Keeps false id old built mid d e h =
    unpromoted-Keeps id old d (subst (λ x. Declaration.add_definition id x ≡ done d) (cc) h)

declare-Keeps :
    (g : Graph) (id : ℕ) (name : Text) (constructor : Text → Declaration) (old d : Declaration)
    → declare g id name constructor (some old) ≡ done d
    → Keeps id old d
unfolding declare
declare-Keeps g id name constructor old d h =
    let promotes = is_namespace_definition g id && is_promotable_declaration g old in
    let kept = promote_if promotes old (constructor name) in
    let (asserted, _, rest) =
      >>=-eq-done (debug_assert (text_eq (base_of old).name name))
        (λ _. kept >>= Declaration.add_definition id) h in
    let (mid, e, added) = >>=-eq-done kept (Declaration.add_definition id) rest in
    promote_if-Keeps promotes id old (constructor name) mid d e added

-- If adding a definition to a name that has a declaration does not panic, the id is that of the
-- name; the declaration stored under it holds the new definition and every definition and constant
-- reference that the old one held, whether or not it was promoted to a namespace; and no other
-- declaration has changed.
pub add_declaration-Keeps :
    (xxh3_64 : Hash) (definition_id : ℕ) (name : Text) (constructor : Text → Declaration)
    (g g' : Graph) (id : ℕ) (old : Declaration)
    → get (id_from xxh3_64 name) g.declarations ≡ some old
    → add_declaration xxh3_64 definition_id name constructor g ≡ done (g', id)
    → (id_from xxh3_64 name ≡ id)
      × ((d : Declaration) × (get id g'.declarations ≡ some d) × Keeps definition_id old d)
      × ((k : ℕ) → (id == k) ≡ false → get k g'.declarations ≡ get k g.declarations)
unfolding add_declaration
add_declaration-Keeps xxh3_64 definition_id name constructor g g' id old known h =
    let key = id_from xxh3_64 name in
    let store : Declaration → Checked (Graph × ℕ) =
      λ d. done (record g { declarations = insert key d g.declarations }, key) in
    let (d, declared, stored) =
      >>=-eq-done (declare g definition_id name constructor (some old)) store (rw known at h) in
    let same : key ≡ id = ground (arith, stored) in
    (
      same,
      (
        d,
        ground (arith, stored, get-insert key id d g.declarations),
        declare-Keeps g definition_id name constructor old d declared,
      ),
      λ k other. ground (arith, stored, get-insert key k d g.declarations),
    )
