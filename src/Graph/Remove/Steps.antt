-- ===== src/Graph/Remove/Steps.antt =====
-- Each round of the loops of `remove_document_data` removes one entry and no other.
use rubydex.Base.{
  Ensures-map, ℕ, Option, none, some, [], ◌∷◌, Checked, done, ◌>>=◌, unwrap, ◌≡◌, refl, sym, subst,
  Ensures, Ensures-read,
}
use rubydex.Base.Map.{get, remove}
use rubydex.Model.Name.{NameRef, resolved, unresolved}
use rubydex.Model.Definition.{name_id_of}
use rubydex.Model.Declaration
use rubydex.Model.Declaration.{Declaration}
use rubydex.Model.Reference.{ConstantReference, MethodRef}
use rubydex.Model.Dependent.{NameDependent}
use rubydex.Graph.{Graph}
use rubydex.Graph.Counts.{
  untrack_string, untrack_name, untrack_definition_strings, remove_name_dependent,
}
use rubydex.Graph.Invalidate.{adjust_declaration}
use rubydex.Graph.Invalidate.Relation.{Untouched, Leaves, itself}
use rubydex.Graph.Invalidate.Untouched.{adjust_declaration-Leaves}
use rubydex.Graph.Remove.{
  remove_method_reference, detach_constant_reference, remove_constant_reference,
  drop_definition_name, remove_definition,
}
use rubydex.Graph.Remove.Removes.{
  Without, Removes, Same, Same-refl, then_keeps, on_removed, Without-nil, Without-one,
  Without-missing, remove_name_dependent-Same, untrack_name-Same, untrack_definition_strings-Same,
  untrack_string-Same,
}

pub remove_method_reference-Removes :
    (id : ℕ) (g : Graph) → Ensures (Removes (id ∷ []) [] [] g) (remove_method_reference id g)
unfolding remove_method_reference
remove_method_reference-Removes id g = go (get id g.method_references) refl
  where
    go :
        (found : Option MethodRef)
        → get id g.method_references ≡ found
        → Ensures (Removes (id ∷ []) [] [] g) (elim found as (λ _. Checked Graph) [
          | none ↦ done g
          | some r ↦
              untrack_string r.str (record g { method_references = remove id g.method_references })
        ])
    go none h = record {
      documents = refl;
      method_references = Without-missing id g.method_references h;
      constant_references = Without-nil g.constant_references;
      definitions = Without-nil g.definitions;
    }
    go (some r) h =
        let g' = record g { method_references = remove id g.method_references } in
        on_removed (id ∷ []) [] [] g g' (untrack_string r.str g')
          (record {
            documents = refl;
            method_references = Without-one id g.method_references;
            constant_references = Without-nil g.constant_references;
            definitions = Without-nil g.definitions;
          })
          (untrack_string-Same r.str g')

Untouched-Same : (g g' : Graph) → Untouched g g' → Same g g'
Untouched-Same g g' u = record {
  documents = u.documents;
  method_references =
      subst (Without [] g.method_references) (sym u.method_references)
        (Without-nil g.method_references);
  constant_references =
      subst (Without [] g.constant_references) (sym u.constant_references)
        (Without-nil g.constant_references);
  definitions = subst (Without [] g.definitions) (sym u.definitions) (Without-nil g.definitions);
}

pub Leaves-Same : (g : Graph) (m : Checked Graph) → Leaves itself g m → Ensures (Same g) m
Leaves-Same g m = λ u. Ensures-map (Untouched g) (Same g) m u (Untouched-Same g)

detach_constant_reference-Same :
    (id : ℕ) (r : NameRef) (g : Graph) → Ensures (Same g) (detach_constant_reference id r g)
unfolding detach_constant_reference
detach_constant_reference-Same id (unresolved n) g = Same-refl g
detach_constant_reference-Same id (resolved r) g =
    let f = Declaration.remove_constant_reference id in
    Leaves-Same g (adjust_declaration r.declaration_id f g)
      (adjust_declaration-Leaves r.declaration_id f g)

-- the end of a round: the edge goes, and the name is untracked
untrack_edge-Same :
    (name_id : ℕ) (d : NameDependent) (g : Graph)
    → Ensures (Same g) (untrack_name name_id (remove_name_dependent name_id d g))
untrack_edge-Same name_id d g =
    let g' = remove_name_dependent name_id d g in
    on_removed [] [] [] g g' (untrack_name name_id g') (remove_name_dependent-Same name_id d g)
      (untrack_name-Same name_id g')

pub remove_constant_reference-Removes :
    (id : ℕ) (g : Graph) → Ensures (Removes [] (id ∷ []) [] g) (remove_constant_reference id g)
unfolding remove_constant_reference
remove_constant_reference-Removes id g = go (get id g.constant_references) refl
  where
    g' : Graph
    g' = record g { constant_references = remove id g.constant_references }

    finish : ConstantReference → Graph → Checked Graph
    finish r detached =
        untrack_name r.name_id
          (remove_name_dependent r.name_id (NameDependent.reference id) detached)

    go :
        (found : Option ConstantReference)
        → get id g.constant_references ≡ found
        → Ensures (Removes [] (id ∷ []) [] g) (elim found as (λ _. Checked Graph) [
          | none ↦ done g
          | some r ↦ unwrap (get r.name_id g'.names) >>= λ entry.
              detach_constant_reference id entry g' >>= finish r
        ])
    go none h = record {
      documents = refl;
      method_references = Without-nil g.method_references;
      constant_references = Without-missing id g.constant_references h;
      definitions = Without-nil g.definitions;
    }
    go (some r) h =
        Ensures-read (Removes [] (id ∷ []) [] g) (unwrap (get r.name_id g'.names))
          (λ entry. detach_constant_reference id entry g' >>= finish r)
          (λ entry.
            then_keeps [] (id ∷ []) [] g (detach_constant_reference id entry g') (finish r)
              (on_removed [] (id ∷ []) [] g g' (detach_constant_reference id entry g')
                (record {
                  documents = refl;
                  method_references = Without-nil g.method_references;
                  constant_references = Without-one id g.constant_references;
                  definitions = Without-nil g.definitions;
                })
                (detach_constant_reference-Same id entry g'))
              (untrack_edge-Same r.name_id (NameDependent.reference id)))

drop_definition_name-Same :
    (id : ℕ) (n : Option ℕ) (g : Graph) → Ensures (Same g) (drop_definition_name id n g)
unfolding drop_definition_name
drop_definition_name-Same id none g = Same-refl g
drop_definition_name-Same id (some n) g = untrack_edge-Same n (NameDependent.definition id) g

pub remove_definition-Removes :
    (id : ℕ) (g : Graph) → Ensures (Removes [] [] (id ∷ []) g) (remove_definition id g)
unfolding remove_definition
remove_definition-Removes id g =
    let g' = record g { definitions = remove id g.definitions } in
    Ensures-read (Removes [] [] (id ∷ []) g) (unwrap (get id g.definitions))
      (λ d. drop_definition_name id (name_id_of d) g' >>= untrack_definition_strings d)
      (λ d.
        then_keeps [] [] (id ∷ []) g (drop_definition_name id (name_id_of d) g')
          (untrack_definition_strings d)
          (on_removed [] [] (id ∷ []) g g' (drop_definition_name id (name_id_of d) g')
            (record {
              documents = refl;
              method_references = Without-nil g.method_references;
              constant_references = Without-nil g.constant_references;
              definitions = Without-one id g.definitions;
            })
            (drop_definition_name-Same id (name_id_of d) g'))
          (untrack_definition_strings-Same d))
