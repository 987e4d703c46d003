-- ===== src/Resolution/Visibilities/Growing.antt =====
-- What changes of visibility keep.
use rubydex.Base.{
  ℕ, Bool, true, false, Option, none, some, List, [], ◌∷◌, Ensures, Ensures-read, unwrap, ◌≡◌, refl,
  arith, Option-cases, inl, inr, if◌then◌else◌,
}
use rubydex.Base.Map.{Map, get, adjust, get-adjust}
use rubydex.Model.Ids.{Text, Hash}
use rubydex.Model.Source.{Diagnostic}
use rubydex.Model.Document
use rubydex.Model.Document.{Document}
use rubydex.Model.Definition.{Definition, ConstantVisibilityDefinition, MethodVisibilityDefinition}
use rubydex.Model.Declaration.{Declaration, NamespaceDeclaration}
use rubydex.Graph.{Graph}
use rubydex.Graph.Declarations.{is_namespace}
use rubydex.Resolution.Grows.{
  IsGrowing, growing_rules, IsGrowing-updates, IsGrowing-changes, IsGrowing-reads, IsGrowing-pure,
  IsGrowing->>=, IsGrowing-case_option, Grows, Grows-refl, GrowsTo, undiagnosed,
}
use rubydex.Resolution.Grows.Steps.{add_declaration-Grows, Grows-update_base, extend_work-Grows}
use rubydex.Resolution.Eager.Growing.{
  with_owner-IsGrowing, eager_singleton_class-IsGrowing, declare_method-IsGrowing,
  lexical_owner-IsGrowing,
}
use rubydex.Resolution.Visibilities.{
  MemberSearch, applied, missing, add_document_diagnostic, add_declaration_diagnostic,
  visibility_owner, set_visibility, handle_constant_visibility, visibility_target, report_undefined,
  after_method_search, resolve_visibility_in, resolve_method_visibility, visibility_unit,
  visibility_units, resolve_method_visibilities,
}

Grows-documents :
    (g : Graph) (m : Map Document)
    → ((id : ℕ) → undiagnosed (get id m) ≡ undiagnosed (get id g.documents))
    → Grows g (record g { documents = m })
unfolding is_namespace
Grows-documents g m h =
    let same = Grows-refl g in
    record {
      definitions = refl;
      strings = refl;
      constant_references = refl;
      method_references = refl;
      name_dependents = refl;
      documents = h;
      names = same.names;
      declared = same.declared;
      namespaces = same.namespaces;
      pending = same.pending;
    }

undiagnosed-add_diagnostic :
    (id j : ℕ) (diagnostic : Diagnostic) (m : Map Document)
    → undiagnosed (get j (adjust id (Document.add_diagnostic diagnostic) m)) ≡ undiagnosed (get j m)
unfolding Document.add_diagnostic
undiagnosed-add_diagnostic id j diagnostic m = elim (Option-cases (get j m)) [
  | inl absent ↦ ground (arith, absent, get-adjust id j (Document.add_diagnostic diagnostic) m)
  | inr (d, there) ↦ ground (arith, there, get-adjust id j (Document.add_diagnostic diagnostic) m)
]

document_diagnostic-Grows :
    (id : ℕ) (diagnostic : Diagnostic) → GrowsTo (λ g. g) (add_document_diagnostic id diagnostic)
unfolding add_document_diagnostic
document_diagnostic-Grows id diagnostic g =
    Ensures-read (λ g'. Grows g g') (unwrap (get id g.documents)) _
      λ d. Grows-documents g _ (λ j. undiagnosed-add_diagnostic id j diagnostic g.documents)

declaration_diagnostic-Grows :
    (id : ℕ) (diagnostic : Diagnostic) → GrowsTo (λ g. g) (add_declaration_diagnostic id diagnostic)
unfolding add_declaration_diagnostic
declaration_diagnostic-Grows id diagnostic g =
    Ensures-read (λ g'. Grows g g') (unwrap (get id g.declarations)) _ λ d. Grows-update_base g id _

module _ (xxh3_64 : Hash) (fuel : ℕ) where
  visibility_owner-IsGrowing :
      (id : ℕ) (nesting o : Option ℕ) → IsGrowing (visibility_owner xxh3_64 fuel id nesting o)
  unfolding visibility_owner
  visibility_owner-IsGrowing id nesting none = lexical_owner-IsGrowing xxh3_64 fuel id nesting
  visibility_owner-IsGrowing id nesting (some receiver) = IsGrowing-reads _

  set_visibility-IsGrowing :
      (id : ℕ) (v : ConstantVisibilityDefinition) (t : Text) (owner_id : ℕ)
      (n : NamespaceDeclaration) (o : Option Declaration) (b : Bool)
      → IsGrowing (set_visibility xxh3_64 fuel id v t owner_id n o b)
  unfolding set_visibility
  set_visibility-IsGrowing id v t owner_id n (some member) true =
      search (growing_rules, IsGrowing-changes, add_declaration-Grows)
  set_visibility-IsGrowing id v t owner_id n (some member) false =
      IsGrowing-updates _ (document_diagnostic-Grows _ _)
  set_visibility-IsGrowing id v t owner_id n none b =
      IsGrowing-updates _ (document_diagnostic-Grows _ _)

  pub handle_constant_visibility-IsGrowing :
      (id : ℕ) (v : ConstantVisibilityDefinition)
      → IsGrowing (handle_constant_visibility xxh3_64 fuel id v)
  unfolding handle_constant_visibility
  handle_constant_visibility-IsGrowing id v = IsGrowing->>= _ _ (IsGrowing-reads _) λ constant_name.
      with_owner-IsGrowing _ _ (visibility_owner-IsGrowing id _ v.receiver) λ owner_id.
        IsGrowing->>= _ _ (IsGrowing-reads _) λ namespace.
          IsGrowing-case_option namespace _ _ (IsGrowing-pure tt)
            λ n. search (growing_rules, set_visibility-IsGrowing)

  visibility_target-IsGrowing :
      (b : Bool) (id : ℕ) → IsGrowing (visibility_target xxh3_64 fuel b id)
  unfolding visibility_target
  visibility_target-IsGrowing false id = IsGrowing-pure _
  visibility_target-IsGrowing true id = eager_singleton_class-IsGrowing xxh3_64 fuel id

  report_undefined-Grows :
      (id : ℕ) (v : MethodVisibilityDefinition) (d : Diagnostic)
      → GrowsTo (λ g. g) (report_undefined xxh3_64 fuel id v d)
  unfolding report_undefined
  report_undefined-Grows id v d g = reported v.base.flags.singleton_method_visibility
    where
      reported :
          (b : Bool)
          → Ensures
              (λ g'. Grows g g')
              ((if b
                  then add_document_diagnostic v.base.uri_id d
                  else add_declaration_diagnostic id d)
                g)
      reported true = document_diagnostic-Grows v.base.uri_id d g
      reported false = declaration_diagnostic-Grows id d g

  after_method_search-IsGrowing :
      (id : ℕ) (v : MethodVisibilityDefinition) (owner_id : ℕ) (s : MemberSearch)
      → IsGrowing (after_method_search xxh3_64 fuel id v owner_id s)
  unfolding after_method_search
  after_method_search-IsGrowing id v owner_id applied =
      search (growing_rules, declare_method-IsGrowing)
  after_method_search-IsGrowing id v owner_id (missing true) = search growing_rules
  after_method_search-IsGrowing id v owner_id (missing false) =
      search (growing_rules, IsGrowing-updates, report_undefined-Grows)

  visibility_in-IsGrowing :
      (id : ℕ) (v : MethodVisibilityDefinition) (owner_id : ℕ)
      → IsGrowing (resolve_visibility_in xxh3_64 fuel id v owner_id)
  unfolding resolve_visibility_in
  visibility_in-IsGrowing id v owner_id = search (growing_rules, after_method_search-IsGrowing)

  method_visibility-IsGrowing :
      (id : ℕ) (v : MethodVisibilityDefinition)
      → IsGrowing (resolve_method_visibility xxh3_64 fuel id v)
  unfolding resolve_method_visibility
  method_visibility-IsGrowing id v =
      search (
        growing_rules, lexical_owner-IsGrowing, visibility_target-IsGrowing,
        visibility_in-IsGrowing,
      )

  visibility_unit-IsGrowing :
      (id : ℕ) (d : Definition) → IsGrowing (visibility_unit xxh3_64 fuel id d)
  unfolding visibility_unit
  visibility_unit-IsGrowing id (Definition.method_visibility v) = method_visibility-IsGrowing id v
  visibility_unit-IsGrowing id _ = IsGrowing-reads _

  visibility_units-IsGrowing : (ids : List ℕ) → IsGrowing (visibility_units xxh3_64 fuel ids)
  unfolding visibility_units
  visibility_units-IsGrowing [] = IsGrowing-pure []
  visibility_units-IsGrowing (id ∷ ids) = IsGrowing->>= _ _ (IsGrowing-reads _) λ d.
      IsGrowing->>= _ _ (visibility_unit-IsGrowing id d)
        λ work. IsGrowing->>= _ _ (visibility_units-IsGrowing ids) λ rest. IsGrowing-pure _

  pub method_visibilities-IsGrowing :
      (ids : List ℕ) → IsGrowing (resolve_method_visibilities xxh3_64 fuel ids)
  unfolding resolve_method_visibilities
  method_visibilities-IsGrowing ids =
      IsGrowing->>= _ _ (visibility_units-IsGrowing ids)
        λ work. IsGrowing-updates _ (λ g. extend_work-Grows work g)
