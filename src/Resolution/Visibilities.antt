-- ===== src/Resolution/Visibilities.antt =====
-- Changes of the visibility of constants and methods, of rust/rubydex/src/resolution.rs.
pub mod Growing
use rubydex.Base
use rubydex.Base.{
  ℕ, Bool, true, false, not, ◌&&◌, ◌||◌, Option, none, some, List, [], ◌∷◌, ◌++◌, Checked, done,
  panic, unwrap, if◌then◌else◌, ◌==◌, debug_assert,
}
use rubydex.Base.Map.{get, adjust, is_some}
use rubydex.Model.Ids.{Text, codes, Hash}
use rubydex.Model.Source.{
  Diagnostic, undefined_constant_visibility_target, undefined_method_visibility_target,
}
use rubydex.Model.Document
use rubydex.Model.Name.{NameRef}
use rubydex.Model.Definition.{
  Definition, Receiver, self_receiver, constant_receiver, MethodDefinition, VariableDefinition,
  ConstantVisibilityDefinition, MethodVisibilityDefinition, MethodAliasDefinition,
}
use rubydex.Model.Declaration.{
  Ancestor, Declaration, Namespace, NamespaceDeclaration, as_namespace, inner, base_of, new_simple,
  update_base, ancestor_list,
}
use rubydex.Graph.{Graph, WorkUnit}
use rubydex.Graph.Declarations.{add_declaration, add_member}
use rubydex.Graph.Lookup.{object_id, namespace_at, definition_id_to_declaration_id}
use rubydex.Graph.Names.{push_work, extend_work}
use rubydex.Resolution.{Action, pure, reads, changes, updates, ◌>>=◌, ◌>>◌, case_option, for_all}
use rubydex.Resolution.Chains.{resolve_to_namespace}
use rubydex.Resolution.Singleton.{create_singleton_class, expect}
use rubydex.Resolution.Linearize.{ancestors_of, is_singleton}
use rubydex.Resolution.Declare.{text_of, declaration_name}
use rubydex.Resolution.Owners.{
  create_declaration, resolve_class_variable_owner, resolve_constant_receiver,
}
use rubydex.Resolution.Eager.{
  eager_singleton_class, with_owner, declare_method, lexical_owner, self_declaration,
}

-- `add_document_diagnostic`
unfoldable pub add_document_diagnostic : ℕ → Diagnostic → Graph → Checked Graph
add_document_diagnostic uri_id diagnostic g = Base.◌>>=◌ (unwrap (get uri_id g.documents)) λ d.
    done (record g { documents = adjust uri_id (Document.add_diagnostic diagnostic) g.documents })

-- `add_diagnostic` of a declaration
unfoldable pub add_declaration_diagnostic : ℕ → Diagnostic → Graph → Checked Graph
add_declaration_diagnostic id diagnostic g = Base.◌>>=◌ (unwrap (get id g.declarations)) λ d.
    let add = update_base (λ b. record b { diagnostics = b.diagnostics ++ diagnostic ∷ [] }) in
    done (record g { declarations = adjust id add g.declarations })

-- what a visibility of a constant may be about
unfoldable pub is_visible_constant : Option Declaration → Bool
is_visible_constant (some (Declaration.constant d)) = true
is_visible_constant (some (Declaration.constant_alias d)) = true
is_visible_constant (some (Declaration.namespace (Namespace.class d))) = true
is_visible_constant (some (Declaration.namespace (Namespace.module_namespace d))) = true
is_visible_constant _ = false

-- whether an ancestor before which no member is found is unresolved, or the member is found
pub data MemberSearch : Type 0 where
  applied : MemberSearch
  missing : Bool → MemberSearch

unfoldable pub search_method : Graph → ℕ → Bool → List Ancestor → MemberSearch
search_method g str_id has_partial [] = missing has_partial
search_method g str_id has_partial (Ancestor.partial name ∷ l) = search_method g str_id true l
search_method g str_id has_partial (Ancestor.complete id ∷ l) =
    let rest = search_method g str_id has_partial l in
    elim (namespace_at g id) [
      | none ↦ rest
      | some n ↦ if is_some (get str_id n.members) then applied else rest
    ]

module _ (xxh3_64 : Hash) (fuel : ℕ) where
  -- the namespace whose constant it is
  visibility_receiver : ℕ → Graph → Checked (Option ℕ)
  visibility_receiver name_id g = Base.◌>>=◌ (unwrap (get name_id g.names)) (elim [
    | NameRef.unresolved n ↦ done none
    | NameRef.resolved r ↦ resolve_to_namespace g r.declaration_id
  ])

  visibility_owner : ℕ → Option ℕ → Option ℕ → Action (Option ℕ)
  visibility_owner id nesting none = lexical_owner xxh3_64 fuel id nesting
  visibility_owner id nesting (some receiver) = reads (visibility_receiver receiver)

  -- the member takes the definition up, or there is a diagnostic
  set_visibility :
      ℕ
      → ConstantVisibilityDefinition
      → Text
      → ℕ
      → NamespaceDeclaration
      → Option Declaration
      → Bool
      → Action (Unit {0})
  set_visibility id v constant_name owner_id n (some member) true = do
    added ← changes (
        add_declaration xxh3_64 id (base_of member).name
          λ name. Declaration.constant (new_simple name owner_id))
    pure tt
  set_visibility id v constant_name owner_id n _ _ = updates (
      add_document_diagnostic v.base.uri_id (record {
        rule = undefined_constant_visibility_target;
        uri_id = v.base.uri_id;
        offset = v.base.offset;
        message =
            codes "undefined constant `"
            ++ (constant_name
                ++ (codes "` for visibility change in `" ++ (n.base.name ++ codes "`")));
      }))

  -- the member's declaration
  member_declaration : NamespaceDeclaration → ℕ → Graph → Option Declaration
  member_declaration n str_id g = elim (get str_id n.members) [
    | none ↦ none
    | some id ↦ get id g.declarations
  ]

  pub handle_constant_visibility : ℕ → ConstantVisibilityDefinition → Action (Unit {0})
  handle_constant_visibility id v = do
    constant_name ← reads (text_of v.target)
    with_owner (visibility_owner id v.base.lexical_nesting_id v.receiver) λ owner_id. do
      namespace ← reads (λ g. done (namespace_at g owner_id))
      case_option namespace (pure tt) λ n. do
        member ← reads (λ g. done (member_declaration n v.target g))
        set_visibility id v constant_name owner_id n member (is_visible_constant member)

  visibility_target : Bool → ℕ → Action (Option ℕ)
  visibility_target false owner_id = pure (some owner_id)
  visibility_target true owner_id = eager_singleton_class xxh3_64 fuel owner_id

  undefined_method : MethodVisibilityDefinition → Text → Text → Diagnostic
  undefined_method v owner_name method_name = record {
    rule = undefined_method_visibility_target;
    uri_id = v.base.uri_id;
    offset = v.base.offset;
    message =
        codes "undefined method `"
        ++ (owner_name ++ (codes "#" ++ (method_name ++ codes "` for visibility change")));
  }

  report_undefined : ℕ → MethodVisibilityDefinition → Diagnostic → Graph → Checked Graph
  report_undefined owner_id v diagnostic =
      if v.base.flags.singleton_method_visibility
      then add_document_diagnostic v.base.uri_id diagnostic
      else add_declaration_diagnostic owner_id diagnostic

  -- what follows the search for the method; the result is the work that is left
  after_method_search : ℕ → MethodVisibilityDefinition → ℕ → MemberSearch → Action (List WorkUnit)
  after_method_search id v owner_id applied = do
    declare_method xxh3_64 fuel id v.str_id owner_id
    pure []
  after_method_search id v owner_id (missing true) = pure (WorkUnit.definition id ∷ [])
  after_method_search id v owner_id (missing false) = do
    method_name ← reads (text_of v.str_id)
    owner_name ← reads (declaration_name owner_id)
    updates (report_undefined owner_id v (undefined_method v owner_name method_name))
    pure []

  resolve_visibility_in : ℕ → MethodVisibilityDefinition → ℕ → Action (List WorkUnit)
  resolve_visibility_in id v owner_id = do
    namespace ← reads (λ g. done (namespace_at g owner_id))
    case_option namespace (pure []) λ n. do
      found ← reads (λ g. done (search_method g v.str_id false (ancestor_list n.ancestors)))
      after_method_search id v owner_id found

  pub resolve_method_visibility : ℕ → MethodVisibilityDefinition → Action (List WorkUnit)
  resolve_method_visibility id v = do
    lexical ← lexical_owner xxh3_64 fuel id v.base.lexical_nesting_id
    case_option lexical (pure []) λ lexical_owner_id. do
      owner ← visibility_target v.base.flags.singleton_method_visibility lexical_owner_id
      case_option owner (pure []) (resolve_visibility_in id v)

  visibility_unit : ℕ → Definition → Action (List WorkUnit)
  visibility_unit id (Definition.method_visibility v) = resolve_method_visibility id v
  visibility_unit id _ = reads (λ g. panic)

  visibility_units : List ℕ → Action (List WorkUnit)
  visibility_units [] = pure []
  visibility_units (id ∷ ids) = do
    d ← reads (λ g. unwrap (get id g.definitions))
    work ← visibility_unit id d
    rest ← visibility_units ids
    pure (work ++ rest)

  unfoldable pub resolve_method_visibilities : List ℕ → Action (Unit {0})
  unfolding visibility_receiver visibility_owner set_visibility member_declaration visibility_target
      undefined_method report_undefined after_method_search resolve_visibility_in visibility_unit
      visibility_units handle_constant_visibility resolve_method_visibility
  resolve_method_visibilities ids = do
    pending_work ← visibility_units ids
    updates (λ g. done (extend_work pending_work g))
