-- ===== src/Resolution/Owners.antt =====
-- The owners of methods and variables, of rust/rubydex/src/resolution.rs. A walk up the nesting of
-- definitions has as much fuel as the graph has definitions.

use rubydex.Base.{
  ℕ, zero, suc, Bool, true, false, Option, none, some, ◌++◌, Checked, done, out_of_fuel, ◌>>=◌,
  unwrap, length, if◌then◌else◌,
}
use rubydex.Base.Map.{get}
use rubydex.Model.Ids.{Text, codes, Hash}
use rubydex.Model.Name.{NameRef}
use rubydex.Model.Definition.{Definition, base_of}
use rubydex.Model.Declaration.{Declaration, Namespace}
use rubydex.Graph.{Graph, WorkUnit}
use rubydex.Graph.Alias.{is_constant_alias}
use rubydex.Graph.Declarations.{add_declaration, add_member}
use rubydex.Graph.Lookup.{object_id, definition_id_to_declaration_id}
use rubydex.Graph.Names.{push_work}
use rubydex.Resolution
use rubydex.Resolution.{Action, reads, changes, updates}
use rubydex.Resolution.Chains.{resolve_to_namespace}
use rubydex.Resolution.Declare.{text_of, declaration_name}

unfoldable pub resolve_constant_receiver : ℕ → ℕ → Graph → Checked (Graph × Option ℕ)
resolve_constant_receiver name_id id g = do
  name ← unwrap (get name_id g.names)
  elim name [
    | NameRef.resolved r ↦ done (g, some r.declaration_id)
    | NameRef.unresolved n ↦ done (push_work (WorkUnit.definition id) g, none)
  ]

-- `format!("{}#{}", owner.name(), name_str.as_str())`
unfoldable pub member_name : ℕ → ℕ → Graph → Checked Text
member_name owner_id str_id g = do
  owner ← declaration_name owner_id g
  name ← text_of str_id g
  done (owner ++ (codes "#" ++ name))

unfoldable pub create_declaration : Hash → ℕ → ℕ → ℕ → (Text → Declaration) → Action (Unit {0})
create_declaration xxh3_64 str_id definition_id owner_id builder =
    Resolution.◌>>=◌ (reads (member_name owner_id str_id)) λ name.
      Resolution.◌>>=◌ (changes (add_declaration xxh3_64 definition_id name builder))
        λ id. updates (add_member owner_id id str_id)

-- the walk over singleton classes of `resolve_class_variable_owner`
unfoldable pub skip_singletons : ℕ → Graph → Option ℕ → Checked (Option ℕ)
skip_singletons fuel g none = done none
skip_singletons zero g (some id) = out_of_fuel
skip_singletons (suc fuel) g (some id) = elim (get id g.definitions) [
  | some (Definition.singleton_class d) ↦ skip_singletons fuel g d.base.lexical_nesting_id
  | _ ↦ done (some id)
]

variable_owner : Graph → Option ℕ → Checked (Option ℕ)
variable_owner g none = done none
variable_owner g (some id) =
    let target = resolve_to_namespace g id in
    if is_constant_alias g id then target else done (some id)

nesting_declaration : Hash → Graph → Option ℕ → Checked (Option ℕ)
nesting_declaration xxh3_64 g none = done none
nesting_declaration xxh3_64 g (some id) = definition_id_to_declaration_id xxh3_64 g id

unfoldable pub resolve_class_variable_owner : Hash → Option ℕ → Graph → Checked (Option ℕ)
unfolding variable_owner nesting_declaration
resolve_class_variable_owner xxh3_64 nesting g = do
  nesting' ← skip_singletons (length g.definitions) g nesting
  declaration ← nesting_declaration xxh3_64 g nesting'
  variable_owner g declaration

is_singleton_definition : Definition → Bool
is_singleton_definition (Definition.singleton_class d) = true
is_singleton_definition _ = false

-- the nesting of a definition without a declaration, unless that is a singleton class
nesting_of : ℕ → Graph → (Option ℕ → Checked (Option ℕ)) → Checked (Option ℕ)
nesting_of id g onward = do
  d ← unwrap (get id g.definitions)
  if is_singleton_definition d then done none else onward (base_of d).lexical_nesting_id

-- by what the declaration of a nesting is
owner_at : ℕ → Graph → ℕ → Declaration → (Option ℕ → Checked (Option ℕ)) → Checked (Option ℕ)
owner_at id g declaration_id (Declaration.namespace (Namespace.class d)) onward =
    done (some declaration_id)
owner_at id g declaration_id (Declaration.namespace (Namespace.module_namespace d)) onward =
    done (some declaration_id)
owner_at id g declaration_id (Declaration.namespace (Namespace.singleton_class d)) onward =
    done (some declaration_id)
owner_at id g declaration_id (Declaration.constant_alias d) onward =
    resolve_to_namespace g declaration_id
owner_at id g declaration_id _ onward = do
  d ← unwrap (get id g.definitions)
  onward (base_of d).lexical_nesting_id

owner_of : ℕ → Graph → Option ℕ → (Option ℕ → Checked (Option ℕ)) → Checked (Option ℕ)
owner_of id g none onward = nesting_of id g onward
owner_of id g (some declaration_id) onward = do
  d ← unwrap (get declaration_id g.declarations)
  owner_at id g declaration_id d onward

-- the loop of `resolve_lexical_owner`
unfoldable pub owner_loop : Hash → ℕ → Graph → Option ℕ → Checked (Option ℕ)
unfolding owner_of owner_at nesting_of is_singleton_definition
owner_loop xxh3_64 fuel g none = done (some (object_id xxh3_64))
owner_loop xxh3_64 zero g (some id) = out_of_fuel
owner_loop xxh3_64 (suc fuel) g (some id) = do
  declaration ← definition_id_to_declaration_id xxh3_64 g id
  owner_of id g declaration (owner_loop xxh3_64 fuel g)

-- without an owner, the definition is left for later
unfoldable pub or_push_work : ℕ → Graph → Option ℕ → Graph × Option ℕ
or_push_work definition_id g none = (push_work (WorkUnit.definition definition_id) g, none)
or_push_work definition_id g (some owner) = (g, some owner)

unfoldable pub resolve_lexical_owner : Hash → Option ℕ → ℕ → Graph → Checked (Graph × Option ℕ)
resolve_lexical_owner xxh3_64 nesting definition_id g = do
  owner ← owner_loop xxh3_64 (length g.definitions) g nesting
  done (or_push_work definition_id g owner)
