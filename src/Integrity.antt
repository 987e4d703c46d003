-- ===== src/Integrity.antt =====
-- rust/rubydex/src/integrity.rs: the checks of the owners of the declarations.
pub mod Owned
use rubydex.Base.{
  ℕ, zero, suc, Bool, true, false, not, ◌&&◌, ◌||◌, ◌==◌, Option, none, some, List, [], ◌∷◌, ◌++◌,
  Checked, done, ◌>>=◌, unwrap, if◌then◌else◌,
}
use rubydex.Base.Map.{Map, get}
use rubydex.Model.Ids.{Text, Hash, codes}
use rubydex.Model.Definition
use rubydex.Model.Declaration.{Declaration, Namespace, as_namespace, base_of, inner, definitions}
use rubydex.Graph.{Graph}
use rubydex.Graph.Lookup.{object_id}
use rubydex.Resolution.Singleton.{basic_object_id}

pub data IntegrityErrorKind : Type 0 where
  owner_is_not_namespace owner_does_not_exist : IntegrityErrorKind
  singleton_class_chain_does_not_terminate unexpected_self_ownership : IntegrityErrorKind

pub record IntegrityError : Type 0 where
  pub kind : IntegrityErrorKind
  pub declaration_name : Text
  pub uris : List Text

-- what `fmt` writes before the URIs
unfoldable pub message : IntegrityErrorKind → Text → Text
message owner_is_not_namespace name =
    codes "Declaration `" ++ (name ++ codes "` is owned by a non-namespace")
message owner_does_not_exist name =
    codes "Declaration `" ++ (name ++ codes "` has an owner that does not exist in the graph")
message singleton_class_chain_does_not_terminate name =
    codes "Singleton class `"
    ++ (name ++ codes "` does not eventually attach to a non-singleton namespace")
message unexpected_self_ownership name =
    codes "Declaration `" ++ (name ++ codes "` unexpectedly owns itself")

-- `join`
unfoldable pub join : Text → List Text → Text
join separator [] = []
join separator (t ∷ []) = t
join separator (t ∷ (u ∷ l)) = t ++ (separator ++ join separator (u ∷ l))

unfoldable pub fmt : IntegrityError → Text
fmt e = message e.kind e.declaration_name ++ (codes ". Defined in: " ++ join (codes ", ") e.uris)

unfoldable pub collect_uris : Graph → List ℕ → Checked (List Text)
collect_uris g [] = done []
collect_uris g (def_id ∷ ids) = do
  definition ← unwrap (get def_id g.definitions)
  document ← unwrap (get (Definition.base_of definition).uri_id g.documents)
  rest ← collect_uris g ids
  done (document.uri ∷ rest)

-- `MAX_SINGLETON_DEPTH`
abbrev pub max_singleton_depth : ℕ
max_singleton_depth = 128

unfoldable pub chain_loop : ℕ → Graph → ℕ → Bool
chain_loop zero g current_id = false
chain_loop (suc n) g current_id = elim (get current_id g.declarations) [
  | some (Declaration.namespace (Namespace.singleton_class d)) ↦ chain_loop n g d.base.owner_id
  | some (Declaration.namespace _) ↦ true
  | _ ↦ false
]

unfoldable pub singleton_chain_terminates : Graph → ℕ → Bool
singleton_chain_terminates g start_owner_id = chain_loop max_singleton_depth g start_owner_id

-- `matches!(.., Declaration::Namespace(Namespace::SingletonClass(_)))`
abbrev pub is_singleton_class : Declaration → Bool
is_singleton_class (Declaration.namespace (Namespace.singleton_class d)) = true
is_singleton_class _ = false

-- what is wrong with a declaration that does not own itself, by its owner
unfoldable pub owner_error : Graph → Declaration → Option Declaration → Option IntegrityErrorKind
owner_error g d none = some owner_does_not_exist
owner_error g d (some owner) = elim (as_namespace owner) [
  | none ↦ some owner_is_not_namespace
  | some n ↦
      if is_singleton_class d && not (singleton_chain_terminates g (base_of d).owner_id)
      then some singleton_class_chain_does_not_terminate
      else none
]

-- `self_owners.contains`
unfoldable pub is_self_owner : Hash → ℕ → Bool
is_self_owner xxh3_64 id = object_id xxh3_64 == id || basic_object_id xxh3_64 == id

-- one round of the loop: what is wrong with a declaration
unfoldable pub error_of : Hash → Graph → ℕ → Declaration → Option IntegrityErrorKind
error_of xxh3_64 g id d =
    let other = owner_error g d (get (base_of d).owner_id g.declarations) in
    if id == (base_of d).owner_id
    then (if is_self_owner xxh3_64 id then none else some unexpected_self_ownership)
    else other

-- `errors.push`
unfoldable pub push_error :
    Graph
    → Declaration
    → Option IntegrityErrorKind
    → List IntegrityError
    → Checked (List IntegrityError)
push_error g d none errors = done errors
push_error g d (some kind) errors = do
  uris ← collect_uris g (definitions d)
  done (errors ++ (record { kind = kind; declaration_name = (base_of d).name; uris = uris }) ∷ [])

unfoldable pub check_loop :
    Hash → Graph → Map Declaration → List IntegrityError → Checked (List IntegrityError)
check_loop xxh3_64 g [] errors = done errors
check_loop xxh3_64 g ((id, d) ∷ m) errors = do
  errors' ← push_error g d (error_of xxh3_64 g id d) errors
  check_loop xxh3_64 g m errors'

unfoldable pub check_integrity : Hash → Graph → Checked (List IntegrityError)
check_integrity xxh3_64 g = check_loop xxh3_64 g g.declarations []
