-- ===== src/Model/Name.antt =====
-- rust/rubydex/src/model/name.rs: constant names as they stand in the source, and whether they
-- have been resolved to a declaration.
use rubydex.Base.{
  ℕ, Bool, Option, none, some, ◌++◌, Checked, done, ◌>>=◌, ltb, true, false, ◌&&◌, ◌==◌, ◌≡◌, arith,
}
use rubydex.Model.Ids.{Text, codes, decimal, Hash, id_from}
use rubydex.Model.StringRef.{checked_add, checked_pred}

pub data ParentScope : Type 0 where
  no_parent top_level : ParentScope
  parent attached : ℕ → ParentScope

-- `ParentScope::as_ref`
unfoldable pub parent_id : ParentScope → Option ℕ
parent_id no_parent = none
parent_id top_level = none
parent_id (parent id) = some id
parent_id (attached id) = some id

-- `Display`
unfoldable pub parent_scope_text : ParentScope → Text
parent_scope_text no_parent = codes "None"
parent_scope_text top_level = codes "TopLevel"
parent_scope_text (parent id) = codes "Some(" ++ (decimal id ++ codes ")")
parent_scope_text (attached id) = codes "Attached(" ++ (decimal id ++ codes ")")

pub record Name : Type 0 where
  pub str : ℕ
  pub parent_scope : ParentScope
  pub nesting : Option ℕ
  pub ref_count : ℕ

unfoldable pub new : ℕ → ParentScope → Option ℕ → Name
new str parent_scope nesting = record {
  str = str;
  parent_scope = parent_scope;
  nesting = nesting;
  ref_count = 1;
}

-- `PartialEq`
parent_scope_eq : ParentScope → ParentScope → Bool
parent_scope_eq no_parent no_parent = true
parent_scope_eq top_level top_level = true
parent_scope_eq (parent a) (parent b) = a == b
parent_scope_eq (attached a) (attached b) = a == b
parent_scope_eq _ _ = false

nesting_eq : Option ℕ → Option ℕ → Bool
nesting_eq none none = true
nesting_eq (some a) (some b) = a == b
nesting_eq _ _ = false

-- `PartialEq`: the reference count is not compared
unfoldable pub name_eq : Name → Name → Bool
unfolding parent_scope_eq nesting_eq
name_eq a b =
    a.str == b.str
    && parent_scope_eq a.parent_scope b.parent_scope
    && nesting_eq a.nesting b.nesting

nesting_text : Option ℕ → Text
nesting_text none = codes "None"
nesting_text (some id) = decimal id

-- the text that `Name::id` hashes
unfoldable pub name_text : Name → Text
unfolding nesting_text parent_scope_text
name_text n = decimal n.str ++ (parent_scope_text n.parent_scope ++ nesting_text n.nesting)

unfoldable pub name_id : Hash → Name → ℕ
name_id xxh3_64 n = id_from xxh3_64 (name_text n)

pub record ResolvedName : Type 0 where
  pub name : Name
  pub declaration_id : ℕ

pub data NameRef : Type 0 where
  unresolved : Name → NameRef
  resolved : ResolvedName → NameRef

-- the name that both constructors hold
abbrev pub inner : NameRef → Name
inner (unresolved n) = n
inner (resolved r) = r.name

abbrev pub with_ref_count : NameRef → ℕ → NameRef
with_ref_count (unresolved n) c = unresolved (record n { ref_count = c })
with_ref_count (resolved r) c = resolved (record r { name = record (r.name) { ref_count = c } })

unfoldable pub increment_ref_count : ℕ → NameRef → Checked NameRef
increment_ref_count count r = do
  ref_count ← checked_add (inner r).ref_count count
  done (with_ref_count r ref_count)

-- the name after the decrement, and whether a reference is left
unfoldable pub decrement_ref_count : NameRef → Checked (NameRef × Bool)
decrement_ref_count r = do
  ref_count ← checked_pred (inner r).ref_count
  done (with_ref_count r ref_count, ltb 0 ref_count)

pub name_eq-inner : (r : NameRef) (c : ℕ) → name_eq (inner r) (inner (with_ref_count r c)) ≡ true
unfolding name_eq parent_scope_eq nesting_eq
name_eq-inner r c = ground arith
