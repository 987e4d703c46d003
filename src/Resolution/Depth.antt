-- ===== src/Resolution/Depth.antt =====
-- `name_depth` and `compute_name_depths` of rust/rubydex/src/resolution.rs: how complex a name is.
-- A depth is a `u32`, and the checked additions are those of a debug build.
pub mod Memo
use rubydex.Base.{
  ℕ, zero, suc, ◌+◌, Bool, true, false, Option, none, some, List, [], ◌∷◌, Checked, done, panic,
  out_of_fuel, ◌>>=◌, unwrap, length,
}
use rubydex.Base.Map.{Map, get, insert, keys}
use rubydex.Model.StringRef.{checked_add}
use rubydex.Model.Name.{Name, NameRef, ParentScope, inner, top_level, parent_id}

-- a depth, and the cache behind it
abbrev pub Depth : Type 0
Depth = Checked (ℕ × Map ℕ)

-- `map_or(0, ..)` of the recursive call
unfoldable pub depth_or_zero : (ℕ → Map ℕ → Depth) → Option ℕ → Map ℕ → Depth
depth_or_zero again none cache = done (0, cache)
depth_or_zero again (some id) cache = again id cache

-- `parent_depth + nesting_depth + 1`
unfoldable pub add_depths : ℕ → ℕ → Checked ℕ
add_depths parent_depth nesting_depth = do
  sum ← checked_add parent_depth nesting_depth
  checked_add sum 1

-- the depth of a name that is not in the cache
unfoldable pub depth_of : (ℕ → Map ℕ → Depth) → Name → ParentScope → Map ℕ → Depth
depth_of again name top_level cache = done (1, cache)
depth_of again name scope cache = do
  parent ← depth_or_zero again (parent_id scope) cache
  nesting ← depth_or_zero again name.nesting parent.1
  depth ← add_depths parent.0 nesting.0
  done (depth, nesting.1)

-- the recursion counts down the fuel
unfoldable pub name_depth : Map NameRef → ℕ → ℕ → Map ℕ → Depth
name_depth names zero name_id cache = out_of_fuel
name_depth names (suc fuel) name_id cache = elim (get name_id cache) [
  | some depth ↦ done (depth, cache)
  | none ↦ do
    name ← unwrap (get name_id names)
    depth ← depth_of (name_depth names fuel) (inner name) (inner name).parent_scope cache
    done (depth.0, insert name_id depth.0 depth.1)
]

unfoldable pub depths_loop : Map NameRef → ℕ → List ℕ → Map ℕ → Checked (Map ℕ)
depths_loop names fuel [] cache = done cache
depths_loop names fuel (id ∷ ids) cache = do
  depth ← name_depth names fuel id cache
  depths_loop names fuel ids depth.1

-- The fuel counts the names on a chain of parent scopes and nestings.
unfoldable pub compute_name_depths : Map NameRef → Checked (Map ℕ)
compute_name_depths names = depths_loop names (length names) (keys names) []
