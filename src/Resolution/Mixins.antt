-- ===== src/Resolution/Mixins.antt =====
-- How a linearized mixin joins the chain, from `linearize_mixins` of
-- rust/rubydex/src/resolution.rs.
use rubydex.Base.{
  Bool, false, not, ◌||◌, Option, none, some, List, [], ◌∷◌, ◌++◌, ◌==◌, if◌then◌else◌,
}
use rubydex.Model.Declaration.{Ancestor}

-- `PartialEq`
unfoldable pub ancestor_eq : Ancestor → Ancestor → Bool
ancestor_eq (Ancestor.complete a) (Ancestor.complete b) = a == b
ancestor_eq (Ancestor.partial a) (Ancestor.partial b) = a == b
ancestor_eq _ _ = false

-- `ids.contains(id)`
unfoldable pub has : List Ancestor → Ancestor → Bool
has [] a = false
has (b ∷ l) a = ancestor_eq b a || has l a

-- `linearized.retain(|id| !ids.contains(id))`
unfoldable pub without : List Ancestor → List Ancestor → List Ancestor
without ids [] = []
without ids (a ∷ l) = let rest = without ids l in if has ids a then rest else a ∷ rest

-- `ids.iter().any(|id| !linearized.contains(id))`
unfoldable pub any_new : List Ancestor → List Ancestor → Bool
any_new [] l = false
any_new (a ∷ ids) l = not (has l a) || any_new ids l

-- a prepended chain goes in front, unless all of it is there
unfoldable pub add_prepended : List Ancestor → List Ancestor → List Ancestor
add_prepended ids prepends = if any_new ids prepends then ids ++ without ids prepends else prepends

-- the parents' chain, if there is a parent
abbrev pub parent_list : Option (List Ancestor) → List Ancestor
parent_list none = []
parent_list (some l) = l

-- of an included chain, what is not there yet goes in front
unfoldable pub add_included :
    List Ancestor → List Ancestor → Option (List Ancestor) → List Ancestor → List Ancestor
add_included ids prepends parents includes =
    without (parent_list parents) (without includes (without prepends ids)) ++ includes
