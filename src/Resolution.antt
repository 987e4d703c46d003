-- ===== src/Resolution.antt =====
-- rust/rubydex/src/resolution.rs: the resolver. Its state, and the actions on it, are here; the
-- methods are in the modules below. An action may panic, and then nothing of it is left to read.
pub mod Chains
pub mod Scopes
pub mod Mixins
pub mod Singleton
pub mod Linearize
pub mod Constants
pub mod Declare
pub mod Owners
pub mod Eager
pub mod Variables
pub mod Visibilities
pub mod Remaining
pub mod Depth
pub mod Order
pub mod Units
pub mod Grows
use rubydex.Base
use rubydex.Base.{
  ℕ, Bool, true, false, Option, none, some, List, [], ◌∷◌, ◌++◌, Checked, done, panic, out_of_fuel,
  set_remove,
}
use rubydex.Graph.{Graph, WorkUnit}

pub data Outcome : Type 0 where
  resolved : ℕ → Option ℕ → Outcome
  unresolved retry : Option ℕ → Outcome

unfoldable pub is_resolved_or_retry : Outcome → Bool
is_resolved_or_retry (resolved id linearization) = true
is_resolved_or_retry (unresolved linearization) = false
is_resolved_or_retry (retry linearization) = true

pub record LinearizationContext : Type 0 where
  pub descendants : List ℕ
  pub seen_ids : List ℕ
  pub cyclic : Bool
  pub partial : Bool

unfoldable pub new_context : LinearizationContext
new_context = record { descendants = []; seen_ids = []; cyclic = false; partial = false }

unfoldable pub finalize : ℕ → LinearizationContext → LinearizationContext
finalize declaration_id c = record c {
  descendants = set_remove declaration_id c.descendants;
  seen_ids = set_remove declaration_id c.seen_ids;
}

pub record Resolver : Type 0 where
  pub graph : Graph
  pub unit_queue : List WorkUnit
  pub made_progress : Bool

unfoldable pub new : Graph → Resolver
new g = record { graph = g; unit_queue = []; made_progress = false }

-- what a method does to the resolver, with its result
abbrev pub Action : Type 0 → Type 0
Action A = Resolver → Checked (A × Resolver)

module _ {A : Type 0} where
  unfoldable pub pure : A → Action A
  pure a r = done (a, r)

  -- a method of the graph that only reads it
  unfoldable pub reads : (Graph → Checked A) → Action A
  reads f r = Base.◌>>=◌ (f r.graph) (λ a. done (a, r))

  -- a method of the graph that changes it
  unfoldable pub changes : (Graph → Checked (Graph × A)) → Action A
  changes f r = Base.◌>>=◌ (f r.graph) (λ (g, a). done (a, record r { graph = g }))

-- the same, without a result
unfoldable pub updates : (Graph → Checked Graph) → Action (Unit {0})
updates f r = Base.◌>>=◌ (f r.graph) (λ g. done (tt, record r { graph = g }))

-- `self.unit_queue.push_back`
unfoldable pub push_back : WorkUnit → Action (Unit {0})
push_back unit r = done (tt, record r { unit_queue = r.unit_queue ++ unit ∷ [] })

unfoldable pub set_progress : Bool → Action (Unit {0})
set_progress b r = done (tt, record r { made_progress = b })

infixl 5 ◌>>=◌ ◌>>◌
unfoldable pub ◌>>=◌ : {A B : Type 0} → Action A → (A → Action B) → Action B
unfolding pure reads changes updates push_back set_progress
◌>>=◌ m f r = Base.◌>>=◌ (m r) (λ (a, r'). f a r')

abbrev pub ◌>>◌ : {B : Type 0} → Action (Unit {0}) → Action B → Action B
m >> k = m >>= λ _. k

unfoldable pub case_option : {A B : Type 0} → Option A → Action B → (A → Action B) → Action B
case_option none m f = m
case_option (some a) m f = f a

-- a `for` loop
unfoldable pub for_all : {A : Type 0} → (A → Action (Unit {0})) → List A → Action (Unit {0})
unfolding pure ◌>>=◌
for_all f [] = pure tt
for_all f (a ∷ l) = f a >> for_all f l
