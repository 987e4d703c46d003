-- ===== src/Resolution/Constants/First.antt =====
-- The search for a constant along an ancestor chain: what decides its outcome.
use rubydex.Base
use rubydex.Base.{
  ℕ, Bool, true, false, Option, none, some, List, [], ◌∷◌, ◌++◌, Checked, done, ◌≡◌, refl, ap, All,
  Bool-cases, Option-cases, inl, inr, arith, Ensures, Ensures->>=, Ensures-map, Ensures-read, ◌==◌,
  unwrap, subst,
}
use rubydex.Base.Map.{get}
use rubydex.Model.Name.{NameRef, inner}
use rubydex.Model.Declaration.{Ancestor, Ancestors, ancestor_list}
use rubydex.Graph.{Graph}
use rubydex.Resolution.{Outcome}
use rubydex.Resolution.Chains.{member_of}
use rubydex.Resolution.Constants.{found_member, search_complete, search_partial, search_chain}

-- whether the chain has unresolved ancestors that count, and what is then left to linearize
abbrev pub is_partial : Ancestors → Bool
is_partial (Ancestors.partial l) = true
is_partial _ = false

abbrev pub to_linearize : ℕ → Ancestors → Option ℕ
to_linearize declaration_id (Ancestors.partial l) = some declaration_id
to_linearize declaration_id _ = none

module _ (g : Graph) (str_id : ℕ) where
  -- An ancestor that does not end the search: a namespace without the member, or one that is
  -- unresolved, which in a partial chain has to be of the name that is searched.
  pub data Passes (partial : Bool) : Ancestor → Type 0 where
    without : (id : ℕ) → member_of g str_id id ≡ done none → Passes partial (Ancestor.complete id)
    skipped : (name : ℕ) → partial ≡ false → Passes partial (Ancestor.partial name)
    itself :
        (name : ℕ) (n : NameRef)
        → get name g.names ≡ some n
        → (inner n).str == str_id ≡ true
        → Passes partial (Ancestor.partial name)

  -- the first ancestor that does not pass, and the outcome
  pub data FirstDecides (partial : Bool) (left : Option ℕ) (l : List Ancestor) (o : Outcome)
      : Type 0 where
    found :
        (pre post : List Ancestor) (id member : ℕ)
        → l ≡ pre ++ Ancestor.complete id ∷ post
        → All (Passes partial) pre
        → member_of g str_id id ≡ done (some member)
        → o ≡ Outcome.resolved member left
        → FirstDecides partial left l o
    unfinished :
        (pre post : List Ancestor) (name : ℕ) (n : NameRef)
        → partial ≡ true
        → l ≡ pre ++ Ancestor.partial name ∷ post
        → All (Passes partial) pre
        → get name g.names ≡ some n
        → (inner n).str == str_id ≡ false
        → o ≡ Outcome.retry left
        → FirstDecides partial left l o
    exhausted : All (Passes partial) l → o ≡ Outcome.unresolved left → FirstDecides partial left l o

  -- one more ancestor that passes
  FirstDecides-cons :
      (partial : Bool) (left : Option ℕ) (a : Ancestor) (l : List Ancestor) (o : Outcome)
      → Passes partial a
      → FirstDecides partial left l o
      → FirstDecides partial left (a ∷ l) o
  FirstDecides-cons partial left a l o p (found pre post id m e all has is) =
      found (a ∷ pre) post id m (ap (◌∷◌ a) e) (p, all) has is
  FirstDecides-cons partial left a l o p (unfinished pre post name n part e all known other is) =
      unfinished (a ∷ pre) post name n part (ap (◌∷◌ a) e) (p, all) known other is
  FirstDecides-cons partial left a l o p (exhausted all is) = exhausted (p, all) is

  -- what is decided at a namespace
  found_member-FirstDecides :
      (partial : Bool) (left : Option ℕ) (id : ℕ) (l : List Ancestor) (rest : Checked Outcome)
      → Ensures (FirstDecides partial left l) rest
      → (m : Checked (Option ℕ)) → member_of g str_id id ≡ m
      → Ensures
          (FirstDecides partial left (Ancestor.complete id ∷ l))
          (Base.◌>>=◌ m λ member. found_member member left rest)
  unfolding found_member
  found_member-FirstDecides partial left id l rest h (done (some member)) e =
      found [] l id member refl tt e refl
  found_member-FirstDecides partial left id l rest h (done none) e =
      Ensures-map (FirstDecides partial left l) _ rest h
        λ o d. FirstDecides-cons partial left (Ancestor.complete id) l o (without id e) d
  found_member-FirstDecides partial left id l rest h Base.panic e = tt
  found_member-FirstDecides partial left id l rest h Base.out_of_fuel e = tt

  search_complete-FirstDecides :
      (l : List Ancestor) → Ensures (FirstDecides false none l) (search_complete g str_id l)
  unfolding search_complete
  search_complete-FirstDecides [] = exhausted tt refl
  search_complete-FirstDecides (Ancestor.partial name ∷ l) =
      Ensures-map (FirstDecides false none l) _ (search_complete g str_id l)
        (search_complete-FirstDecides l)
        λ o d. FirstDecides-cons false none (Ancestor.partial name) l o (skipped name refl) d
  search_complete-FirstDecides (Ancestor.complete id ∷ l) =
      found_member-FirstDecides false none id l (search_complete g str_id l)
        (search_complete-FirstDecides l) (member_of g str_id id) refl

  search_partial-FirstDecides :
      (declaration_id : ℕ) (l : List Ancestor)
      → Ensures
          (FirstDecides true (some declaration_id) l)
          (search_partial g declaration_id str_id l)
  unfolding search_partial
  search_partial-FirstDecides d [] = exhausted tt refl
  search_partial-FirstDecides d (Ancestor.partial name ∷ l) =
      elim (Option-cases (get name g.names)) [
        | inl absent ↦ rw (absent, Ensures) tt
        | inr (n, there) ↦ elim (Bool-cases ((inner n).str == str_id)) [
          | inl same ↦
              rw (there, Ensures, same)
                (Ensures-map (FirstDecides true (some d) l) _ (search_partial g d str_id l)
                  (search_partial-FirstDecides d l)
                  λ o decides.
                    FirstDecides-cons true (some d) (Ancestor.partial name) l o
                      (itself name n there same) decides)
          | inr other ↦
              rw (there, Ensures, other) (unfinished [] l name n refl refl tt there other refl)
        ]
      ]
  search_partial-FirstDecides d (Ancestor.complete id ∷ l) =
      found_member-FirstDecides true (some d) id l (search_partial g d str_id l)
        (search_partial-FirstDecides d l) (member_of g str_id id) refl

  chain-FirstDecides :
      (declaration_id : ℕ) (a : Ancestors)
      → Ensures
          (FirstDecides (is_partial a) (to_linearize declaration_id a) (ancestor_list a))
          (search_chain g declaration_id str_id a)
  unfolding search_chain
  chain-FirstDecides d (Ancestors.complete l) = search_complete-FirstDecides l
  chain-FirstDecides d (Ancestors.cyclic l) = search_complete-FirstDecides l
  chain-FirstDecides d (Ancestors.partial l) = search_partial-FirstDecides d l

  -- What the search of an ancestor chain returns is decided by the first ancestor that does not pass.
  -- It is the member of a namespace that has it; or, in a partial chain, a retry at an unresolved
  -- ancestor of another name; and if all pass, the constant is not found. A namespace passes if it
  -- has no such member, and an unresolved ancestor if the chain is not partial or the ancestor has
  -- the name that is searched. For a partial chain, the declaration is still to be linearized.
  pub search_chain-FirstDecides :
      (declaration_id : ℕ) (a : Ancestors) (o : Outcome)
      → search_chain g declaration_id str_id a ≡ done o
      → FirstDecides (is_partial a) (to_linearize declaration_id a) (ancestor_list a) o
  search_chain-FirstDecides d a o h =
      subst (Ensures (FirstDecides (is_partial a) (to_linearize d a) (ancestor_list a))) h
        (chain-FirstDecides d a)
