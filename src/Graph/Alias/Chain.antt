-- ===== src/Graph/Alias/Chain.antt =====
-- `resolve_alias` ends, and finds exactly the end of the alias chain.
use rubydex.Base.{
  ap, subst, ◌==◌, ℕ, zero, suc, ◌+◌, ◌<◌, true, false, Option, none, some, List, [], ◌∷◌, Checked,
  done, out_of_fuel, ◌≡◌, refl, ◌↔◌, arith, inl, inr, if◌then◌else◌, contains, set_insert,
  contains-set_insert, length, Bool-cases, Option-cases,
}
use rubydex.Base.Map.{contains_key}
use rubydex.Base.Unseen.{unseen, unseen-le-length, unseen-set_insert-lt}
use rubydex.Graph.{Graph}
use rubydex.Graph.Alias.{alias_targets, is_constant_alias, resolve_alias_loop, resolve_alias}

module _ (g : Graph) where
  -- the target that an alias leads to first
  abbrev pub first_target : ℕ → Option ℕ
  first_target a = elim (alias_targets g a) [ some (first ∷ _) ↦ some first | _ ↦ none ]

  -- After `n` aliases that lead to aliases comes one that leads to `t`, which is none.
  abbrev pub EndsIn : ℕ → ℕ → ℕ → Type 0
  EndsIn zero a t = (first_target a ≡ some t) × (is_constant_alias g t ≡ false)
  EndsIn (suc n) a t =
      (b : ℕ) × (first_target a ≡ some b) × (is_constant_alias g b ≡ true) × EndsIn n b t

  EndsIn-unique : (n m a t u : ℕ) → EndsIn n a t → EndsIn m a u → n ≡ m
  EndsIn-unique zero zero a t u h k = refl
  EndsIn-unique zero (suc m) a t u h (c, ac, is_alias, rest) = absurd (ground arith)
  EndsIn-unique (suc n) zero a t u (b, ab, is_alias, rest) k = absurd (ground arith)
  EndsIn-unique (suc n) (suc m) a t u (b, ab, is_alias, rest) (c, ac, is_alias', rest') =
      let same : c ≡ b = ground arith in
      ap suc (EndsIn-unique n m b t u rest (subst (λ x. EndsIn m x u) same rest'))

  -- what the loop does once it knows the first target
  onward : (ℕ → Checked (Option ℕ)) → Option ℕ → Checked (Option ℕ)
  onward followed none = done none
  onward followed (some b) = if is_constant_alias g b then followed b else done (some b)

  loop-zero : (seen : List ℕ) (a : ℕ) → resolve_alias_loop 0 g seen a ≡ out_of_fuel
  unfolding resolve_alias_loop
  loop-zero seen a = refl

  loop-step :
      (fuel : ℕ) (seen : List ℕ) (a : ℕ)
      → resolve_alias_loop (suc fuel) g seen a ≡ (
          if contains seen a
          then done none
          else onward (resolve_alias_loop fuel g (set_insert a seen)) (first_target a))
  unfolding resolve_alias_loop onward
  loop-step fuel seen a = ground arith

  alias-known : (a b : ℕ) → first_target a ≡ some b → contains_key a g.declarations ≡ true
  unfolding alias_targets
  alias-known a b h = ground arith

  loop_ends :
      (fuel : ℕ) (seen : List ℕ) (a : ℕ)
      → unseen g.declarations seen < fuel
      → (r : Option ℕ) × (resolve_alias_loop fuel g seen a ≡ done r)
  unfolding onward
  loop_ends zero seen a h = absurd (omega arith)
  loop_ends (suc fuel) seen a h = rw loop-step (elim (Bool-cases (contains seen a)) [
    | inl old ↦ (none, rw old)
    | inr new ↦ rw new (elim (Option-cases (first_target a)) [
      | inl stop ↦ (none, rw (stop, onward))
      | inr (b, go) ↦ elim (Bool-cases (is_constant_alias g b)) [
        | inl more ↦
            let falls = unseen-set_insert-lt g.declarations seen a (alias-known a b go) new in
            rw (go, onward, more) (loop_ends fuel (set_insert a seen) b (omega arith))
        | inr last ↦ (some b, rw (go, onward, last))
      ]
    ])
  ])

  loop_sound :
      (fuel : ℕ) (seen : List ℕ) (a t : ℕ)
      → resolve_alias_loop fuel g seen a ≡ done (some t)
      → (n : ℕ) × EndsIn n a t
  unfolding onward
  loop_sound zero seen a t h = cc (loop-zero seen a)
  loop_sound (suc fuel) seen a t h = elim (Bool-cases (contains seen a)) [
    | inl old ↦ absurd (ground (arith, loop-step fuel seen a))
    | inr new ↦ elim (Option-cases (first_target a)) [
      | inl stop ↦ absurd (ground (arith, loop-step fuel seen a))
      | inr (b, go) ↦ elim (Bool-cases (is_constant_alias g b)) [
        | inl more ↦
            let (n, rest) =
              loop_sound fuel (set_insert a seen) b t (ground (arith, loop-step fuel seen a)) in
            (suc n, (b, go, more, rest))
        | inr last ↦
            let same : b ≡ t = ground (arith, loop-step fuel seen a) in
            (0, subst (EndsIn 0 a) same (go, last))
      ]
    ]
  ]

  -- what is marked as seen lies before the current alias on the chain
  abbrev Before : ℕ → List ℕ → ℕ → Type 0
  Before n seen t = (s : ℕ) → contains seen s ≡ true → (m : ℕ) × EndsIn m s t × (n < m)

  not_seen : (n a t : ℕ) (seen : List ℕ) → EndsIn n a t → Before n seen t → contains seen a ≡ false
  not_seen n a t seen h before = elim (Bool-cases (contains seen a)) [
    | inl old ↦
        let (m, again, below) = before a old in
        absurd (omega (arith, EndsIn-unique n m a t t h again))
    | inr new ↦ new
  ]

  loop_complete :
      (n fuel : ℕ) (seen : List ℕ) (a t : ℕ)
      → EndsIn n a t
      → Before n seen t
      → unseen g.declarations seen < fuel
      → resolve_alias_loop fuel g seen a ≡ done (some t)
  unfolding onward
  loop_complete n zero seen a t h before fits = absurd (omega arith)
  loop_complete zero (suc fuel) seen a t h before fits =
      ground (arith, loop-step fuel seen a, not_seen zero a t seen h before)
  loop_complete (suc n) (suc fuel) seen a t (b, go, more, rest) before fits =
      let new = not_seen (suc n) a t seen (b, go, more, rest) before in
      let falls = unseen-set_insert-lt g.declarations seen a (alias-known a b go) new in
      let before' : Before n (set_insert a seen) t = λ s marked. elim (Bool-cases (a == s)) [
        | inl here ↦
            (suc n, subst (λ x. EndsIn (suc n) x t) (ground arith) (b, go, more, rest), omega arith)
        | inr other ↦
            let (m, chain, below) = before s (ground (arith, contains-set_insert a s seen)) in
            (m, chain, omega arith)
      ] in
      let rec = loop_complete n fuel (set_insert a seen) b t rest before' (omega arith) in
      ground (arith, loop-step fuel seen a, new, rec)

  -- `resolve_alias` always returns, cyclic chains included.
  pub resolve_alias_total : (a : ℕ) → (r : Option ℕ) × (resolve_alias g a ≡ done r)
  unfolding resolve_alias
  resolve_alias_total a =
      loop_ends (length g.declarations + 1) [] a (omega (arith, unseen-le-length g.declarations []))

  -- `resolve_alias` returns a declaration exactly when the chain of first targets from the given
  -- declaration leads, after any number of aliases, to that declaration and it is no alias. So it
  -- returns `none` exactly when the chain is circular or breaks off.
  pub resolve_alias-iff-EndsIn :
      (a t : ℕ) → (resolve_alias g a ≡ done (some t)) ↔ ((n : ℕ) × EndsIn n a t)
  unfolding resolve_alias contains
  resolve_alias-iff-EndsIn a t = (
    loop_sound (length g.declarations + 1) [] a t,
    λ (n, chain).
        loop_complete n (length g.declarations + 1) [] a t chain (λ s none_seen. cc)
          (omega (arith, unseen-le-length g.declarations [])),
  )
