-- ===== src/Resolution/Chains/Follows.antt =====
-- `resolve_alias_chains` ends, and finds exactly the ends of the alias chains.
use rubydex.Base.{
  ℕ, zero, suc, ◌+◌, ◌≤◌, ◌==◌, Bool, true, false, ◌||◌, Option, none, some, List, [], ◌∷◌, ◌++◌,
  Checked, done, ◌≡◌, refl, ◌↔◌, inl, inr, arith, subst, contains, contains-append, set_insert,
  contains-set_insert, length, length-append, Bool-cases, if◌then◌else◌,
}
use rubydex.Base.Map.{Map, get, contains_key, is_some}
use rubydex.Model.Declaration.{Declaration}
use rubydex.Graph.{Graph}
use rubydex.Graph.Alias.{alias_targets, is_constant_alias}
use rubydex.Resolution.Chains.{
  targets, count_targets, chains_step, chains_loop, resolve_alias_chains,
}

module _ (g : Graph) where
  -- what is still to come: the queue, and the targets of what has not been seen
  unseen_targets : Map Declaration → List ℕ → ℕ
  unseen_targets [] seen = 0
  unseen_targets ((id, d) ∷ m) seen =
      (if contains seen id then 0 else length (targets g id)) + unseen_targets m seen

  unseen_targets-le :
      (m : Map Declaration) (seen : List ℕ) → unseen_targets m seen ≤ count_targets g m
  unfolding unseen_targets count_targets
  unseen_targets-le [] seen = omega arith
  unseen_targets-le ((id, d) ∷ m) seen = ground (arith, unseen_targets-le m seen)

  unseen_targets-insert-le :
      (m : Map Declaration) (seen : List ℕ) (a : ℕ)
      → unseen_targets m (set_insert a seen) ≤ unseen_targets m seen
  unfolding unseen_targets
  unseen_targets-insert-le [] seen a = omega arith
  unseen_targets-insert-le ((id, d) ∷ m) seen a =
      ground (arith, unseen_targets-insert-le m seen a, contains-set_insert a id seen)

  -- The targets of what is seen now are taken off.
  unseen_targets-insert :
      (m : Map Declaration) (seen : List ℕ) (a : ℕ)
      → contains_key a m ≡ true
      → contains seen a ≡ false
      → unseen_targets m (set_insert a seen) + length (targets g a) ≤ unseen_targets m seen
  unfolding unseen_targets get
  unseen_targets-insert [] seen a h new = cc
  unseen_targets-insert ((id, d) ∷ m) seen a h new = ground (
    arith,
    unseen_targets-insert m seen a,
    unseen_targets-insert-le m seen a,
    contains-set_insert a id seen,
  )

  abbrev alias_at : Option Declaration → Bool
  alias_at (some (Declaration.constant_alias d)) = true
  alias_at _ = false

  -- an alias with targets
  abbrev pub leads_on : ℕ → Bool
  leads_on a = elim (targets g a) [ [] ↦ false | t ∷ ts ↦ true ]

  abbrev pub IsDeclared : ℕ → Type 0
  IsDeclared a = contains_key a g.declarations ≡ true

  targets-alias : (a : ℕ) → is_constant_alias g a ≡ false → targets g a ≡ []
  unfolding targets is_constant_alias alias_targets
  targets-alias a h = ground arith

  step-leads :
      (o : Option Declaration) (ts : List ℕ) (keep : Checked (List ℕ))
      (follow : List ℕ → Checked (List ℕ))
      → is_some o ≡ true
      → (alias_at o ≡ false → ts ≡ [])
      → chains_step o ts keep follow
        ≡ (if elim ts [ [] ↦ false | t ∷ rest ↦ true ] then follow ts else keep)
  unfolding chains_step
  step-leads none ts keep follow known h = cc
  step-leads (some (Declaration.constant_alias d)) [] keep follow known h = refl
  step-leads (some (Declaration.constant_alias d)) (t ∷ ts) keep follow known h = refl
  step-leads (some (Declaration.namespace d)) ts keep follow known h = rw (h refl)
  step-leads (some (Declaration.constant d)) ts keep follow known h = rw (h refl)
  step-leads (some (Declaration.method d)) ts keep follow known h = rw (h refl)
  step-leads (some (Declaration.global_variable d)) ts keep follow known h = rw (h refl)
  step-leads (some (Declaration.instance_variable d)) ts keep follow known h = rw (h refl)
  step-leads (some (Declaration.class_variable d)) ts keep follow known h = rw (h refl)

  -- one round of the loop
  loop-step :
      (fuel : ℕ) (results seen : List ℕ) (a : ℕ) (queue : List ℕ)
      → IsDeclared a
      → chains_loop (suc fuel) g results seen (a ∷ queue) ≡ (
          if contains seen a
          then chains_loop fuel g results seen queue
          else if leads_on a
          then chains_loop fuel g results (set_insert a seen) (queue ++ targets g a)
          else chains_loop fuel g (results ++ a ∷ []) (set_insert a seen) queue)
  unfolding chains_loop is_constant_alias
  loop-step fuel results seen a queue h = rw (
      step-leads (get a g.declarations) (targets g a)
        (chains_loop fuel g (results ++ a ∷ []) (set_insert a seen) queue)
        (λ ts. chains_loop fuel g results (set_insert a seen) (queue ++ ts)) h (targets-alias a))

  -- the declarations that aliases lead to
  pub data Leads (a : ℕ) : ℕ → Type 0 where
    here : Leads a a
    next : {b c : ℕ} → Leads a b → contains (targets g b) c ≡ true → Leads a c

  no_targets : (a b : ℕ) → leads_on a ≡ false → contains (targets g a) b ≡ false
  unfolding contains
  no_targets a b h = ground (arith, h)

  chains_loop-nil :
      (fuel : ℕ) (results seen : List ℕ) → chains_loop fuel g results seen [] ≡ done results
  unfolding chains_loop
  chains_loop-nil fuel results seen = refl

  module _ (root : ℕ) where
    record IsSearch (results seen queue : List ℕ) : Type 0 where
      pub queued : (q : ℕ) → contains queue q ≡ true → Leads root q
      pub sound : (t : ℕ) → contains results t ≡ true → Leads root t × (leads_on t ≡ false)
      pub finals : (s : ℕ) → contains seen s ≡ true → leads_on s ≡ false → contains results s ≡ true
      pub closed :
          (s b : ℕ)
          → contains seen s ≡ true
          → contains (targets g s) b ≡ true
          → (contains seen b || contains queue b) ≡ true
      pub rooted : (contains seen root || contains queue root) ≡ true

    head_queued :
        (results seen : List ℕ) (a : ℕ) (queue : List ℕ)
        → IsSearch results seen (a ∷ queue)
        → Leads root a
    unfolding contains
    head_queued results seen a queue s = s.queued a (ground arith)

    skip-IsSearch :
        (results seen : List ℕ) (a : ℕ) (queue : List ℕ)
        → contains seen a ≡ true
        → IsSearch results seen (a ∷ queue)
        → IsSearch results seen queue
    unfolding contains
    skip-IsSearch results seen a queue old s = record {
      queued = λ q h. s.queued q (ground (arith, h));
      sound = s.sound;
      finals = s.finals;
      closed = λ x b h k. ground (arith, s.closed x b h k, old);
      rooted = ground (arith, s.rooted, old);
    }

    keep-IsSearch :
        (results seen : List ℕ) (a : ℕ) (queue : List ℕ)
        → leads_on a ≡ false
        → IsSearch results seen (a ∷ queue)
        → IsSearch (results ++ a ∷ []) (set_insert a seen) queue
    unfolding contains
    keep-IsSearch results seen a queue final s = record {
      queued = λ q h. s.queued q (ground (arith, h));
      sound = λ t h. elim (Bool-cases (contains results t)) [
        | inl old ↦ s.sound t old
        | inr new ↦
            let same : a ≡ t = ground (arith, h, new, contains-append results (a ∷ []) t) in
            subst (λ x. Leads root x × (leads_on x ≡ false)) same
              (head_queued results seen a queue s, final)
      ];
      finals = λ x h k. ground (
        arith,
        h,
        k,
        s.finals x,
        contains-append results (a ∷ []) x,
        contains-set_insert a x seen,
      );
      closed = λ x b h k. elim (Bool-cases (a == x)) [
        | inl same ↦
            let back : x ≡ a = ground (arith, same) in
            let has : contains (targets g a) b ≡ true =
              subst (λ y. contains (targets g y) b ≡ true) back k in
            absurd (ground (arith, has, no_targets a b final))
        | inr other ↦ ground (
          arith,
          s.closed x b (ground (arith, h, contains-set_insert a x seen)) k,
          contains-set_insert a b seen,
        )
      ];
      rooted = ground (arith, s.rooted, contains-set_insert a root seen);
    }

    follow-IsSearch :
        (results seen : List ℕ) (a : ℕ) (queue : List ℕ)
        → leads_on a ≡ true
        → IsSearch results seen (a ∷ queue)
        → IsSearch results (set_insert a seen) (queue ++ targets g a)
    unfolding contains
    follow-IsSearch results seen a queue more s = record {
      queued = λ q h. elim (Bool-cases (contains queue q)) [
        | inl old ↦ s.queued q (ground (arith, old))
        | inr new ↦
            next (head_queued results seen a queue s)
              (ground (arith, h, new, contains-append queue (targets g a) q))
      ];
      sound = s.sound;
      finals = λ x h k. elim (Bool-cases (a == x)) [
        | inl same ↦
            let back : x ≡ a = ground (arith, same) in
            let stops : leads_on a ≡ false = subst (λ y. leads_on y ≡ false) back k in
            absurd (ground (arith, more, stops))
        | inr other ↦ s.finals x (ground (arith, h, contains-set_insert a x seen)) k
      ];
      closed = λ x b h k. elim (Bool-cases (a == x)) [
        | inl same ↦
            let here : contains (targets g a) b ≡ true =
              subst (λ y. contains (targets g y) b ≡ true) (ground arith) k in
            ground (arith, here, contains-append queue (targets g a) b)
        | inr other ↦ ground (
          arith,
          s.closed x b (ground (arith, h, contains-set_insert a x seen)) k,
          contains-set_insert a b seen,
          contains-append queue (targets g a) b,
        )
      ];
      rooted = ground (
        arith,
        s.rooted,
        contains-set_insert a root seen,
        contains-append queue (targets g a) root,
      );
    }

    -- what the list of the results should be
    abbrev pub IsEnds : List ℕ → Type 0
    IsEnds results = (t : ℕ) → (contains results t ≡ true) ↔ (Leads root t × (leads_on t ≡ false))

    -- with an empty queue, all that can be reached has been seen
    all_seen :
        (results seen : List ℕ)
        → IsSearch results seen []
        → (t : ℕ) → Leads root t
        → contains seen t ≡ true
    unfolding contains
    all_seen results seen s t here = ground (arith, s.rooted)
    all_seen results seen s t (next {b} r edge) =
        ground (arith, s.closed b t (all_seen results seen s b r) edge)

    loop-IsEnds :
        (known : (t : ℕ) → Leads root t → IsDeclared t) (fuel : ℕ) (results seen queue : List ℕ)
        → length queue + unseen_targets g.declarations seen ≤ fuel
        → IsSearch results seen queue
        → (rs : List ℕ) × (chains_loop fuel g results seen queue ≡ done rs) × IsEnds rs
    loop-IsEnds known fuel results seen [] fits s = (
      results,
      chains_loop-nil fuel results seen,
      λ t. (s.sound t, λ (r, final). s.finals t (all_seen results seen s t r) final),
    )
    loop-IsEnds known zero results seen (a ∷ queue) fits s = absurd (omega (arith, fits))
    loop-IsEnds known (suc fuel) results seen (a ∷ queue) fits s =
        let declared = known a (head_queued results seen a queue s) in
        rw (loop-step fuel results seen a queue declared) (elim (Bool-cases (contains seen a)) [
          | inl old ↦ rw old (
              loop-IsEnds known fuel results seen queue (omega (arith, fits))
                (skip-IsSearch results seen a queue old s))
          | inr new ↦
              let falls = unseen_targets-insert g.declarations seen a declared new in
              rw new (elim (Bool-cases (leads_on a)) [
                | inl more ↦ rw more (
                    loop-IsEnds known fuel results (set_insert a seen) (queue ++ targets g a)
                      (omega (arith, fits, falls, length-append queue (targets g a)))
                      (follow-IsSearch results seen a queue more s))
                | inr final ↦ rw final (
                    loop-IsEnds known fuel (results ++ a ∷ []) (set_insert a seen) queue
                      (omega (arith, fits, falls)) (keep-IsSearch results seen a queue final s))
              ])
        ])

    -- If all that the aliases from a declaration lead to is declared, the search for the targets of its
    -- alias chains returns, on circular chains too, and the result holds exactly the declarations
    -- that the chains lead to and that lead no further: those that are no alias, and the aliases
    -- without a resolved target.
    pub resolve_alias_chains-IsEnds :
        ((t : ℕ) → Leads root t → IsDeclared t)
        → (rs : List ℕ) × (resolve_alias_chains g root ≡ done rs) × IsEnds rs
    unfolding resolve_alias_chains contains
    resolve_alias_chains-IsEnds known =
        loop-IsEnds known (1 + count_targets g g.declarations) [] [] (root ∷ [])
          (omega (arith, unseen_targets-le g.declarations []))
          (record {
            queued = λ q h. subst (Leads root) (ground (arith, h)) here;
            sound = λ t h. absurd (ground (arith, h));
            finals = λ x h k. cc;
            closed = λ x b h k. cc;
            rooted = ground arith;
          })
