-- ===== src/Resolution/Order/Places.antt =====
-- Where `prepare_units` puts one unit of the pending work.
use rubydex.Base
use rubydex.Base.{
  ℕ, ◌+◌, ◌==◌, Bool, true, false, ◌&&◌, ◌||◌, not, Option, none, some, List, [], ◌∷◌, ◌++◌, map,
  done, ◌≡◌, refl, ap, arith, count, count-append, if◌then◌else◌, Bool-cases, Option-cases, inl,
  inr, Ensures, Ensures-read, Ensures->>=, unwrap, subst,
}
use rubydex.Base.Map.{Map, get}
use rubydex.Model.Source.{Offset}
use rubydex.Model.Definition.{Definition, DefinitionBase, base_of, Receiver, self_receiver}
use rubydex.Graph.{Graph, WorkUnit}
use rubydex.Resolution.Order.{
  Sorted, keyed, Place, named, singleton_method, other, place_of, place_definition, sort_definition,
  unit_of, id_of,
}
use rubydex.Resolution.Order.Counts.{
  is_definition, tally, tally-append, units_in, others_in, map-append_one,
}

-- whether the definition is queued: those of constants, and methods of `self`; the others are
-- returned for later
abbrev pub has_self_receiver : Option Receiver → Bool
has_self_receiver (some (self_receiver id)) = true
has_self_receiver _ = false

abbrev pub is_queued : Definition → Bool
is_queued (Definition.class d) = true
is_queued (Definition.singleton_class d) = true
is_queued (Definition.module_definition d) = true
is_queued (Definition.constant d) = true
is_queued (Definition.constant_alias d) = true
is_queued (Definition.method m) = has_self_receiver m.receiver
is_queued _ = false

abbrev pub is_queued_if_some : Option Definition → Bool
is_queued_if_some none = false
is_queued_if_some (some d) = is_queued d

abbrev pub is_other_if_some : Option Definition → Bool
is_other_if_some none = false
is_other_if_some (some d) = not (is_queued d)

abbrev pub queues : Graph → ℕ → Bool
queues g id = is_queued_if_some (get id g.definitions)

abbrev pub sets_aside : Graph → ℕ → Bool
sets_aside g id = is_other_if_some (get id g.definitions)

in_queue : Place → Bool
in_queue (named name_id) = true
in_queue singleton_method = true
in_queue other = false

in_queue-receiver :
    (r : Option Receiver)
    → in_queue (elim r [ some (self_receiver id) ↦ singleton_method | _ ↦ other ])
      ≡ has_self_receiver r
unfolding in_queue
in_queue-receiver (some (self_receiver id)) = refl
in_queue-receiver (some (Receiver.constant_receiver id)) = refl
in_queue-receiver none = refl

in_queue-place_of : (d : Definition) → in_queue (place_of d) ≡ is_queued d
unfolding place_of in_queue
in_queue-place_of (Definition.method m) = in_queue-receiver m.receiver
in_queue-place_of (Definition.class d) = refl
in_queue-place_of (Definition.singleton_class d) = refl
in_queue-place_of (Definition.module_definition d) = refl
in_queue-place_of (Definition.constant d) = refl
in_queue-place_of (Definition.constant_alias d) = refl
in_queue-place_of d = refl

-- what has been seen stays so
pub record SameSeen (s s' : Sorted) : Type 0 where
  pub seen_defs : s'.seen_defs ≡ s.seen_defs
  pub seen_references : s'.seen_references ≡ s.seen_references
  pub seen_ancestors : s'.seen_ancestors ≡ s.seen_ancestors

-- The unit is queued or not, its definition is set aside or not, and no other is.
pub record Places (u : WorkUnit) (queued aside : Bool) (s s' : Sorted) : Type 0 where
  pub units :
      (p : WorkUnit → Bool) → units_in p s' ≡ (if queued && p u then 1 else 0) + units_in p s
  pub others :
      (id : ℕ) → others_in id s' ≡ (if aside && is_definition id u then 1 else 0) + others_in id s
  pub seen : SameSeen s s'

pub Places-nothing : (u : WorkUnit) (s : Sorted) → Places u false false s s
Places-nothing u s = record {
  units = λ p. omega arith;
  others = λ id. omega arith;
  seen = record { seen_defs = refl; seen_references = refl; seen_ancestors = refl };
}

-- a unit more at the end of a list
tally-append_one :
    {A : Type 0} (f : A → WorkUnit) (p : WorkUnit → Bool) (l : List A) (a : A)
    → tally p (map f (l ++ a ∷ [])) ≡ (if p (f a) then 1 else 0) + tally p (map f l)
unfolding tally
tally-append_one f p l a =
    omega (arith, ap (tally p) (map-append_one f l a), tally-append p (map f l) (f a ∷ []))

module _ (g : Graph) where
  keyed-unit :
      (depths : Map ℕ) (unit : WorkUnit) (name_id uri_id : ℕ) (offset : Offset)
      → Ensures (λ k. k.unit ≡ unit) (keyed depths unit name_id uri_id offset g)
  unfolding keyed
  keyed-unit depths unit name_id uri_id offset =
      Ensures-read (λ k. k.unit ≡ unit) (unwrap (get uri_id g.documents)) _ λ document. refl

  place_definition-Places :
      (depths : Map ℕ) (id : ℕ) (base : DefinitionBase) (s : Sorted) (p : Place)
      → Ensures
          (Places (WorkUnit.definition id) (in_queue p) (not (in_queue p)) s)
          (place_definition depths id base g s p)
  unfolding place_definition units_in others_in in_queue tally count
  place_definition-Places depths id base s (named name_id) =
      Ensures->>= (λ k. k.unit ≡ WorkUnit.definition id)
        (Places (WorkUnit.definition id) true false s)
        (keyed depths (WorkUnit.definition id) name_id base.uri_id base.offset g)
        (λ k. done (record s { definitions = s.definitions ++ k ∷ [] }))
        (keyed-unit depths (WorkUnit.definition id) name_id base.uri_id base.offset)
        λ k e. record {
          units = λ p.
              let one : p k.unit ≡ p (WorkUnit.definition id) = ap p e in
              ground (arith, tally-append_one unit_of p s.definitions k, one);
          others = λ j. omega arith;
          seen = record { seen_defs = refl; seen_references = refl; seen_ancestors = refl };
        }
  place_definition-Places depths id base s singleton_method = record {
    units = λ p. omega (arith, tally-append p s.singleton_methods (WorkUnit.definition id ∷ []));
    others = λ j. omega arith;
    seen = record { seen_defs = refl; seen_references = refl; seen_ancestors = refl };
  }
  place_definition-Places depths id base s other = record {
    units = λ p. omega arith;
    others = λ j. omega (
      arith,
      ap (count j) (
          map-append_one id_of s.others
            (record { id = id; uri_id = base.uri_id; offset = base.offset })),
      count-append j (map id_of s.others) (id ∷ []),
    );
    seen = record { seen_defs = refl; seen_references = refl; seen_ancestors = refl };
  }

  pub sort_definition-Places :
      (depths : Map ℕ) (id : ℕ) (s : Sorted) (o : Option Definition)
      → Ensures
          (Places (WorkUnit.definition id) (is_queued_if_some o) (is_other_if_some o) s)
          (sort_definition depths id g s o)
  unfolding sort_definition
  sort_definition-Places depths id s none = Places-nothing (WorkUnit.definition id) s
  sort_definition-Places depths id s (some d) =
      let Q = Places (WorkUnit.definition id) (is_queued d) (not (is_queued d)) s in
      let placed : Ensures Q (place_definition depths id (base_of d) g s (place_of d)) =
        subst
          (λ b.
            Ensures (Places (WorkUnit.definition id) b (not b) s)
              (place_definition depths id (base_of d) g s (place_of d)))
          (in_queue-place_of d) (place_definition-Places depths id (base_of d) s (place_of d)) in
      Ensures-read Q (unwrap (get (base_of d).uri_id g.documents)) _ λ u. placed

  pub keyed-Places :
      (depths : Map ℕ) (id name_id uri_id : ℕ) (offset : Offset) (s : Sorted)
      → Ensures (Places (WorkUnit.constant_ref id) true false s) (
          Base.◌>>=◌
            (keyed depths (WorkUnit.constant_ref id) name_id uri_id offset g)
            λ k. done (record s { const_refs = s.const_refs ++ k ∷ [] }))
  unfolding units_in others_in
  keyed-Places depths id name_id uri_id offset s =
      Ensures->>= (λ k. k.unit ≡ WorkUnit.constant_ref id)
        (Places (WorkUnit.constant_ref id) true false s)
        (keyed depths (WorkUnit.constant_ref id) name_id uri_id offset g)
        (λ k. done (record s { const_refs = s.const_refs ++ k ∷ [] }))
        (keyed-unit depths (WorkUnit.constant_ref id) name_id uri_id offset)
        λ k e. record {
          units = λ p.
              let one : p k.unit ≡ p (WorkUnit.constant_ref id) = ap p e in
              ground (arith, tally-append_one unit_of p s.const_refs k, one);
          others = λ j. omega arith;
          seen = record { seen_defs = refl; seen_references = refl; seen_ancestors = refl };
        }

  pub ancestors-Places :
      (id : ℕ) (s : Sorted)
      → Places
          (WorkUnit.ancestors id)
          true
          false
          s
          (record s { ancestors = s.ancestors ++ id ∷ [] })
  unfolding units_in others_in
  ancestors-Places id s = record {
    units = λ p. omega (arith, tally-append_one WorkUnit.ancestors p s.ancestors id);
    others = λ j. omega arith;
    seen = record { seen_defs = refl; seen_references = refl; seen_ancestors = refl };
  }
