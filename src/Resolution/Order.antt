-- ===== src/Resolution/Order.antt =====
-- `prepare_units` of rust/rubydex/src/resolution.rs: the order of the work. The unstable sorts of
-- the standard library are insertion sorts; what they do with equal keys is not relied on.
pub mod Counts
pub mod Once
pub mod Places
pub mod References
pub mod Sorts
pub mod Tracked
use rubydex.Base
use rubydex.Base.{
  ℕ, zero, suc, Bool, true, false, not, ◌&&◌, ◌||◌, Option, none, some, List, [], ◌∷◌, ◌++◌,
  Checked, done, panic, unwrap, if◌then◌else◌, ◌==◌, leb, ltb, contains, map,
}
use rubydex.Base.Map.{Map, get, is_some}
use rubydex.Model.Ids.{Text, Hash, codes, id_from}
use rubydex.Model.Source.{Offset}
use rubydex.Model.Definition.{Definition, DefinitionBase, base_of, Receiver, self_receiver}
use rubydex.Graph.{Graph, WorkUnit}
use rubydex.Graph.Lookup.{object_id}
use rubydex.Graph.Names.{take_pending_work}
use rubydex.Resolution.{Resolver, Action, pure, reads, changes, ◌>>=◌, ◌>>◌}
use rubydex.Resolution.Depth.{compute_name_depths}
use rubydex.Resolution.Singleton.{basic_object_id, module_id, class_id}

-- the order on texts
unfoldable pub text_le : Text → Text → Bool
text_le [] t = true
text_le (x ∷ s) [] = false
text_le (x ∷ s) (y ∷ t) = let rest = text_le s t in ltb x y || (x == y && rest)

unfoldable pub text_lt : Text → Text → Bool
text_lt s t = not (text_le t s)

-- the derived order on offsets
unfoldable pub offset_le : Offset → Offset → Bool
offset_le a b = ltb a.start b.start || (a.start == b.start && leb a.end b.end)

-- a unit with what it is sorted by: the depth of its name, if it has one, its URI and its offset
pub record Keyed : Type 0 where
  pub unit : WorkUnit
  pub depth : Option ℕ
  pub uri : Text
  pub offset : Offset

-- The depth of a name is looked up when two units are compared, and must be there then: each unit
-- is compared if there are two or more.
unfoldable pub has_depths : List Keyed → Bool
has_depths [] = true
has_depths (k ∷ l) = is_some k.depth && has_depths l

unfoldable pub is_comparable : List Keyed → Bool
unfolding has_depths
is_comparable [] = true
is_comparable (k ∷ []) = true
is_comparable l = has_depths l

depth_in : Keyed → ℕ
depth_in k = elim k.depth [ none ↦ 0 | some depth ↦ depth ]

-- the lexicographic order on the keys
unfoldable pub keyed_le : Keyed → Keyed → Bool
unfolding depth_in
keyed_le a b =
    ltb (depth_in a) (depth_in b)
    || (depth_in a == depth_in b
        && (text_lt a.uri b.uri
            || (text_le a.uri b.uri && text_le b.uri a.uri && offset_le a.offset b.offset)))

-- a definition that is no constant, with what it is sorted by
pub record Other : Type 0 where
  pub id : ℕ
  pub uri_id : ℕ
  pub offset : Offset

unfoldable pub other_le : Other → Other → Bool
other_le a b = ltb a.uri_id b.uri_id || (a.uri_id == b.uri_id && offset_le a.offset b.offset)

module _ {A : Type 0} (le : A → A → Bool) where
  unfoldable pub insert_sorted : A → List A → List A
  insert_sorted a [] = a ∷ []
  insert_sorted a (b ∷ l) = let rest = insert_sorted a l in if le a b then a ∷ (b ∷ l) else b ∷ rest

  unfoldable pub sort : List A → List A
  sort [] = []
  sort (a ∷ l) = insert_sorted a (sort l)

-- the lists that the work is split into, and the sets of what has been seen
pub record Sorted : Type 0 where
  pub definitions : List Keyed
  pub const_refs : List Keyed
  pub singleton_methods : List WorkUnit
  pub ancestors : List ℕ
  pub others : List Other
  pub seen_defs : List ℕ
  pub seen_references : List ℕ
  pub seen_ancestors : List ℕ

-- the depth of the name and the URI of the document
pub keyed : Map ℕ → WorkUnit → ℕ → ℕ → Offset → Graph → Checked Keyed
keyed depths unit name_id uri_id offset g = Base.◌>>=◌ (unwrap (get uri_id g.documents)) λ document.
    done (record { unit = unit; depth = get name_id depths; uri = document.uri; offset = offset })

-- where a definition belongs
pub data Place : Type 0 where
  named : ℕ → Place
  singleton_method other : Place

unfoldable pub place_of : Definition → Place
place_of (Definition.class d) = named d.name_id
place_of (Definition.module_definition d) = named d.name_id
place_of (Definition.constant d) = named d.name_id
place_of (Definition.constant_alias d) = named d.alias_constant.name_id
place_of (Definition.singleton_class d) = named d.name_id
place_of (Definition.method m) = elim m.receiver [
  | some (self_receiver id) ↦ singleton_method
  | _ ↦ other
]
place_of _ = other

place_definition : Map ℕ → ℕ → DefinitionBase → Graph → Sorted → Place → Checked Sorted
place_definition depths id base g s (named name_id) =
    Base.◌>>=◌ (keyed depths (WorkUnit.definition id) name_id base.uri_id base.offset g)
      λ k. done (record s { definitions = s.definitions ++ k ∷ [] })
place_definition depths id base g s singleton_method =
    done (record s { singleton_methods = s.singleton_methods ++ WorkUnit.definition id ∷ [] })
place_definition depths id base g s other = done (record s {
  others = s.others ++ (record { id = id; uri_id = base.uri_id; offset = base.offset }) ∷ [];
})

-- a definition that is still there
pub sort_definition : Map ℕ → ℕ → Graph → Sorted → Option Definition → Checked Sorted
sort_definition depths id g s none = done s
sort_definition depths id g s (some d) =
    Base.◌>>=◌ (unwrap (get (base_of d).uri_id g.documents))
      λ u. place_definition depths id (base_of d) g s (place_of d)

sort_unit : Map ℕ → Graph → Sorted → WorkUnit → Checked Sorted
sort_unit depths g s (WorkUnit.definition id) =
    let sorted =
      sort_definition depths id g (record s { seen_defs = id ∷ s.seen_defs })
        (get id g.definitions) in
    if contains s.seen_defs id then done s else sorted
sort_unit depths g s (WorkUnit.constant_ref id) =
    let seen : Sorted = record s { seen_references = id ∷ s.seen_references } in
    let sorted : Checked Sorted = elim (get id g.constant_references) [
      | none ↦ done seen
      | some r ↦
          Base.◌>>=◌ (keyed depths (WorkUnit.constant_ref id) r.name_id r.uri_id r.offset g)
            (λ k. done (record seen { const_refs = seen.const_refs ++ k ∷ [] }))
    ] in
    if contains s.seen_references id then done s else sorted
sort_unit depths g s (WorkUnit.ancestors id) =
    let seen : Sorted = record s { seen_ancestors = id ∷ s.seen_ancestors } in
    let sorted : Sorted =
      if is_some (get id g.declarations)
      then record seen { ancestors = seen.ancestors ++ id ∷ [] }
      else seen in
    done (if contains s.seen_ancestors id then s else sorted)

unfoldable pub sort_units : Map ℕ → Graph → List WorkUnit → Sorted → Checked Sorted
unfolding sort_unit sort_definition place_definition keyed
sort_units depths g [] s = done s
sort_units depths g (unit ∷ work) s =
    Base.◌>>=◌ (sort_unit depths g s unit) (sort_units depths g work)

-- whether the sorts panic
unfoldable pub compared : Sorted → Checked Sorted
compared s = if is_comparable s.definitions && is_comparable s.const_refs then done s else panic

unfoldable pub built_in_ids : Hash → List ℕ
built_in_ids xxh3_64 =
    basic_object_id xxh3_64
    ∷ (id_from xxh3_64 (codes "Kernel")
        ∷ (object_id xxh3_64 ∷ (module_id xxh3_64 ∷ (class_id xxh3_64 ∷ []))))

unfoldable pub nothing_sorted : Hash → Sorted
nothing_sorted xxh3_64 = record {
  definitions = [];
  const_refs = [];
  singleton_methods = [];
  ancestors = built_in_ids xxh3_64;
  others = [];
  seen_defs = [];
  seen_references = [];
  seen_ancestors = [];
}

abbrev unit_of : Keyed → WorkUnit
unit_of k = k.unit

abbrev id_of : Other → ℕ
id_of o = o.id

-- the queue: definitions, references, singleton methods, ancestors
unfoldable pub queue_of : Sorted → List WorkUnit
queue_of s =
    map unit_of (sort keyed_le s.definitions)
    ++ (map unit_of (sort keyed_le s.const_refs)
        ++ (s.singleton_methods ++ map WorkUnit.ancestors s.ancestors))

unfoldable pub others_of : Sorted → List ℕ
others_of s = map id_of (sort other_le s.others)

-- `self.unit_queue.extend`
unfoldable pub enqueue : List WorkUnit → Action (Unit {0})
enqueue units r = done (tt, record r { unit_queue = r.unit_queue ++ units })

unfoldable pub prepare_units : Hash → Action (List ℕ)
prepare_units xxh3_64 = do
  work ← changes (λ g. done (take_pending_work g))
  depths ← reads (λ g. compute_name_depths g.names)
  s ← reads (λ g. Base.◌>>=◌ (sort_units depths g work (nothing_sorted xxh3_64)) compared)
  enqueue (queue_of s)
  pure (others_of s)
