-- ===== src/Tests/Scoping.antt =====
-- Applications of the theorems on the searches for constants and on singleton classes.
use rubydex.Base.{
  ℕ, ◌<◌, ◌==◌, Option, none, some, [], ◌∷◌, done, ◌≡◌, ◌≢◌, ◌⊎◌, refl, arith, length,
  if◌then◌else◌, subst, ap,
}
use rubydex.Base.Map.{get}
use rubydex.Model.Ids.{id_from}
use rubydex.Model.Name.{NameRef, ResolvedName, resolved, inner}
use rubydex.Model.Declaration.{
  Ancestor, Ancestors, ancestor_list, Declaration, Namespace, new_namespace,
}
use rubydex.Graph.{Graph}
use rubydex.Resolution.{Outcome, Resolver, new}
use rubydex.Resolution.Chains.{targets, resolve_alias_chains}
use rubydex.Resolution.Chains.{member_of}
use rubydex.Resolution.Constants.{search_chain, search_partial}
use rubydex.Resolution.Constants.First.{
  FirstDecides, is_partial, to_linearize, search_chain-FirstDecides,
}
use rubydex.Resolution.Scopes.{scope_member, search_lexical_scopes}
use rubydex.Resolution.Scopes.Innermost.{
  IsNested, AreSearchable, IsInnermost, search_lexical_scopes-IsInnermost,
}
use rubydex.Tests.{resolved_to, hash, world, name_of}
use rubydex.Resolution.Singleton.{queue_singleton_class, singleton_name}
use rubydex.Resolution.Singleton.Again.{queue_singleton_class-again}
use rubydex.Tests.{class_named}
use rubydex.Tests.Resolving.{get-Entries}

-- `A`, an unresolved ancestor, and `Base`
abbrev partial_chain : Ancestors
partial_chain =
    Ancestors.partial (Ancestor.complete 1 ∷ (Ancestor.partial 201 ∷ (Ancestor.complete 2 ∷ [])))

searches_chain : search_chain world 1 11 partial_chain ≡ done (Outcome.retry (some 1))
unfolding search_chain search_partial member_of get
searches_chain = refl

search_chain-FirstDecides_example :
    FirstDecides world 11
      (is_partial partial_chain)
      (to_linearize 1 partial_chain)
      (ancestor_list partial_chain)
      (Outcome.retry (some 1))
search_chain-FirstDecides_example =
    search_chain-FirstDecides world 11 1 partial_chain (Outcome.retry (some 1)) searches_chain

-- `Base` nested in `A`
abbrev scoped : Graph
scoped = record world {
  names =
      (201, resolved_to 14 1)
      ∷ ((209, resolved (record { name = name_of 17 (some 201); declaration_id = 2 })) ∷ []);
}

abbrev scope_depth : ℕ → ℕ
scope_depth id = if id == 209 then 1 else 0

scoped-IsNested : IsNested scoped scope_depth
unfolding get
scoped-IsNested = record {
  present = λ id outer n known up.
      get-Entries
        (λ id n. (inner n).nesting ≡ some outer → (o : NameRef) × (get outer scoped.names ≡ some o))
        scoped.names
        (
          (λ up. cc),
          (
            (λ up.
                let same : ◌≡◌ {A = ℕ} 201 outer = ground (arith, up) in
                subst (λ o. (x : NameRef) × (get o scoped.names ≡ some x)) same
                  (resolved_to 14 1, refl)),
            tt,
          ),
        )
        id n known up;
  deeper = λ id outer n known up.
      get-Entries (λ id n. (inner n).nesting ≡ some outer → scope_depth outer < scope_depth id)
        scoped.names ((λ up. cc), ((λ up. ground (arith, up)), tt)) id n known up;
  bounded =
      get-Entries (λ id n. scope_depth id < length scoped.names) scoped.names
        (omega arith, (omega arith, tt));
}

abbrev declaration_of : NameRef → ℕ
declaration_of (NameRef.resolved r) = r.declaration_id
declaration_of (NameRef.unresolved n) = 0

searchable :
    (n : NameRef) (m : Option ℕ)
    → scope_member scoped 10 (declaration_of n) ≡ done m
    → (r : ResolvedName) → n ≡ NameRef.resolved r
    → (m : Option ℕ) × (scope_member scoped 10 r.declaration_id ≡ done m)
searchable n m found r same =
    subst (λ d. (m : Option ℕ) × (scope_member scoped 10 d ≡ done m)) (ap declaration_of same)
      (m, found)

scoped-AreSearchable : AreSearchable scoped 10
unfolding scope_member get rubydex.Resolution.Chains.resolve_to_namespace
scoped-AreSearchable id r known =
    get-Entries
      (λ id n.
        (r : ResolvedName)
        → n ≡ NameRef.resolved r
        → (m : Option ℕ) × (scope_member scoped 10 r.declaration_id ≡ done m))
      scoped.names
      (
        searchable (resolved_to 14 1) (some 5) refl,
        (
          searchable (resolved (record { name = name_of 17 (some 201); declaration_id = 2 })) none
              refl,
          tt,
        ),
      )
      id (NameRef.resolved r) known r refl

search_lexical_scopes-IsInnermost_example :
    (o : Outcome) × (search_lexical_scopes scoped (name_of 18 (some 209)) 10 ≡ done o)
    × IsInnermost scoped 10 (some 209) o
unfolding get
search_lexical_scopes-IsInnermost_example =
    search_lexical_scopes-IsInnermost scoped 10 scope_depth scoped-IsNested scoped-AreSearchable
      (name_of 18 (some 209)) 209
      (resolved (record { name = name_of 17 (some 201); declaration_id = 2 })) refl refl

-- `Base`, which has no singleton class
abbrev base_class : Namespace
base_class = class_named "Base" [] ((11, 6) ∷ []) (Ancestor.complete 2 ∷ [])

singleton_apart : id_from hash (singleton_name (Declaration.namespace base_class)) ≢ 2
unfolding singleton_name id_from rubydex.Model.Declaration.unqualified_name
singleton_apart e = ground (arith, e)

queue_singleton_class-again_example :
    (id : ℕ) × (r' : Resolver) × (queue_singleton_class hash 2 (new world) ≡ done (some id, r'))
    × (queue_singleton_class hash 2 r' ≡ done (some id, r'))
    × (((rubydex.Model.Declaration.inner base_class).singleton_class_id ≡ some id)
        ⊎ (get id r'.graph.declarations
            ≡ some (
                Declaration.namespace (
                  Namespace.singleton_class
                    (new_namespace (singleton_name (Declaration.namespace base_class)) 2)))))
unfolding get new
queue_singleton_class-again_example =
    queue_singleton_class-again hash 2 (new world) base_class refl singleton_apart
