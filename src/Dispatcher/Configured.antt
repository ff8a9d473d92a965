-- ===== src/Dispatcher/Configured.antt =====
-- The groups of a valid configuration, as the dispatcher finds them.
use python_smartdns.Prelude.{
  ℕ, suc, String, Bool, true, false, some, List, [], ◌∷◌, elem, filterb, length, map, ◌≡◌, refl, ap,
  ◌∙◌, inl, inr, arith, str_eq, eq_iff, Bool-cases, Option-cases,
}
use python_smartdns.Config.Model.{
  DispatchStrategyType, UpstreamGroupConfig, AppConfig, ok, >>=-eq-ok,
}
use python_smartdns.Config.Cycles.{adjacency, targets, keys, search_cycles}
use python_smartdns.Config.Cycles.Acyclic.{rank}
use python_smartdns.Config.Cycles.Depth.{IsRanked, search_cycles-IsRanked}
use python_smartdns.Config.References.{group_names, validate_group_cycles}
use python_smartdns.Config.References.Names.{Distinct}
use python_smartdns.Config.References.GroupCycles.{
  group_graph, group_graph-IsClosed, keys-adjacency, validate_group_cycles-ok_iff,
}
use python_smartdns.Config.References.Validity.{IsValid}
use python_smartdns.Exec.Ensures.{Post, OnlyCancelled, Always}
use python_smartdns.Pipeline.Context.{RequestContext, Notify}
use python_smartdns.Dispatcher.Registry.{
  find_group, ResolverManager, has_group, Schedule, dispatch_target,
}
use python_smartdns.Dispatcher.Termination.{IsOrder, Resolves, Falls, dispatch_target-Settles}

find_group-known :
    (gs : List UpstreamGroupConfig) (name : String) (g : UpstreamGroupConfig)
    → find_group gs name ≡ some g
    → elem name (map (λ x. x.name) gs) ≡ true
unfolding find_group
find_group-known [] name g h = cc
find_group-known (x ∷ gs) name g h = elim (Option-cases (find_group gs name)) [
  | inl e ↦ ground (arith, rw e at h)
  | inr (y, e) ↦ ground (arith, find_group-known gs name y e)
]

elem-filterb :
    (p : String → Bool) (t : String) (ts : List String)
    → elem t ts ≡ true
    → p t ≡ true
    → elem t (filterb p ts) ≡ true
elem-filterb p t [] h k = cc
elem-filterb p t (x ∷ ts) h k = elim (Bool-cases (str_eq x t)) [
  | inl e ↦ let same : x ≡ t = (eq_iff x t).0 e in rw (same, k, (eq_iff t t).1 refl)
  | inr e ↦ ground (arith, e, elem-filterb p t ts (rw e at h) k)
]

-- Without a name twice, the last group of a name is the first.
targets-find_group :
    (names : List String) (gs : List UpstreamGroupConfig) (name : String) (g : UpstreamGroupConfig)
    → Distinct (map (λ x. x.name) gs)
    → find_group gs name ≡ some g
    → targets (adjacency names gs) name ≡ filterb (λ t. elem t names) g.upstreams
unfolding find_group adjacency targets
targets-find_group names [] name g d h = absurd (cc)
targets-find_group names (x ∷ gs) name g d h = elim (Option-cases (find_group gs name)) [
  | inl e ↦ elim (Bool-cases (str_eq x.name name)) [
    | inl s ↦
        let here : some x ≡ some g = rw (e, s) at h in let same : x ≡ g = cc here in rw (s, same)
    | inr s ↦ absurd (cc (rw (e, s) at h))
  ]
  | inr (y, e) ↦
      let later : some y ≡ some g = rw e at h in
      let other : str_eq x.name name ≡ false =
        ground (arith, d.0, find_group-known gs name y e, eq_iff x.name name) in
      rw other (targets-find_group names gs name g d.1 (e ∙ later))
]

module _ (c : AppConfig) (v : IsValid c) where
  height-exists : (height : String → ℕ) × IsRanked (group_graph c) height
  unfolding validate_group_cycles
  height-exists =
      let (s, run, _) =
        >>=-eq-ok (search_cycles (group_graph c)) (λ s. ok (tt {0}))
          ((validate_group_cycles-ok_iff c).1 v.acyclic) in
      (λ g. rank g s.visited, search_cycles-IsRanked (group_graph c) s (group_graph-IsClosed c) run)

  has_group-known :
      (m : ResolverManager) (t : String)
      → m.groups ≡ c.groups
      → has_group m t ≡ true
      → elem t (group_names c) ≡ true
  has_group-known m t same h = elim (Option-cases (find_group m.groups t)) [
    | inl e ↦ absurd (ground (arith, e, h))
    | inr (g, e) ↦ rw same at (find_group-known m.groups t g e)
  ]

  Falls-height :
      (m : ResolverManager) (height : String → ℕ)
      → m.groups ≡ c.groups
      → IsRanked (group_graph c) height
      → Falls m height
  Falls-height m height same r name t g found named group =
      let f : find_group c.groups name ≡ some g = rw same at found in
      r.falls name t
        (rw (keys-adjacency (group_names c) c.groups) (find_group-known c.groups name g f))
        (rw (targets-find_group (group_names c) c.groups name g v.groups f) (
          elem-filterb (λ x. elem x (group_names c)) t g.upstreams named
            (has_group-known m t same group)))

length-keys :
    (names : List String) (gs : List UpstreamGroupConfig)
    → length (keys (adjacency names gs)) ≡ length gs
unfolding adjacency
length-keys names [] = refl
length-keys names (g ∷ gs) = ap suc (length-keys names gs)

-- Over a configuration that `validate_references` accepts, asking any target ends with a result or
-- with the cancellation of the request, from any state and under any schedule: nested groups never
-- recurse without end, two calls more than there are groups are deep enough, and no exception of a
-- resolver or of a missing name comes out.
pub dispatch_target-settles :
    (c : AppConfig) (m : ResolverManager) (sch : Schedule) (on_result : Notify)
    (s : DispatchStrategyType) (name : String) (context : RequestContext)
    → IsValid c
    → m.groups ≡ c.groups
    → IsOrder sch
    → Resolves m
    → Post Always OnlyCancelled
        (dispatch_target m sch on_result (suc (suc (length c.groups))) s name context).0
dispatch_target-settles c m sch on_result s name context v same o r =
    let (height, ranked) = height-exists c v in
    (dispatch_target-Settles m sch on_result height (suc (length c.groups)) s name o r
        (Falls-height c v m height same ranked)
        (λ k. omega (arith, ranked.bounded name, length-keys (group_names c) c.groups))).at
      context
