-- ===== src/Dispatcher/Registry.antt =====
-- dns_forwarder/dispatcher/registry.py and the lookups of dns_forwarder/resolver/manager.py.
use python_smartdns.Prelude.{
  ℕ, zero, suc, String, Bool, true, false, Option, none, some, List, [], ◌∷◌, str_eq, if◌then◌else◌,
}
use python_smartdns.Outcome.{Exn, key_error, out_of_fuel, Outcome, done, raised}
use python_smartdns.Exec.{Exec, raise, get, lift, try_except, ◌>>=◌}
use python_smartdns.Config.Model.{DispatchStrategyType, UpstreamGroupConfig}
use python_smartdns.Pipeline.Context.{UpstreamResult, RequestContext, Notify, inherit_request_tags}
use python_smartdns.Dispatcher.Strategies.{Run, race, wait_all}

-- `{group.name: group for group in config.groups}`: a later group of the same name replaces it.
unfoldable pub find_group : List UpstreamGroupConfig → String → Option UpstreamGroupConfig
find_group [] name = none
find_group (g ∷ gs) name = elim (find_group gs name) [
  | some later ↦ some later
  | none ↦ if str_eq g.name name then some g else none
]

-- `ResolverManager`: the groups, the resolvers that plugins registered and those of the upstreams.
pub record ResolverManager : Type 0 where
  pub groups : List UpstreamGroupConfig
  pub resolver_registry : String → Option (Exec RequestContext UpstreamResult)
  pub resolvers : String → Option (Exec RequestContext UpstreamResult)

abbrev pub has_group : ResolverManager → String → Bool
has_group m name = elim (find_group m.groups name) [ none ↦ false | some g ↦ true ]

unfoldable pub get_group : ResolverManager → String → Outcome UpstreamGroupConfig
get_group m name = elim (find_group m.groups name) [ none ↦ raised key_error | some g ↦ done g ]

unfoldable pub resolve : ResolverManager → String → Exec RequestContext UpstreamResult
resolve m name = elim (m.resolver_registry name) [
  | some custom ↦ custom
  | none ↦ elim (m.resolvers name) [ none ↦ raise key_error | some resolver ↦ resolver ]
]

-- The order in which the tasks of a group end, and how many end between the winner of a race and
-- the cancellation; both may differ from one state to another.
pub record Schedule : Type 0 where
  pub order : RequestContext → String → List String → List String
  pub late : RequestContext → String → ℕ

module _ (m : ResolverManager) (sch : Schedule) (on_result : Notify) where
  -- `DispatcherRegistry.dispatch_group`: the strategy's `dispatch` on the group
  unfoldable pub dispatch_group :
      Run → DispatchStrategyType → UpstreamGroupConfig → Exec RequestContext UpstreamResult
  dispatch_group run DispatchStrategyType.race group = do
    c ← get
    race run (sch.late c group.name) (sch.order c group.name group.upstreams)
  dispatch_group run DispatchStrategyType.wait_all group = do
    c ← get
    wait_all run (sch.order c group.name group.upstreams)

  abbrev pub notify : UpstreamResult → Exec RequestContext UpstreamResult
  notify result context = let (r, c) = on_result result context in (done r, c)

  -- The handler of `dispatch_target`.
  abbrev pub failed : String → Exn → Exec RequestContext UpstreamResult
  failed target exc = do
    c ← get
    notify (record {
      entry = record {
        upstream_name = target;
        duration_ms = 0;
        answer = none;
        error = some exc;
        tags = c.tags;
      };
      collected_results = [];
    })

  -- `dispatch_group_name`
  abbrev pub ask_group : Run → DispatchStrategyType → String → Exec RequestContext UpstreamResult
  ask_group run strategy target = do
    group ← lift (get_group m target)
    dispatch_group run strategy group

  abbrev pub ask_resolver : String → Exec RequestContext UpstreamResult
  ask_resolver target = do
    result ← resolve m target
    c ← get
    notify (inherit_request_tags result c.tags)

  -- The body of `dispatch_target`, over the calls that it makes for the targets of a group.
  unfoldable pub target_step :
      Run → DispatchStrategyType → String → Exec RequestContext UpstreamResult
  target_step run strategy target =
      try_except (if has_group m target then ask_group run strategy target else ask_resolver target)
        (failed target)

  -- `DispatcherRegistry.dispatch_target`, with fuel for groups inside groups
  unfoldable pub dispatch_target :
      ℕ → DispatchStrategyType → String → Exec RequestContext UpstreamResult
  dispatch_target zero strategy target = raise out_of_fuel
  dispatch_target (suc fuel) strategy target =
      target_step (dispatch_target fuel strategy) strategy target
