-- ===== src/Dispatcher/Termination.antt =====
-- Dispatch over a valid configuration comes to a result, however its groups are nested.
use python_smartdns.Prelude.{
  ℕ, zero, suc, ◌<◌, String, true, false, Option, none, some, List, elem, All, All-elem, All-intro,
  ◌≡◌, refl, ap, subst, sym, arith, if◌then◌else◌,
}
use python_smartdns.Outcome.{Outcome, done, raised, key_error}
use python_smartdns.Exec.{get, ◌>>=◌}
use python_smartdns.Exec.Ensures.{
  OnlyCancelled, AnyPython, Always, Ensures, Ensures-map, Ensures-try, Ensures-bind,
  OnlyCancelled-AnyPython,
}
use python_smartdns.Config.Model.{DispatchStrategyType, UpstreamGroupConfig}
use python_smartdns.Pipeline.Context.{RequestContext, Notify, inherit_request_tags}
use python_smartdns.Dispatcher.Strategies.{Run}
use python_smartdns.Dispatcher.Endings.{Settles, RunSettles, race-Settles, wait_all-Settles}
use python_smartdns.Dispatcher.Registry.{
  find_group, ResolverManager, has_group, get_group, resolve, Schedule, dispatch_group, notify,
  failed, ask_group, ask_resolver, target_step, dispatch_target,
}

-- What the schedule orders are the targets of the group.
pub record IsOrder (sch : Schedule) : Type 0 where
  pub of_group :
      (c : RequestContext) (g : String) (ts : List String) (t : String)
      → elem t (sch.order c g ts) ≡ true
      → elem t ts ≡ true

-- No resolver reports the model's own exception.
abbrev pub Resolves : ResolverManager → Type 0
Resolves m = (name : String) → Ensures Always AnyPython (resolve m name)

-- A rank for the groups, which falls along every reference.
abbrev pub Falls : ResolverManager → (String → ℕ) → Type 0
Falls m height =
    (name t : String) (g : UpstreamGroupConfig)
    → find_group m.groups name ≡ some g
    → elem t g.upstreams ≡ true
    → has_group m t ≡ true
    → height t < height name

module _ (m : ResolverManager) (sch : Schedule) (on_result : Notify) where
  pub dispatch_group-Settles :
      (run : Run) (s : DispatchStrategyType) (g : UpstreamGroupConfig)
      → IsOrder sch
      → All (RunSettles run) g.upstreams
      → Settles (dispatch_group m sch on_result run s g)
  unfolding dispatch_group
  dispatch_group-Settles run DispatchStrategyType.race g o h = record {
    at = λ c.
        (race-Settles run (sch.late c g.name) (sch.order c g.name g.upstreams) (scheduled c)).at c;
  }
    where
      scheduled : (c : RequestContext) → All (RunSettles run) (sch.order c g.name g.upstreams)
      scheduled c =
          All-intro (RunSettles run) (sch.order c g.name g.upstreams)
            (λ t e. All-elem (RunSettles run) g.upstreams t h (o.of_group c g.name g.upstreams t e))
  dispatch_group-Settles run DispatchStrategyType.wait_all g o h = record {
    at = λ c.
        (wait_all-Settles run (sch.order c g.name g.upstreams) (
            All-intro (RunSettles run) (sch.order c g.name g.upstreams) (λ t e.
              All-elem (RunSettles run) g.upstreams t h (o.of_group c g.name g.upstreams t e)))).at
          c;
  }

  has_group-eq :
      (name : String) (found : Option UpstreamGroupConfig)
      → find_group m.groups name ≡ found
      → has_group m name ≡ elim found [ none ↦ false | some g ↦ true ]
  has_group-eq name found e = ap (elim [ none ↦ false | some g ↦ true ]) e

  get_group-eq :
      (name : String) (g : UpstreamGroupConfig)
      → find_group m.groups name ≡ some g
      → get_group m name ≡ done g
  unfolding get_group
  get_group-eq name g e =
      ap {B = Outcome UpstreamGroupConfig} (elim [ none ↦ raised key_error | some x ↦ done x ]) e

  ask_group-Settles :
      (run : Run) (s : DispatchStrategyType) (name : String) (g : UpstreamGroupConfig)
      → IsOrder sch
      → find_group m.groups name ≡ some g
      → All (RunSettles run) g.upstreams
      → Ensures Always AnyPython (ask_group m sch on_result run s name)
  ask_group-Settles run s name g o e h = record {
    at = λ c. rw (get_group-eq name g e) (settles.at c);
  }
    where
      settles : Ensures Always AnyPython (dispatch_group m sch on_result run s g)
      settles =
          Ensures-map Always OnlyCancelled AnyPython (dispatch_group m sch on_result run s g)
            OnlyCancelled-AnyPython (dispatch_group-Settles run s g o h)

  ask_resolver-Settles :
      (name : String) → Resolves m → Ensures Always AnyPython (ask_resolver m sch on_result name)
  ask_resolver-Settles name r =
      Ensures-bind Always Always AnyPython (resolve m name)
        (λ result. do c ← get; notify m sch on_result (inherit_request_tags result c.tags)) (r name)
        (λ result _. record { at = λ c. tt })

  -- One call settles if the calls that it makes for the targets of its group do.
  target_step-Settles :
      (run : Run) (s : DispatchStrategyType) (name : String)
      → IsOrder sch
      → Resolves m
      → ((g : UpstreamGroupConfig)
          → find_group m.groups name ≡ some g
          → All (RunSettles run) g.upstreams)
      → Settles (target_step m sch on_result run s name)
  unfolding target_step
  target_step-Settles run s name o r h =
      Ensures-try Always
        (if has_group m name
          then ask_group m sch on_result run s name
          else ask_resolver m sch on_result name)
        (failed m sch on_result name) (go (find_group m.groups name) refl)
        (λ e. record { at = λ c. tt })
    where
      go :
          (found : Option UpstreamGroupConfig)
          → find_group m.groups name ≡ found
          → Ensures Always AnyPython (
              if has_group m name
              then ask_group m sch on_result run s name
              else ask_resolver m sch on_result name)
      go none e =
          subst
            (λ b. Ensures Always AnyPython (
              if b
              then ask_group m sch on_result run s name
              else ask_resolver m sch on_result name))
            (sym (has_group-eq name none e)) (ask_resolver-Settles name r)
      go (some g) e =
          subst
            (λ b. Ensures Always AnyPython (
              if b
              then ask_group m sch on_result run s name
              else ask_resolver m sch on_result name))
            (sym (has_group-eq name (some g) e)) (ask_group-Settles run s name g o e (h g e))

  -- A resolver's name needs no fuel; a group's needs more than its rank.
  abbrev Fueled : (String → ℕ) → ℕ → String → Type 0
  Fueled height fuel t = has_group m t ≡ true → height t < fuel

  pub dispatch_target-Settles :
      (height : String → ℕ) (fuel : ℕ) (s : DispatchStrategyType) (name : String)
      → IsOrder sch
      → Resolves m
      → Falls m height
      → Fueled height fuel name
      → Settles (dispatch_target m sch on_result (suc fuel) s name)
  unfolding dispatch_target
  dispatch_target-Settles height zero s name o r f h =
      target_step-Settles (dispatch_target m sch on_result zero s) s name o r
        (λ g e. absurd (omega (arith, h (has_group-eq name (some g) e))))
  dispatch_target-Settles height (suc fuel) s name o r f h =
      target_step-Settles (dispatch_target m sch on_result (suc fuel) s) s name o r (λ g e.
        All-intro (RunSettles (dispatch_target m sch on_result (suc fuel) s)) g.upstreams (λ t n.
          dispatch_target-Settles height fuel s t o r f
            (λ k. omega (arith, f name t g e n k, h (has_group-eq name (some g) e)))))
