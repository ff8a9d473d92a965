-- ===== src/Plugins/Runs.antt =====
-- dns_forwarder/plugin_api/base.py: the runs of the plugins' hooks by the manager.
use python_smartdns.Prelude.{
  Bool, true, false, ◌||◌, Bool-cases, List, [], ◌∷◌, ◌++◌, ◌≡◌, refl, inl, inr, if◌then◌else◌,
}
use python_smartdns.Outcome.{Exn, Outcome, done, raised}
use python_smartdns.Exec.{pure, continue, ◌>>=◌}
use python_smartdns.Pipeline.Context.{UpstreamResult, RequestContext}
use python_smartdns.Plugins.{
  Plugin, Hook, request_loop, response_loop, observe_loop, upstream_loop, upstream_next, keep_first,
  ordered_plugins, manager_on_request, manager_on_response, manager_on_observe,
  manager_on_upstream_response,
}
use python_smartdns.Plugins.Order.{Follows, ordered_plugins-Follows}

-- A run of one hook of each plugin of a list, up to the plugin that raises, or after which the
-- context says to stop.
pub data Runs (stops : RequestContext → Bool) (hook : Plugin → Hook)
    : List Plugin → RequestContext → Outcome (Unit {0}) × RequestContext → Type 0 where
  ended : (c : RequestContext) → Runs stops hook [] c (done tt, c)
  raises :
      (p : Plugin) (ps : List Plugin) (c d : RequestContext) (e : Exn)
      → hook p c ≡ (raised e, d)
      → Runs stops hook (p ∷ ps) c (raised e, d)
  stopped :
      (p : Plugin) (ps : List Plugin) (c d : RequestContext)
      → hook p c ≡ (done tt, d)
      → stops d ≡ true
      → Runs stops hook (p ∷ ps) c (done tt, d)
  goes_on :
      (p : Plugin) (ps : List Plugin) (c d : RequestContext)
      (out : Outcome (Unit {0}) × RequestContext)
      → hook p c ≡ (done tt, d)
      → stops d ≡ false
      → Runs stops hook ps d out
      → Runs stops hook (p ∷ ps) c out

-- What the plugins of a list make of a result, up to the one that raises; its exception is the task
-- group's, unless that has one.
pub data Hears
    : List Plugin → UpstreamResult → RequestContext → UpstreamResult × RequestContext → Type 0 where
  heard : (r : UpstreamResult) (c : RequestContext) → Hears [] r c (r, c)
  hears_on :
      (p : Plugin) (ps : List Plugin) (r t : UpstreamResult) (c d : RequestContext)
      (out : UpstreamResult × RequestContext)
      → p.on_upstream_response r c ≡ (done tt, t, d)
      → Hears ps t d out
      → Hears (p ∷ ps) r c out
  fails_with :
      (p : Plugin) (ps : List Plugin) (r t : UpstreamResult) (c d : RequestContext) (e : Exn)
      → p.on_upstream_response r c ≡ (raised e, t, d)
      → Hears (p ∷ ps) r c (t, record d { task_error = keep_first d.task_error e })

-- `context.drop_request or context.stop_processing`
abbrev pub is_over : RequestContext → Bool
is_over c = c.drop_request || c.stop_processing

abbrev pub never : RequestContext → Bool
never c = false

-- The name of the plugin goes into the context's `plugin_order`, then its `on_request` runs.
abbrev pub named_request : Plugin → Hook
named_request p c = p.on_request (record c { plugin_order = c.plugin_order ++ p.name ∷ [] })

Runs-step :
    (stops : RequestContext → Bool) (hook : Plugin → Hook) (p : Plugin) (ps : List Plugin)
    (rest : Hook) (c : RequestContext)
    → ((d : RequestContext) → Runs stops hook ps d (rest d))
    → Runs stops hook (p ∷ ps) c ((hook p >>= λ _ d. if stops d then pure tt d else rest d) c)
Runs-step stops hook p ps rest c h = go (hook p c) refl
  where
    go :
        (r : Outcome (Unit {0}) × RequestContext)
        → hook p c ≡ r
        → Runs stops hook
            (p ∷ ps)
            c
            (continue r.0 (λ _ d. if stops d then pure tt d else rest d) r.1)
    go (raised e, d) k = raises p ps c d e k
    go (done tt, d) k = elim (Bool-cases (stops d)) [
      | inl b ↦ rw b (stopped p ps c d k b)
      | inr b ↦ rw b (goes_on p ps c d (rest d) k b (h d))
    ]

request_loop-Runs :
    (ps : List Plugin) (c : RequestContext) → Runs is_over named_request ps c (request_loop ps c)
unfolding request_loop
request_loop-Runs [] c = ended c
request_loop-Runs (p ∷ ps) c =
    Runs-step is_over named_request p ps (request_loop ps) c (request_loop-Runs ps)

response_loop-Runs :
    (ps : List Plugin) (c : RequestContext)
    → Runs is_over (λ p. p.on_response) ps c (response_loop ps c)
unfolding response_loop
response_loop-Runs [] c = ended c
response_loop-Runs (p ∷ ps) c =
    Runs-step is_over (λ p. p.on_response) p ps (response_loop ps) c (response_loop-Runs ps)

observe_loop-Runs :
    (ps : List Plugin) (c : RequestContext)
    → Runs never (λ p. p.on_observe) ps c (observe_loop ps c)
unfolding observe_loop
observe_loop-Runs [] c = ended c
observe_loop-Runs (p ∷ ps) c =
    Runs-step never (λ p. p.on_observe) p ps (observe_loop ps) c (observe_loop-Runs ps)

upstream_next-Hears :
    (p : Plugin) (ps : List Plugin) (r : UpstreamResult) (c : RequestContext)
    (x : Outcome (Unit {0}) × UpstreamResult × RequestContext)
    → p.on_upstream_response r c ≡ x
    → ((t : UpstreamResult) (d : RequestContext) → Hears ps t d (upstream_loop ps t d))
    → Hears (p ∷ ps) r c (upstream_next (upstream_loop ps) x)
upstream_next-Hears p ps r c (done u, t, d) k h =
    hears_on p ps r t c d (upstream_loop ps t d) k (h t d)
upstream_next-Hears p ps r c (raised e, t, d) k h = fails_with p ps r t c d e k

upstream_loop-Hears :
    (ps : List Plugin) (r : UpstreamResult) (c : RequestContext)
    → Hears ps r c (upstream_loop ps r c)
unfolding upstream_loop
upstream_loop-Hears [] r c = heard r c
upstream_loop-Hears (p ∷ ps) r c =
    upstream_next-Hears p ps r c (p.on_upstream_response r c) refl (upstream_loop-Hears ps)

-- The manager runs each kind of hook over the plugins by that kind's order, ascending, those of one
-- order as they were loaded, none lost and none doubled. `on_request` and `on_response` end after the
-- plugin that raises or that says to drop or to stop, `on_observe` and `on_upstream_response` after
-- the one that raises, and before each `on_request` the plugin's name is written down.
pub managers-Runs :
    (ps : List Plugin) (c : RequestContext) (r : UpstreamResult)
    → ((qs : List Plugin) × Follows (λ p. p.request_order) ps qs
        × Runs is_over named_request qs c (manager_on_request ps c))
      × ((qs : List Plugin) × Follows (λ p. p.response_order) ps qs
          × Runs is_over (λ p. p.on_response) qs c (manager_on_response ps c))
      × ((qs : List Plugin) × Follows (λ p. p.observe_order) ps qs
          × Runs never (λ p. p.on_observe) qs c (manager_on_observe ps c))
      × (qs : List Plugin) × Follows (λ p. p.upstream_response_order) ps qs
      × Hears qs r c (manager_on_upstream_response ps r c)
unfolding manager_on_request manager_on_response manager_on_observe manager_on_upstream_response
managers-Runs ps c r = (
  (
    ordered_plugins (λ p. p.request_order) ps,
    ordered_plugins-Follows (λ p. p.request_order) ps,
    request_loop-Runs (ordered_plugins (λ p. p.request_order) ps) c,
  ),
  (
    ordered_plugins (λ p. p.response_order) ps,
    ordered_plugins-Follows (λ p. p.response_order) ps,
    response_loop-Runs (ordered_plugins (λ p. p.response_order) ps) c,
  ),
  (
    ordered_plugins (λ p. p.observe_order) ps,
    ordered_plugins-Follows (λ p. p.observe_order) ps,
    observe_loop-Runs (ordered_plugins (λ p. p.observe_order) ps) c,
  ),
  ordered_plugins (λ p. p.upstream_response_order) ps,
  ordered_plugins-Follows (λ p. p.upstream_response_order) ps,
  upstream_loop-Hears (ordered_plugins (λ p. p.upstream_response_order) ps) r c,
)
