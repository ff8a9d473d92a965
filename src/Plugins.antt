-- ===== src/Plugins.antt =====
-- dns_forwarder/plugin_api/base.py: the plugins' hooks, and the manager that runs them.
pub mod Finish
pub mod Order
pub mod Registered
pub mod Registrations
pub mod Runs
use python_smartdns.Prelude.{
  ℕ, String, Bool, true, false, ◌||◌, Option, none, some, List, [], ◌∷◌, ◌++◌, if◌then◌else◌,
}
use python_smartdns.Prelude.Int.{ℤ, leb_ℤ}
use python_smartdns.Outcome.{Exn, Outcome, done, raised}
use python_smartdns.Exec.{Exec, pure, get, modify, try_except, ◌>>=◌, ◌>>◌}
use python_smartdns.Pipeline.Context.{UpstreamResult, RequestContext, Notify}

abbrev pub Hook : Type 0
Hook = Exec RequestContext (Unit {0})

-- `Plugin`: its name, its orders and its hooks, which are any coroutines on the context.
pub record Plugin : Type 0 where
  pub name : String
  pub request_order : ℤ
  pub upstream_response_order : ℤ
  pub response_order : ℤ
  pub observe_order : ℤ
  pub on_request : Hook
  pub on_upstream_response :
      UpstreamResult → RequestContext → Outcome (Unit {0}) × UpstreamResult × RequestContext
  pub on_response : Hook
  pub on_observe : Hook
  pub on_finish : Hook

-- `sorted`, which keeps the order of equals
unfoldable pub insert_by : (Plugin → ℤ) → Plugin → List Plugin → List Plugin
insert_by key p [] = p ∷ []
insert_by key p (q ∷ qs) = if leb_ℤ (key p) (key q) then p ∷ q ∷ qs else q ∷ insert_by key p qs

-- `_ordered_plugins`
unfoldable pub ordered_plugins : (Plugin → ℤ) → List Plugin → List Plugin
ordered_plugins key [] = []
ordered_plugins key (p ∷ ps) = insert_by key p (ordered_plugins key ps)

-- `if context.drop_request or context.stop_processing: break`
abbrev pub unless_stopped : Hook → Hook
unless_stopped rest c = if c.drop_request || c.stop_processing then pure tt c else rest c

-- The loop of `PluginManager.on_request`
unfoldable pub request_loop : List Plugin → Hook
request_loop [] = pure tt
request_loop (p ∷ ps) = do
  modify (λ c. record c { plugin_order = c.plugin_order ++ p.name ∷ [] })
  p.on_request
  unless_stopped (request_loop ps)

unfoldable pub manager_on_request : List Plugin → Hook
manager_on_request plugins = request_loop (ordered_plugins (λ p. p.request_order) plugins)

unfoldable pub response_loop : List Plugin → Hook
response_loop [] = pure tt
response_loop (p ∷ ps) = do p.on_response; unless_stopped (response_loop ps)

unfoldable pub manager_on_response : List Plugin → Hook
manager_on_response plugins = response_loop (ordered_plugins (λ p. p.response_order) plugins)

unfoldable pub observe_loop : List Plugin → Hook
observe_loop [] = pure tt
observe_loop (p ∷ ps) = do p.on_observe; observe_loop ps

unfoldable pub manager_on_observe : List Plugin → Hook
manager_on_observe plugins = observe_loop (ordered_plugins (λ p. p.observe_order) plugins)

-- `PluginManager.on_finish`, in the order of loading; one plugin's exception does not stop the next
unfoldable pub manager_on_finish : List Plugin → Hook
manager_on_finish [] = pure tt
manager_on_finish (p ∷ ps) = do try_except p.on_finish (λ exc. pure tt); manager_on_finish ps

abbrev pub keep_first : Option Exn → Exn → Option Exn
keep_first none e = some e
keep_first (some d) e = some d

abbrev pub upstream_next :
    Notify → Outcome (Unit {0}) × UpstreamResult × RequestContext → UpstreamResult × RequestContext
upstream_next rest (done _, result, c) = rest result c
upstream_next rest (raised e, result, c) =
    (result, record c { task_error = keep_first c.task_error e })

-- The loop of `PluginManager.on_upstream_response`, as the task that a result starts: an exception
-- ends the task and stays with the task group.
unfoldable pub upstream_loop : List Plugin → Notify
upstream_loop [] result c = (result, c)
upstream_loop (p ∷ ps) result c = upstream_next (upstream_loop ps) (p.on_upstream_response result c)

unfoldable pub manager_on_upstream_response : List Plugin → Notify
manager_on_upstream_response plugins =
    upstream_loop (ordered_plugins (λ p. p.upstream_response_order) plugins)
