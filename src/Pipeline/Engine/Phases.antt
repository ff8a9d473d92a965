-- ===== src/Pipeline/Engine/Phases.antt =====
-- dns_forwarder/pipeline/engine.py: that its phases end.
use python_smartdns.Prelude.{not, ◌&&◌, ◌||◌, true, false, Option, none, some, All, if◌then◌else◌}
use python_smartdns.Outcome.{Exn, cancelled, nxdomain, Outcome, done, raised}
use python_smartdns.Exec.{pure, lift, get, modify, try_except, ◌>>=◌, ◌>>◌}
use python_smartdns.Dns.{Answer, nxdomain_code}
use python_smartdns.Pipeline.Context.{UpstreamResult, RequestContext, Notify}
use python_smartdns.Pipeline.Messages.{make_error_response}
use python_smartdns.Pipeline.Engine.Replies.{make_error_response-Returns}
use python_smartdns.Pipeline.Engine.Ends.{
  Ends, Returns, IsPython, IsDnspython, Ends-bind, Ends-if, tried, Settles-Ends,
  ordered_plugins-All, request_loop-Ends, response_loop-Ends, observe_loop-Ends,
  manager_on_finish-Ends,
}
use python_smartdns.Plugins.{
  ordered_plugins, manager_on_request, manager_on_response, manager_on_observe, manager_on_finish,
  manager_on_upstream_response,
}
use python_smartdns.Dispatcher.Endings.{Settles}
use python_smartdns.Pipeline.Engine.{
  Engine, is_none, dispatch_context, close_tasks, take_answer, take_result, ask_upstream,
  run_request_phase, run_response_phase, observe_context, finish_context,
}

module _ (e : Engine) (d : IsDnspython e.dns) (plugins : All IsPython e.plugins)
    (asks : (on_result : Notify) → Ends (dispatch_context e on_result)) where
  close_tasks-Ends : Ends (close_tasks e)
  unfolding close_tasks
  close_tasks-Ends = record { at = λ s. go s s.task_error }
    where
      go :
          (s : RequestContext) (t : Option Exn)
          → Returns
              (elim t as (λ _. Outcome (Unit {0}) × RequestContext) [
                | none ↦ (done tt, s)
                | some cancelled ↦ (raised cancelled, s)
                | some _ ↦ (raised (Exn.runtime_error "ExceptionGroup"), s)
              ]).0
      go s none = tt
      go s (some cancelled) = tt
      go s (some x) = tt

  take_answer-Ends : (x : Option Exn) (a : Option Answer) → Ends (take_answer e x a)
  unfolding take_answer
  take_answer-Ends x (some a) = record { at = λ s. tt }
  take_answer-Ends (some nxdomain) none = record {
    at = λ s.
        (Ends-bind (lift (make_error_response e.dns s.request nxdomain_code))
            (λ response. modify (λ s. record s { final_response = some response }))
            (record { at = λ _. make_error_response-Returns e d s.request nxdomain_code })
            (λ response. record { at = λ _. tt })).at
          s;
  }
  take_answer-Ends _ none = record { at = λ s. tt }

  take_result-Ends : (result : UpstreamResult) → Ends (take_result e result)
  unfolding take_result
  take_result-Ends result = record {
    at = λ s.
        (Ends-if (is_none s.final_answer && is_none s.final_response)
            (take_answer e result.error result.answer) (pure tt)
            (take_answer-Ends result.error result.answer) (record { at = λ _. tt })).at
          s;
  }

  pub ask_upstream-Ends : Ends (ask_upstream e)
  ask_upstream-Ends =
      Ends-bind (dispatch_context e (manager_on_upstream_response e.plugins))
        (λ result. do close_tasks e; take_result e result; pure false)
        (asks (manager_on_upstream_response e.plugins))
        (λ result.
          Ends-bind (close_tasks e) (λ _. do take_result e result; pure false) close_tasks-Ends
            (λ _.
              Ends-bind (take_result e result) (λ _. pure false) (take_result-Ends result)
                (λ _. record { at = λ s. tt })))

  manager_on_request-Ends : Ends (manager_on_request e.plugins)
  unfolding manager_on_request
  manager_on_request-Ends =
      request_loop-Ends (ordered_plugins (λ p. p.request_order) e.plugins)
        (ordered_plugins-All (λ p. p.request_order) e.plugins plugins)

  pub run_request_phase-Ends : Ends (run_request_phase e)
  unfolding run_request_phase
  run_request_phase-Ends =
      Ends-bind (manager_on_request e.plugins)
        (λ _. do
          c ← get
          if c.drop_request
              then pure true
              else if c.stop_processing
                  || not (is_none c.final_answer)
                  || not (is_none c.final_response)
              then pure false
              else ask_upstream e)
        manager_on_request-Ends
        (λ _. record {
          at = λ c.
              (Ends-if c.drop_request (pure true)
                  (if c.stop_processing
                      || not (is_none c.final_answer)
                      || not (is_none c.final_response)
                    then pure false
                    else ask_upstream e)
                  (record { at = λ _. tt })
                  (Ends-if
                    (c.stop_processing
                      || not (is_none c.final_answer)
                      || not (is_none c.final_response))
                    (pure false) (ask_upstream e) (record { at = λ _. tt }) ask_upstream-Ends)).at
                c;
        })

  manager_on_response-Ends : Ends (manager_on_response e.plugins)
  unfolding manager_on_response
  manager_on_response-Ends =
      response_loop-Ends (ordered_plugins (λ p. p.response_order) e.plugins)
        (ordered_plugins-All (λ p. p.response_order) e.plugins plugins)

  pub run_response_phase-Ends : Ends (run_response_phase e)
  unfolding run_response_phase
  run_response_phase-Ends = record {
    at = λ c.
        (Ends-if c.stop_processing (pure false)
            (do manager_on_response e.plugins; s ← get; pure s.drop_request)
            (record { at = λ _. tt })
            (Ends-bind (manager_on_response e.plugins) (λ _. do s ← get; pure s.drop_request)
              manager_on_response-Ends (λ _. record { at = λ _. tt }))).at
          c;
  }

  pub observe_context-Ends : Ends (observe_context e)
  unfolding observe_context manager_on_observe
  observe_context-Ends = Settles-Ends (try_except (manager_on_observe e.plugins) (λ exc. pure tt)) (
      tried (manager_on_observe e.plugins) (
        observe_loop-Ends (ordered_plugins (λ p. p.observe_order) e.plugins)
          (ordered_plugins-All (λ p. p.observe_order) e.plugins plugins)))

  pub finish_context-Settles : Settles (finish_context e)
  unfolding finish_context
  finish_context-Settles =
      tried (manager_on_finish e.plugins) (manager_on_finish-Ends e.plugins plugins)
