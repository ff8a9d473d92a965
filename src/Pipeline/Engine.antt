-- ===== src/Pipeline/Engine.antt =====
-- dns_forwarder/pipeline/engine.py: the phases of a request, and `handle_message`.
pub mod Identifiers
pub mod Identity
pub mod Ends
pub mod Replies
pub mod Phases
pub mod Settles
pub mod Validation
pub mod Final
pub mod Totality
use python_smartdns.Prelude.{
  ℕ, suc, String, Bool, true, false, not, ◌&&◌, ◌||◌, ◌==◌, leb, Option, none, some, List, [], ◌∷◌,
  ◌++◌, length, str_eq, any, if◌then◌else◌,
}
use python_smartdns.Outcome.{
  Exn, cancelled, out_of_fuel, nxdomain, recursion_error, runtime_error, Outcome, done, raised,
}
use python_smartdns.Exec.{Exec, pure, raise, lift, get, modify, try_except, ◌>>=◌, ◌>>◌}
use python_smartdns.Config.Model.{
  DispatchStrategyType, race, wait_all, UpstreamGroupConfig, RuleConfig,
}
use python_smartdns.Rules.{RuleSelection, select}
use python_smartdns.Dns.{
  Question, Message, Answer, Dnspython, opcode_query, class_in, formerr, servfail, nxdomain_code,
}
use python_smartdns.Pipeline.Context.{UpstreamResult, RequestContext, Notify, silent}
use python_smartdns.Pipeline.Messages.{
  make_error_response, clone_response_for_request, first_question, build_answer_from_response,
  sync_answer_response,
}
use python_smartdns.Dispatcher.Registry.{
  ResolverManager, get_group, Schedule, dispatch_group, dispatch_target,
}
use python_smartdns.Plugins.{
  Plugin, manager_on_request, manager_on_upstream_response, manager_on_response, manager_on_observe,
  manager_on_finish,
}
pub use python_smartdns.Pipeline.Requests.{
  Engine, max_nested_resolve_depth, strategy_name, is_none, as_reply, formerr_reply, check_class,
  or_strategy, dispatch_depth, ask_selected, dispatch_selected,
}
unfoldable pub use python_smartdns.Pipeline.Requests.{
  validate_request_or_error, build_context, dispatch_context,
}

module _ (e : Engine) where
  -- The task group's `__aexit__`: what a callback raised comes out as an exception group, and the
  -- cancellation of the request as itself.
  unfoldable pub close_tasks : Exec RequestContext (Unit {0})
  close_tasks c = elim c.task_error [
    | none ↦ (done tt, c)
    | some cancelled ↦ (raised cancelled, c)
    | some _ ↦ (raised (runtime_error "ExceptionGroup"), c)
  ]

  unfoldable pub take_answer : Option Exn → Option Answer → Exec RequestContext (Unit {0})
  take_answer error (some answer) = modify (λ s. record s { final_answer = some answer })
  take_answer (some nxdomain) none = do
    c ← get
    response ← lift (make_error_response e.dns c.request nxdomain_code)
    modify (λ s. record s { final_response = some response })
  take_answer _ none = pure tt

  -- The end of `_run_request_phase`: a plugin's answer goes before the upstream's.
  unfoldable pub take_result : UpstreamResult → Exec RequestContext (Unit {0})
  take_result result = do
    c ← get
    if is_none c.final_answer && is_none c.final_response
        then take_answer result.error result.answer
        else pure tt

  abbrev pub ask_upstream : Exec RequestContext Bool
  ask_upstream = do
    result ← dispatch_context e (manager_on_upstream_response e.plugins)
    close_tasks
    take_result result
    pure false

  -- `_run_request_phase`: whether the request is dropped
  unfoldable pub run_request_phase : Exec RequestContext Bool
  run_request_phase = do
    manager_on_request e.plugins
    c ← get
    if c.drop_request
        then pure true
        else if c.stop_processing || not (is_none c.final_answer) || not (is_none c.final_response)
        then pure false
        else ask_upstream

  -- `_run_response_phase`
  unfoldable pub run_response_phase : Exec RequestContext Bool
  run_response_phase = do
    c ← get
    if c.stop_processing
        then pure false
        else (do manager_on_response e.plugins; s ← get; pure s.drop_request)

  -- The reply of an answer: `sync_answer_response`, then a clone of its response.
  abbrev pub respond_from : Answer → Exec RequestContext (Unit {0})
  respond_from answer = do
    synced ← lift (sync_answer_response e.dns answer)
    modify (λ s. record s { final_answer = some synced })
    c ← get
    response ← lift (clone_response_for_request e.dns synced.response c.request)
    modify (λ s. record s { final_response = some response })

  abbrev pub keep_response : Message → Message → Exec RequestContext Message
  keep_response request response = do
    modify (λ s. record s { final_response = some response })
    answer ← lift (build_answer_from_response e.dns request response)
    modify (λ s. record s { final_answer = some answer })
    pure response

  -- What both `except` clauses do, and `_finalize_context` where there is no answer
  abbrev pub set_error_reply : Message → Exec RequestContext Message
  set_error_reply request = do
    response ← lift (make_error_response e.dns request servfail)
    keep_response request response

  -- `_finalize_context`
  unfoldable pub finalize_context : Exec RequestContext (Unit {0})
  finalize_context = do
    c ← get
    elim c.final_answer [
      | some answer ↦ respond_from answer
      | none ↦ elim c.final_response [
        | some response ↦ do
          answer ← lift (build_answer_from_response e.dns c.request response)
          modify (λ s. record s { final_answer = some answer })
        | none ↦ do _ ← set_error_reply c.request; pure tt
      ]
    ]

  -- `_observe_context`
  unfoldable pub observe_context : Exec RequestContext (Unit {0})
  observe_context = try_except (manager_on_observe e.plugins) (λ exc. pure tt)

  -- `_finish_context`
  unfoldable pub finish_context : Exec RequestContext (Unit {0})
  finish_context = try_except (manager_on_finish e.plugins) (λ exc. pure tt)

  -- What `handle_message` returns at the end of its `try` block.
  unfoldable pub final_reply : Message → Exec RequestContext (Option Message)
  final_reply request = do
    c ← get
    reply ← lift (elim c.final_response [
      | none ↦ make_error_response e.dns request servfail
      | some response ↦ clone_response_for_request e.dns response request
    ])
    pure (some reply)

  abbrev pub respond : Message → Exec RequestContext (Option Message)
  respond request = do
    dropped ← run_response_phase
    if dropped then pure none else (do finalize_context; observe_context; final_reply request)

  -- The body of the `try` block
  unfoldable pub process : Message → Exec RequestContext (Option Message)
  process request = do dropped ← run_request_phase; if dropped then pure none else respond request

  -- `except Exception as exc`
  abbrev pub report : Message → Exn → Exec RequestContext (Option Message)
  report request exc = do
    modify (λ s. record s { pipeline_error = some exc })
    response ← set_error_reply request
    pure (some response)

  -- The two `except` clauses
  unfoldable pub rescue : Message → Outcome (Option Message) → Exec RequestContext (Option Message)
  rescue request (done reply) = pure reply
  rescue request (raised cancelled) = do _ ← set_error_reply request; raise cancelled
  rescue request (raised out_of_fuel) = raise out_of_fuel
  rescue request (raised exc) = report request exc

  -- `finally: await self._finish_context(context)`
  unfoldable pub finally_finish : Outcome (Option Message) → Exec RequestContext (Option Message)
  finally_finish r = do finish_context; lift r

  unfoldable pub run_pipeline : Message → Exec RequestContext (Option Message)
  run_pipeline request context =
      let (r, c) = process request context in
      let (r', c') = rescue request r c in finally_finish r' c'

  abbrev pub answer_valid :
      Message
      → String
      → String
      → Outcome (Option Message)
      → Outcome (Option Message) × Option RequestContext
  answer_valid request clientaddr listener_name (raised x) = (raised x, none)
  answer_valid request clientaddr listener_name (done (some error_response)) =
      (done (some error_response), none)
  answer_valid request clientaddr listener_name (done none) =
      let (r, c) = run_pipeline request (build_context request clientaddr listener_name []) in
      (r, some c)

  -- `handle_message`: the reply or the exception, and the context as it is left, if there was one
  unfoldable pub handle_message :
      Message → String → String → Outcome (Option Message) × Option RequestContext
  handle_message request clientaddr listener_name =
      answer_valid request clientaddr listener_name (validate_request_or_error e request)
