-- ===== src/Pipeline/Engine/Settles.antt =====
-- dns_forwarder/pipeline/engine.py: that `handle_message` comes to an end, with its `except` clauses.
use python_smartdns.Prelude.{Option, none, some, All, ◌≡◌, refl, if◌then◌else◌}
use python_smartdns.Outcome.{Exn, cancelled, out_of_fuel, Outcome, done, raised}
use python_smartdns.Exec.{Exec, pure, lift, get, modify, ◌>>=◌, ◌>>◌}
use python_smartdns.Exec.Ensures.{Post, Always, OnlyCancelled, Ensures-bind}
use python_smartdns.Dns.{Question, Message, Answer, servfail}
use python_smartdns.Pipeline.Context.{RequestContext, Notify}
use python_smartdns.Pipeline.Messages.{
  make_error_response, clone_response_for_request, first_question, build_answer_from_response,
  sync_answer_response,
}
use python_smartdns.Pipeline.Engine.Replies.{
  make_error_response-Returns, clone_response_for_request-Returns,
  build_answer_from_response-Returns, sync_answer_response-Returns, failure,
  make_error_response-done, build_answer_from_response-done,
}
use python_smartdns.Pipeline.Engine.Phases.{
  run_request_phase-Ends, run_response_phase-Ends, observe_context-Ends, finish_context-Settles,
}
use python_smartdns.Pipeline.Engine.Ends.{
  Ends, Returns, IsPython, IsDnspython, Responds, Ends-bind, Ends-if,
}
use python_smartdns.Dispatcher.Endings.{Settles}
use python_smartdns.Pipeline.Engine.{
  Engine, dispatch_context, run_request_phase, run_response_phase, respond_from, finalize_context,
  observe_context, finish_context, keep_response, set_error_reply, final_reply, respond, process,
  report, rescue, finally_finish, run_pipeline,
}

module _ (e : Engine) (d : IsDnspython e.dns) where
  respond_from-Ends : (a : Answer) → Ends (respond_from e a)
  respond_from-Ends a =
      Ends-bind (lift (sync_answer_response e.dns a))
        (λ synced. do
          modify (λ s. record s { final_answer = some synced })
          c ← get
          response ← lift (clone_response_for_request e.dns synced.response c.request)
          modify (λ s. record s { final_response = some response }))
        (record { at = λ _. sync_answer_response-Returns e d a })
        (λ synced. record {
          at = λ s.
              (Ends-bind (lift (clone_response_for_request e.dns synced.response s.request))
                  (λ response. modify (λ t. record t { final_response = some response }))
                  (record {
                    at = λ _. clone_response_for_request-Returns e d synced.response s.request;
                  })
                  (λ response. record { at = λ _. tt })).at
                (record s { final_answer = some synced });
        })

  keep_answer-Ends :
      (request response : Message)
      → Ends (do
        a ← lift (build_answer_from_response e.dns request response)
        modify (λ s. record s { final_answer = some a }))
  keep_answer-Ends request response =
      Ends-bind (lift (build_answer_from_response e.dns request response))
        (λ a. modify (λ s. record s { final_answer = some a }))
        (record { at = λ _. build_answer_from_response-Returns e d request response })
        (λ a. record { at = λ _. tt })

  keep_response-Ends : (request response : Message) → Ends (keep_response e request response)
  keep_response-Ends request response = record {
    at = λ s.
        (Ends-bind (lift (build_answer_from_response e.dns request response))
            (λ a. do modify (λ s. record s { final_answer = some a }); pure response)
            (record { at = λ _. build_answer_from_response-Returns e d request response })
            (λ a. record { at = λ _. tt })).at
          (record s { final_response = some response });
  }

  set_error_reply-Ends : (request : Message) → Ends (set_error_reply e request)
  set_error_reply-Ends request =
      Ends-bind (lift (make_error_response e.dns request servfail)) (keep_response e request)
        (record { at = λ _. make_error_response-Returns e d request servfail })
        (keep_response-Ends request)

  finalize_context-Ends : Ends (finalize_context e)
  unfolding finalize_context
  finalize_context-Ends = record { at = λ s. answered s s.final_answer }
    where
      responded :
          (s : RequestContext) (found : Option Message)
          → Returns
              ((elim found as (λ _. Exec RequestContext (Unit {0})) [
                | some response ↦ do
                  answer ← lift (build_answer_from_response e.dns s.request response)
                  modify (λ t. record t { final_answer = some answer })
                | none ↦ do _ ← set_error_reply e s.request; pure tt
              ])
                s).0
      responded s (some response) = (keep_answer-Ends s.request response).at s
      responded s none =
          (Ends-bind (set_error_reply e s.request) (λ _. pure tt) (set_error_reply-Ends s.request)
              (λ _. record { at = λ _. tt })).at
            s

      answered :
          (s : RequestContext) (found : Option Answer)
          → Returns
              ((elim found as (λ _. Exec RequestContext (Unit {0})) [
                | some answer ↦ respond_from e answer
                | none ↦ elim s.final_response [
                  | some response ↦ do
                    answer ← lift (build_answer_from_response e.dns s.request response)
                    modify (λ t. record t { final_answer = some answer })
                  | none ↦ do _ ← set_error_reply e s.request; pure tt
                ]
              ])
                s).0
      answered s (some a) = (respond_from-Ends a).at s
      answered s none = responded s s.final_response

  final_reply-Ends : (request : Message) → Ends (final_reply e request)
  unfolding final_reply
  final_reply-Ends request = record {
    at = λ s.
        (Ends-bind (lift (reply s.final_response)) (λ m. pure (some m))
            (record { at = λ _. replied s.final_response }) (λ m. record { at = λ _. tt })).at
          s;
  }
    where
      reply : Option Message → Outcome Message
      reply found = elim found [
        | none ↦ make_error_response e.dns request servfail
        | some response ↦ clone_response_for_request e.dns response request
      ]

      replied : (found : Option Message) → Returns (reply found)
      replied none = make_error_response-Returns e d request servfail
      replied (some m) = clone_response_for_request-Returns e d m request

module _ (e : Engine) (d : IsDnspython e.dns) (plugins : All IsPython e.plugins)
    (asks : (on_result : Notify) → Ends (dispatch_context e on_result)) (request : Message) where
  respond-Ends : Ends (respond e request)
  respond-Ends =
      Ends-bind (run_response_phase e)
        (λ dropped.
          if dropped
          then pure none
          else (do finalize_context e; observe_context e; final_reply e request))
        (run_response_phase-Ends e d plugins asks)
        (λ dropped.
          Ends-if dropped (pure none)
            (do finalize_context e; observe_context e; final_reply e request)
            (record { at = λ _. tt })
            (Ends-bind (finalize_context e) (λ _. do observe_context e; final_reply e request)
              (finalize_context-Ends e d)
              (λ _.
                Ends-bind (observe_context e) (λ _. final_reply e request)
                  (observe_context-Ends e d plugins asks) (λ _. final_reply-Ends e d request))))

  process-Ends : Ends (process e request)
  unfolding process
  process-Ends =
      Ends-bind (run_request_phase e) (λ dropped. if dropped then pure none else respond e request)
        (run_request_phase-Ends e d plugins asks)
        (λ dropped.
          Ends-if dropped (pure none) (respond e request) (record { at = λ _. tt }) respond-Ends)

  module _ (r : Responds e.dns request) (q : Question)
      (asked : first_question request ≡ done q) where
    set_error_reply-done :
        (s : RequestContext)
        → (t : RequestContext) × (set_error_reply e request s ≡ (done (failure e.dns request r), t))
    set_error_reply-done s =
        let (a, built) = build_answer_from_response-done e.dns request r q asked in
        (
          record s { final_response = some (failure e.dns request r); final_answer = some a },
          rw (make_error_response-done e.dns request r servfail, built) refl,
        )

    report-Settles : (exc : Exn) → Settles (report e request exc)
    report-Settles exc = record {
      at = λ s.
          let (t, k) = set_error_reply-done (record s { pipeline_error = some exc }) in rw k tt;
    }

    rescue-Settles : (o : Outcome (Option Message)) → Returns o → Settles (rescue e request o)
    unfolding rescue
    rescue-Settles (done reply) h = record { at = λ s. tt }
    rescue-Settles (raised cancelled) h = record {
      at = λ s. let (t, k) = set_error_reply-done s in rw k tt;
    }
    rescue-Settles (raised out_of_fuel) h = absurd h
    rescue-Settles (raised exc) h = report-Settles exc

    finally_finish-Settles :
        (o : Outcome (Option Message)) → Post Always OnlyCancelled o → Settles (finally_finish e o)
    unfolding finally_finish
    finally_finish-Settles o h =
        Ensures-bind Always Always OnlyCancelled (finish_context e) (λ _. lift o)
          (finish_context-Settles e d plugins asks) (λ _ _. record { at = λ s. h })

    pub run_pipeline-Settles : Settles (run_pipeline e request)
    unfolding run_pipeline
    run_pipeline-Settles = record {
      at = λ c.
          (finally_finish-Settles
              (rescue e request (process e request c).0 (process e request c).1).0
              ((rescue-Settles (process e request c).0 (process-Ends.at c)).at
                (process e request c).1)).at
            (rescue e request (process e request c).0 (process e request c).1).1;
    }
