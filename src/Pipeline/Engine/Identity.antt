-- ===== src/Pipeline/Engine/Identity.antt =====
-- dns_forwarder/pipeline/engine.py: the identifier of what `handle_message` returns.
use python_smartdns.Prelude.{
  [], String, Bool-cases, Option, none, some, ◌≡◌, refl, inl, inr, if◌then◌else◌,
}
use python_smartdns.Outcome.{Exn, cancelled, out_of_fuel, Outcome, done, raised}
use python_smartdns.Exec.{pure, raise, lift, modify, ◌>>=◌, ◌>>◌}
use python_smartdns.Exec.Ensures.{
  Post, Always, Whatever, Ensures-trivial, Ensures-lift, Ensures, Ensures-bind,
}
use python_smartdns.Dns.{Message, servfail}
use python_smartdns.Pipeline.Context.{RequestContext}
use python_smartdns.Pipeline.Messages.{make_error_response, clone_response_for_request}
use python_smartdns.Pipeline.Engine.Identifiers.{
  HasId, AnswersId, make_error_response-id, clone_response_for_request-id, validate-id,
  set_error_reply-id,
}
use python_smartdns.Pipeline.Engine.{
  Engine, validate_request_or_error, build_context, run_request_phase, run_response_phase,
  finalize_context, observe_context, finish_context, set_error_reply, report, final_reply, respond,
  process, rescue, finally_finish, run_pipeline, answer_valid, handle_message,
}

module _ (e : Engine) (request : Message) where
  replied :
      (r : Outcome Message)
      → ((a : Message) → r ≡ done a → HasId request a)
      → Ensures {S = RequestContext}
          (AnswersId request)
          Whatever
          (do reply ← lift r; pure (some reply))
  replied r h =
      Ensures-bind (HasId request) (AnswersId request) Whatever (lift r)
        (λ reply. pure (some reply)) (Ensures-lift (HasId request) r h)
        (λ reply k. record { at = λ s. k })

  reply_of :
      (found : Option Message) (c : RequestContext)
      → Post
          (AnswersId request)
          Whatever
          ((do
            reply ← lift (elim found [
              | none ↦ make_error_response e.dns request servfail
              | some response ↦ clone_response_for_request e.dns response request
            ])
            pure (some reply))
            c).0
  reply_of none c =
      (replied (make_error_response e.dns request servfail)
          (make_error_response-id e request servfail)).at
        c
  reply_of (some response) c =
      (replied (clone_response_for_request e.dns response request)
          (clone_response_for_request-id e request response)).at
        c

  final_reply-id : Ensures (AnswersId request) Whatever (final_reply e request)
  unfolding final_reply
  final_reply-id = record { at = λ s. reply_of s.final_response s }

  respond-id : Ensures (AnswersId request) Whatever (respond e request)
  respond-id =
      Ensures-bind Always (AnswersId request) Whatever (run_response_phase e)
        (λ dropped.
          if dropped
          then pure none
          else (do finalize_context e; observe_context e; final_reply e request))
        (Ensures-trivial (run_response_phase e))
        (λ dropped _. elim (Bool-cases dropped) [
          | inl b ↦ rw b (record { at = λ s. tt })
          | inr b ↦ rw b (
              Ensures-bind Always (AnswersId request) Whatever (finalize_context e)
                (λ _. do observe_context e; final_reply e request)
                (Ensures-trivial (finalize_context e))
                (λ _ _.
                  Ensures-bind Always (AnswersId request) Whatever (observe_context e)
                    (λ _. final_reply e request) (Ensures-trivial (observe_context e))
                    (λ _ _. final_reply-id)))
        ])

  process-id : Ensures (AnswersId request) Whatever (process e request)
  unfolding process
  process-id =
      Ensures-bind Always (AnswersId request) Whatever (run_request_phase e)
        (λ dropped. if dropped then pure none else respond e request)
        (Ensures-trivial (run_request_phase e))
        (λ dropped _. elim (Bool-cases dropped) [
          | inl b ↦ rw b (record { at = λ s. tt })
          | inr b ↦ rw b respond-id
        ])

  report-id : (exc : Exn) → Ensures (AnswersId request) Whatever (report e request exc)
  report-id exc =
      Ensures-bind Always (AnswersId request) Whatever
        (modify (λ s. record s { pipeline_error = some exc }))
        (λ _. do response ← set_error_reply e request; pure (some response))
        (record { at = λ s. tt })
        (λ _ _.
          Ensures-bind (HasId request) (AnswersId request) Whatever (set_error_reply e request)
            (λ response. pure (some response)) (set_error_reply-id e request)
            (λ response h. record { at = λ s. h }))

  rescue-id :
      (r : Outcome (Option Message))
      → Post (AnswersId request) Whatever r
      → Ensures (AnswersId request) Whatever (rescue e request r)
  unfolding rescue
  rescue-id (done reply) h = record { at = λ s. h }
  rescue-id (raised cancelled) h =
      Ensures-bind (HasId request) (AnswersId request) Whatever (set_error_reply e request)
        (λ _. raise cancelled) (set_error_reply-id e request) (λ _ _. record { at = λ s. tt })
  rescue-id (raised out_of_fuel) h = record { at = λ s. tt }
  rescue-id (raised exc) h = report-id exc

  finally_finish-id :
      (r : Outcome (Option Message))
      → Post (AnswersId request) Whatever r
      → Ensures (AnswersId request) Whatever (finally_finish e r)
  unfolding finally_finish
  finally_finish-id r h =
      Ensures-bind Always (AnswersId request) Whatever (finish_context e) (λ _. lift r)
        (Ensures-trivial (finish_context e)) (λ _ _. record { at = λ s. h })

  run_pipeline-id : Ensures (AnswersId request) Whatever (run_pipeline e request)
  unfolding run_pipeline
  run_pipeline-id = record {
    at = λ c.
        (finally_finish-id (rescue e request (process e request c).0 (process e request c).1).0
            ((rescue-id (process e request c).0 (process-id.at c)).at (process e request c).1)).at
          (rescue e request (process e request c).0 (process e request c).1).1;
  }

-- What `handle_message` returns has the identifier of the request, on every branch, the error
-- branches included, whatever the plugins, the resolvers and the schedule of the tasks do.
pub handle_message-id :
    (e : Engine) (request : Message) (clientaddr listener_name : String) (reply : Message)
    → (handle_message e request clientaddr listener_name).0 ≡ done (some reply)
    → reply.id ≡ request.id
unfolding handle_message
handle_message-id e request clientaddr listener_name reply h =
    go (validate_request_or_error e request) refl h
  where
    answered :
        (r : Outcome (Option Message))
        → Post (AnswersId request) Whatever r
        → r ≡ done (some reply)
        → reply.id ≡ request.id
    answered (done (some m)) p k = cc (p, k)
    answered (done none) p k = absurd (cc k)
    answered (raised x) p k = absurd (cc k)

    go :
        (v : Outcome (Option Message))
        → validate_request_or_error e request ≡ v
        → (answer_valid e request clientaddr listener_name v).0 ≡ done (some reply)
        → reply.id ≡ request.id
    go (raised x) k l = absurd (cc l)
    go (done (some m)) k l = validate-id e request reply (cc (k, l))
    go (done none) k l =
        answered (run_pipeline e request (build_context request clientaddr listener_name [])).0
          ((run_pipeline-id e request).at (build_context request clientaddr listener_name [])) l
