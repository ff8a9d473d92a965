-- ===== src/Pipeline/Engine/Final.antt =====
-- dns_forwarder/pipeline/engine.py: the context after `_finalize_context`.
use python_smartdns.Prelude.{Option, none, some, ◌≡◌, refl, sym, subst}
use python_smartdns.Outcome.{Outcome, done, raised}
use python_smartdns.Exec.{Exec, pure, lift, get, modify, ◌>>=◌, ◌>>◌, >>=-eq-done}
use python_smartdns.Dns.{Message, Answer, servfail}
use python_smartdns.Pipeline.Context.{RequestContext}
use python_smartdns.Pipeline.Messages.{
  make_error_response, clone_response_for_request, build_answer_from_response, sync_answer_response,
}
use python_smartdns.Pipeline.Engine.{
  Engine, keep_response, set_error_reply, respond_from, finalize_context,
}

-- A context that has both an answer and a response.
pub record IsFinal (c : RequestContext) : Type 0 where
  pub answer : Answer
  pub has_answer : c.final_answer ≡ some answer
  pub response : Message
  pub has_response : c.final_response ≡ some response

module _ (e : Engine) where
  respond_from-IsFinal :
      (a : Answer) (s t : RequestContext) → respond_from e a s ≡ (done (tt {0}), t) → IsFinal t
  respond_from-IsFinal a s t h = go (sync_answer_response e.dns a) h
    where
      end :
          (synced : Answer) (r : Outcome Message)
          → ((do response ← lift r; modify (λ c. record c { final_response = some response }))
              (record s { final_answer = some synced }))
            ≡ (done (tt {0}), t)
          → IsFinal t
      end synced (done m) k =
          let left : record s { final_answer = some synced; final_response = some m } ≡ t = cc k in
          record {
            answer = synced;
            has_answer = cc (sym left);
            response = m;
            has_response = cc (sym left);
          }
      end synced (raised x) k = absurd (cc k)

      go :
          (r : Outcome Answer)
          → ((do
            synced ← lift r
            modify (λ c. record c { final_answer = some synced })
            c ← get
            response ← lift (clone_response_for_request e.dns synced.response c.request)
            modify (λ c. record c { final_response = some response }))
              s)
            ≡ (done (tt {0}), t)
          → IsFinal t
      go (done synced) k = end synced (clone_response_for_request e.dns synced.response s.request) k
      go (raised x) k = absurd (cc k)

  keep_response-IsFinal :
      (request m : Message) (s t : RequestContext) (u : Message)
      → keep_response e request m s ≡ (done u, t)
      → IsFinal t
  keep_response-IsFinal request m s t u h = go (build_answer_from_response e.dns request m) h
    where
      go :
          (r : Outcome Answer)
          → ((do a ← lift r; modify (λ c. record c { final_answer = some a }); pure m)
              (record s { final_response = some m }))
            ≡ (done u, t)
          → IsFinal t
      go (done a) k =
          let left : record s { final_response = some m; final_answer = some a } ≡ t = cc k in
          record {
            answer = a;
            has_answer = cc (sym left);
            response = m;
            has_response = cc (sym left);
          }
      go (raised x) k = absurd (cc k)

  set_error_reply-IsFinal :
      (request : Message) (s t : RequestContext) (u : Message)
      → set_error_reply e request s ≡ (done u, t)
      → IsFinal t
  set_error_reply-IsFinal request s t u h =
      let (m, c, _, k) =
        >>=-eq-done (lift (make_error_response e.dns request servfail)) (keep_response e request) s
          t u h in
      keep_response-IsFinal request m c t u k

  responded :
      (s t : RequestContext) (found : Option Message)
      → s.final_response ≡ found
      → ((elim found as (λ _. Exec RequestContext (Unit {0})) [
        | some response ↦ do
          answer ← lift (build_answer_from_response e.dns s.request response)
          modify (λ c. record c { final_answer = some answer })
        | none ↦ do _ ← set_error_reply e s.request; pure tt
      ])
          s)
        ≡ (done (tt {0}), t)
      → IsFinal t
  responded s t none f h =
      let (u, c, k, l) = >>=-eq-done (set_error_reply e s.request) (λ _. pure tt) s t tt h in
      let same : c ≡ t = cc l in subst IsFinal same (set_error_reply-IsFinal s.request s c u k)
  responded s t (some m) f h = go (build_answer_from_response e.dns s.request m) h
    where
      go :
          (r : Outcome Answer)
          → ((do a ← lift r; modify (λ c. record c { final_answer = some a })) s)
            ≡ (done (tt {0}), t)
          → IsFinal t
      go (done a) k =
          let left : record s { final_answer = some a } ≡ t = cc k in
          record {
            answer = a;
            has_answer = cc (sym left);
            response = m;
            has_response = cc (sym left, f);
          }
      go (raised x) k = absurd (cc k)

  answered :
      (s t : RequestContext) (found : Option Answer)
      → s.final_answer ≡ found
      → ((elim found as (λ _. Exec RequestContext (Unit {0})) [
        | some answer ↦ respond_from e answer
        | none ↦ elim s.final_response [
          | some response ↦ do
            answer ← lift (build_answer_from_response e.dns s.request response)
            modify (λ c. record c { final_answer = some answer })
          | none ↦ do _ ← set_error_reply e s.request; pure tt
        ]
      ])
          s)
        ≡ (done (tt {0}), t)
      → IsFinal t
  answered s t (some a) f h = respond_from-IsFinal a s t h
  answered s t none f h = responded s t s.final_response refl h

-- Where `_finalize_context` returns, the context has both an answer and a response, whichever of them
-- the phases before it set, so that the plugins that observe the request find both.
pub finalize_context-IsFinal :
    (e : Engine) (c after : RequestContext)
    → finalize_context e c ≡ (done tt, after)
    → IsFinal after
unfolding finalize_context
finalize_context-IsFinal e c after h = answered e c after c.final_answer refl h
