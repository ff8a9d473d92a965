-- ===== src/Pipeline/Engine/Identifiers.antt =====
-- The identifiers of the messages that dns_forwarder/pipeline makes for a request.
use python_smartdns.Prelude.{
  List, [], ◌∷◌, length, not, ◌||◌, ◌==◌, ℕ, Bool-cases, Option, none, some, ◌≡◌, refl, sym, inl,
  inr,
}
use python_smartdns.Outcome.{Exn, cancelled, out_of_fuel, Outcome, done, raised, >>=-eq-done}
use python_smartdns.Outcome
use python_smartdns.Exec.{pure, lift, modify, ◌>>=◌, ◌>>◌}
use python_smartdns.Exec.Ensures.{
  Always, Whatever, Ensures-trivial, Ensures-lift, Ensures, Ensures-bind,
}
use python_smartdns.Dns.{Question, Message, formerr, servfail, class_in, opcode_query}
use python_smartdns.Pipeline.Messages.{
  make_error_response, clone_response_for_request, build_answer_from_response,
}
use python_smartdns.Pipeline.Engine.{
  Engine, as_reply, formerr_reply, check_class, validate_request_or_error, keep_response,
  set_error_reply,
}

abbrev pub HasId : Message → Message → Type 0
HasId request m = m.id ≡ request.id

abbrev pub AnswersId : Message → Option Message → Type 0
AnswersId request none = Unit
AnswersId request (some m) = HasId request m

module _ (e : Engine) (request : Message) where
  pub make_error_response-id :
      (rcode : ℕ) (m : Message) → make_error_response e.dns request rcode ≡ done m → HasId request m
  unfolding make_error_response
  make_error_response-id rcode m h =
      let (r, _, k) =
        >>=-eq-done (e.dns.make_response request)
          (λ response. done (record response { rcode = rcode; id = request.id })) h in
      cc (sym k)

  pub clone_response_for_request-id :
      (response m : Message)
      → clone_response_for_request e.dns response request ≡ done m
      → HasId request m
  unfolding clone_response_for_request
  clone_response_for_request-id response m h =
      let (w, _, k) =
        >>=-eq-done (e.dns.to_wire response)
          (λ wire.
            Outcome.◌>>=◌ (e.dns.from_wire wire)
              (λ cloned. done (record cloned { id = request.id })))
          h in
      let (r, _, l) =
        >>=-eq-done (e.dns.from_wire w) (λ cloned. done (record cloned { id = request.id })) k in
      cc (sym l)

  formerr_reply-id : (m : Message) → formerr_reply e request ≡ done (some m) → HasId request m
  formerr_reply-id m h = go (make_error_response e.dns request formerr) refl h
    where
      go :
          (r : Outcome Message)
          → make_error_response e.dns request formerr ≡ r
          → as_reply r ≡ done (some m)
          → HasId request m
      go (done a) k l = make_error_response-id formerr m (cc (k, l))
      go (raised x) k l = absurd (cc l)

  check_class-id :
      (qs : List Question) (m : Message)
      → check_class e request qs ≡ done (some m)
      → HasId request m
  check_class-id [] m h = formerr_reply-id m h
  check_class-id (q ∷ qs) m h = elim (Bool-cases (q.rdclass == class_in)) [
    | inl b ↦ absurd (cc (rw b at h))
    | inr b ↦ formerr_reply-id m (rw b at h)
  ]

  pub validate-id :
      (m : Message) → validate_request_or_error e request ≡ done (some m) → HasId request m
  unfolding validate_request_or_error
  validate-id m h =
      elim (Bool-cases
        (not (request.opcode == opcode_query) || not (length request.question == 1))) [
          | inl b ↦ formerr_reply-id m (rw b at h)
          | inr b ↦ check_class-id request.question m (rw b at h)
        ]

  keep_response-id :
      (response : Message)
      → HasId request response
      → Ensures (HasId request) Whatever (keep_response e request response)
  keep_response-id response h =
      Ensures-bind Always (HasId request) Whatever
        (modify (λ s. record s { final_response = some response }))
        (λ _. do
          answer ← lift (build_answer_from_response e.dns request response)
          modify (λ s. record s { final_answer = some answer })
          pure response)
        (record { at = λ s. tt })
        (λ _ _.
          Ensures-bind Always (HasId request) Whatever
            (lift (build_answer_from_response e.dns request response))
            (λ answer. do modify (λ s. record s { final_answer = some answer }); pure response)
            (Ensures-trivial (lift (build_answer_from_response e.dns request response)))
            (λ answer _. record { at = λ s. h }))

  pub set_error_reply-id : Ensures (HasId request) Whatever (set_error_reply e request)
  set_error_reply-id =
      Ensures-bind (HasId request) (HasId request) Whatever
        (lift (make_error_response e.dns request servfail)) (keep_response e request)
        (Ensures-lift (HasId request) (make_error_response e.dns request servfail)
          (make_error_response-id servfail))
        keep_response-id
