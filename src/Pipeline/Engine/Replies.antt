-- ===== src/Pipeline/Engine/Replies.antt =====
-- dns_forwarder/pipeline/engine.py: the messages that it makes.
use python_smartdns.Prelude.{ℕ, Bool-cases, List, [], ◌∷◌, ◌≡◌, refl, inl, inr}
use python_smartdns.Outcome
use python_smartdns.Outcome.{
  Exn, cancelled, out_of_fuel, nxdomain, Outcome, done, raised, >>=-eq-done,
}
use python_smartdns.Dns.{Question, Message, Answer, Dnspython, servfail}
use python_smartdns.Pipeline.Messages.{
  make_error_response, clone_response_for_request, first_question, adopt_first, adopt_rebuilt,
  build_answer_from_response, mismatched, sync_answer_rrset_to_response, sync_answer_response,
}
use python_smartdns.Pipeline.Engine.Ends.{Returns, IsDnspython, Responds, Returns-bind}
use python_smartdns.Pipeline.Engine.{Engine}

module _ (e : Engine) (d : IsDnspython e.dns) where
  pub make_error_response-Returns :
      (request : Message) (rcode : ℕ) → Returns (make_error_response e.dns request rcode)
  unfolding make_error_response
  make_error_response-Returns request rcode =
      Returns-bind (e.dns.make_response request)
        (λ response. done (record response { rcode = rcode; id = request.id }))
        (d.make_response request) (λ r. tt)

  pub clone_response_for_request-Returns :
      (response request : Message) → Returns (clone_response_for_request e.dns response request)
  unfolding clone_response_for_request
  clone_response_for_request-Returns response request =
      Returns-bind (e.dns.to_wire response)
        (λ wire.
          Outcome.◌>>=◌ (e.dns.from_wire wire) (λ cloned. done (record cloned { id = request.id })))
        (d.to_wire response)
        (λ wire.
          Returns-bind (e.dns.from_wire wire) (λ cloned. done (record cloned { id = request.id }))
            (d.from_wire wire) (λ c. tt))

  pub first_question-Returns : (m : Message) → Returns (first_question m)
  unfolding first_question
  first_question-Returns m = go m.question
    where
      go :
          (qs : List Question)
          → Returns (elim qs as (λ _. Outcome Question) [
            | [] ↦ raised Exn.index_error
            | q ∷ rest ↦ done q
          ])
      go [] = tt
      go (q ∷ qs) = tt

  pub build_answer_from_response-Returns :
      (request response : Message) → Returns (build_answer_from_response e.dns request response)
  unfolding build_answer_from_response
  build_answer_from_response-Returns request response =
      Returns-bind (first_question request)
        (λ q. Outcome.◌>>=◌ (clone_response_for_request e.dns response request) (λ n.
          Outcome.◌>>=◌ (e.dns.make_answer q.name q.rdtype q.rdclass n)
            (λ a. done (adopt_first e.dns.now a n.answer))))
        (first_question-Returns request)
        (λ q.
          Returns-bind (clone_response_for_request e.dns response request)
            (λ n.
              Outcome.◌>>=◌ (e.dns.make_answer q.name q.rdtype q.rdclass n)
                (λ a. done (adopt_first e.dns.now a n.answer)))
            (clone_response_for_request-Returns response request)
            (λ n.
              Returns-bind (e.dns.make_answer q.name q.rdtype q.rdclass n)
                (λ a. done (adopt_first e.dns.now a n.answer))
                (d.make_answer q.name q.rdtype q.rdclass n) (λ a. tt)))

  pub sync_answer_rrset_to_response-Returns :
      (a : Answer) → Returns (sync_answer_rrset_to_response a)
  unfolding sync_answer_rrset_to_response
  sync_answer_rrset_to_response-Returns a = elim (Bool-cases (mismatched a)) [
    | inl b ↦ rw b tt
    | inr b ↦ rw b tt
  ]

  pub sync_answer_response-Returns : (a : Answer) → Returns (sync_answer_response e.dns a)
  unfolding sync_answer_response
  sync_answer_response-Returns a =
      Returns-bind (sync_answer_rrset_to_response a)
        (λ synced. Outcome.◌>>=◌ (e.dns.to_wire synced.response) (λ w.
          Outcome.◌>>=◌ (e.dns.from_wire w) (λ m.
            Outcome.◌>>=◌ (e.dns.make_answer synced.qname synced.rdtype synced.rdclass m)
              (λ r. done (adopt_rebuilt synced r)))))
        (sync_answer_rrset_to_response-Returns a)
        (λ synced.
          Returns-bind (e.dns.to_wire synced.response)
            (λ w. Outcome.◌>>=◌ (e.dns.from_wire w) (λ m.
              Outcome.◌>>=◌ (e.dns.make_answer synced.qname synced.rdtype synced.rdclass m)
                (λ r. done (adopt_rebuilt synced r))))
            (d.to_wire synced.response)
            (λ w.
              Returns-bind (e.dns.from_wire w)
                (λ m.
                  Outcome.◌>>=◌ (e.dns.make_answer synced.qname synced.rdtype synced.rdclass m)
                    (λ r. done (adopt_rebuilt synced r)))
                (d.from_wire w)
                (λ m.
                  Returns-bind (e.dns.make_answer synced.qname synced.rdtype synced.rdclass m)
                    (λ r. done (adopt_rebuilt synced r))
                    (d.make_answer synced.qname synced.rdtype synced.rdclass m) (λ r. tt))))

module _ (d : Dnspython) (request : Message) (r : Responds d request) where
  -- The server failure, as `make_error_response` makes it.
  abbrev pub failure : Message
  failure = record r.response { rcode = servfail; id = request.id }

  pub make_error_response-done :
      (rcode : ℕ)
      → make_error_response d request rcode
        ≡ done (record r.response { rcode = rcode; id = request.id })
  unfolding make_error_response
  make_error_response-done rcode = rw r.made refl

  copied : clone_response_for_request d failure request ≡ done (record r.copy { id = request.id })
  unfolding clone_response_for_request
  copied = rw (r.rendered, r.read) refl

  pub build_answer_from_response-done :
      (q : Question)
      → first_question request ≡ done q
      → (a : Answer) × (build_answer_from_response d request failure ≡ done a)
  unfolding build_answer_from_response
  build_answer_from_response-done q h =
      (adopt_first d.now (r.answer q) r.copy.answer, rw (h, copied, r.wrapped q) refl)
