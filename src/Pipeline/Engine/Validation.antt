-- ===== src/Pipeline/Engine/Validation.antt =====
-- dns_forwarder/pipeline/engine.py: which requests `_validate_request_or_error` lets through.
use python_smartdns.Prelude.{
  length, not, ◌||◌, ◌==◌, String, Bool, Bool-cases, Option, none, some, List, [], ◌∷◌, ◌≡◌, refl,
  ap, ◌∙◌, ◌↔◌, ◌⊎◌, arith, inl, inr,
}
use python_smartdns.Outcome.{Outcome, done, raised, ◌>>=◌}
use python_smartdns.Dns.{Question, Message, opcode_query, class_in, formerr}
use python_smartdns.Pipeline.Messages.{make_error_response}
use python_smartdns.Pipeline.Engine.{
  Engine, as_reply, formerr_reply, check_class, validate_request_or_error, answer_valid,
  handle_message,
}

-- A standard query with one question, of class IN.
pub record IsQuery (request : Message) : Type 0 where
  pub query : request.opcode ≡ opcode_query
  pub asked : Question
  pub single : request.question ≡ asked ∷ []
  pub internet : asked.rdclass ≡ class_in

abbrev malformed : Message → Bool
malformed request = not (request.opcode == opcode_query) || not (length request.question == 1)

module _ (e : Engine) (request : Message) where
  formerr-some : formerr_reply e request ≡ done none → ⊥
  formerr-some h = go (make_error_response e.dns request formerr) h
    where
      go : (x : Outcome Message) → as_reply x ≡ done none → ⊥
      go (done m) k = cc k
      go (raised x) k = cc k

  of_class :
      (qs : List Question)
      → request.opcode ≡ opcode_query
      → request.question ≡ qs
      → length qs ≡ 1
      → check_class e request qs ≡ done none
      → IsQuery request
  of_class [] o s l h = absurd (formerr-some h)
  of_class (q ∷ r ∷ qs) o s l h = absurd (omega (arith, l))
  of_class (q ∷ []) o s l h = elim (Bool-cases (q.rdclass == class_in)) [
    | inl b ↦ record { query = o; asked = q; single = s; internet = ground (arith, b) }
    | inr b ↦ absurd (formerr-some (rw b at h))
  ]

  -- `_validate_request_or_error` lets a request through exactly where its opcode is QUERY and it has
  -- one question, of class IN.
  pub validate_request_or_error-accepts_iff :
      validate_request_or_error e request ≡ done none ↔ IsQuery request
  unfolding validate_request_or_error
  validate_request_or_error-accepts_iff = (accepted, accepts)
    where
      accepted : validate_request_or_error e request ≡ done none → IsQuery request
      accepted h = elim (Bool-cases (malformed request)) [
        | inl b ↦ absurd (formerr-some (rw b at h))
        | inr b ↦ of_class request.question (ground (arith, b)) refl (ground (arith, b)) (rw b at h)
      ]

      accepts : IsQuery request → validate_request_or_error e request ≡ done none
      accepts q = rw (q.query, q.single, q.internet) refl

  class_rejects :
      (qs : List Question)
      → request.opcode ≡ opcode_query
      → request.question ≡ qs
      → length qs ≡ 1
      → (IsQuery request → ⊥)
      → check_class e request qs ≡ formerr_reply e request
  class_rejects [] o s l h = refl
  class_rejects (q ∷ r ∷ qs) o s l h = absurd (omega (arith, l))
  class_rejects (q ∷ []) o s l h = elim (Bool-cases (q.rdclass == class_in)) [
    | inl b ↦ absurd (h (record { query = o; asked = q; single = s; internet = ground (arith, b) }))
    | inr b ↦ rw b refl
  ]

  pub validate_request_or_error-rejects :
      (IsQuery request → ⊥) → validate_request_or_error e request ≡ formerr_reply e request
  unfolding validate_request_or_error
  validate_request_or_error-rejects h = elim (Bool-cases (malformed request)) [
    | inl b ↦ rw b refl
    | inr b ↦ rw b (class_rejects request.question (ground (arith, b)) refl (ground (arith, b)) h)
  ]

module _ (e : Engine) (request : Message) where
  check_class-cases :
      (qs : List Question)
      → (check_class e request qs ≡ done none)
        ⊎ (check_class e request qs ≡ formerr_reply e request)
  check_class-cases [] = inr refl
  check_class-cases (q ∷ qs) = elim (Bool-cases (q.rdclass == class_in)) [
    | inl b ↦ inl (rw b refl)
    | inr b ↦ inr (rw b refl)
  ]

  pub validate_request_or_error-cases :
      (validate_request_or_error e request ≡ done none)
      ⊎ (validate_request_or_error e request ≡ formerr_reply e request)
  unfolding validate_request_or_error
  validate_request_or_error-cases = elim (Bool-cases (malformed request)) [
    | inl b ↦ inr (rw b refl)
    | inr b ↦ rw b (check_class-cases request.question)
  ]

-- A reply made for the request: a format error with its identifier, or what `make_response` raised.
abbrev pub format_error : Message → Outcome Message → Outcome (Option Message)
format_error request (raised x) = raised x
format_error request (done response) = done (some (record response { rcode = 1; id = request.id }))

-- Every other request is answered by what dnspython's `make_response` makes of it, with the code of a
-- format error and the identifier of the request, or raises what `make_response` raises on it, and no
-- plugin, resolver or context is touched.
pub handle_message-rejects :
    (e : Engine) (request : Message) (clientaddr listener_name : String)
    → (IsQuery request → ⊥)
    → handle_message e request clientaddr listener_name
      ≡ (format_error request (e.dns.make_response request), none)
unfolding handle_message make_error_response
handle_message-rejects e request clientaddr listener_name h =
    ap (answer_valid e request clientaddr listener_name)
      (validate_request_or_error-rejects e request h)
    ∙ outcome (e.dns.make_response request)
  where
    outcome :
        (r : Outcome Message)
        → answer_valid e request clientaddr listener_name
            (as_reply (r >>= (λ m. done (record m { rcode = formerr; id = request.id }))))
          ≡ (format_error request r, none)
    outcome (done m) = refl
    outcome (raised x) = refl
