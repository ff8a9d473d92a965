-- ===== src/Resolver/Checked.antt =====
-- What the resolver of one upstream returns.
use python_smartdns.Prelude.{
  String, ◌==◌, str_eq, eq_iff, Bool-cases, none, some, List, ◌≡◌, refl, arith, inl, inr,
}
use python_smartdns.Outcome
use python_smartdns.Outcome.{Exn, cancelled, out_of_fuel, Outcome, done, raised, >>=-eq-done}
use python_smartdns.Exec.Ensures.{Post, OnlyCancelled, AnyPython, Always}
use python_smartdns.Dns.{Question, Answer, class_in}
use python_smartdns.Pipeline.Context.{UpstreamResult, RequestContext}
use python_smartdns.Pipeline.Messages.{first_question}
use python_smartdns.Resolver.{
  UpstreamResolver, validate_answer, outcome_of, asked_of, resolve_upstream,
}

-- An answer to the question, of class IN.
pub record Answers (question : Question) (answer : Answer) : Type 0 where
  pub internet : answer.rdclass ≡ class_in
  pub same_name : answer.qname ≡ question.name
  pub same_type : answer.rdtype ≡ question.rdtype

-- The result has the upstream's name and the request's tags, and either an answer to the question and no
-- error, or no answer and the error that the attempt raised.
pub record Reports (u : UpstreamResolver) (question : Question) (tags : List String)
    (r : UpstreamResult) : Type 0 where
  pub named : r.upstream_name ≡ u.name
  pub tagged : r.tags ≡ tags
  pub answered : (a : Answer) → r.answer ≡ some a → Answers question a
  pub failed : (r.answer ≡ none) → (x : Exn) × (r.error ≡ some x) × (asked_of u question ≡ raised x)

validate_answer-Answers :
    (a : Answer) (q : Question) → validate_answer a q ≡ done (tt {0}) → Answers q a
unfolding validate_answer
validate_answer-Answers a q h = elim (Bool-cases (a.rdclass == class_in)) [
  | inr x ↦ absurd (cc (rw x at h))
  | inl x ↦ elim (Bool-cases (str_eq a.qname q.name)) [
    | inr y ↦ absurd (cc (rw (x, y) at h))
    | inl y ↦ elim (Bool-cases (a.rdtype == q.rdtype)) [
      | inr z ↦ absurd (cc (rw (x, y, z) at h))
      | inl z ↦ record {
        internet = ground (arith, x);
        same_name = (eq_iff a.qname q.name).0 y;
        same_type = ground (arith, z);
      }
    ]
  ]
]

asked_of-Answers :
    (u : UpstreamResolver) (q : Question) (a : Answer) → asked_of u q ≡ done a → Answers q a
unfolding asked_of
asked_of-Answers u q a h =
    let (found, _, k) =
      >>=-eq-done (u.ask q) (λ x. Outcome.◌>>=◌ (validate_answer x q) (λ _. done x)) h in
    let (_, valid, l) = >>=-eq-done (validate_answer found q) (λ _. done found) k in
    let same : found ≡ a = cc l in rw (← same) (validate_answer-Answers found q valid)

outcome_of-Reports :
    (u : UpstreamResolver) (q : Question) (c : RequestContext) (o : Outcome Answer)
    → asked_of u q ≡ o
    → Post Always AnyPython o
    → Post (Reports u q c.tags) OnlyCancelled (outcome_of u q o c).0
unfolding outcome_of
outcome_of-Reports u q c (done a) h p = record {
  named = refl;
  tagged = refl;
  answered = λ b k. asked_of-Answers u q b (cc (h, k));
  failed = λ k. absurd (cc k);
}
outcome_of-Reports u q c (raised cancelled) h p = tt
outcome_of-Reports u q c (raised out_of_fuel) h p = absurd p
outcome_of-Reports u q c (raised x) h p = record {
  named = refl;
  tagged = refl;
  answered = λ b k. absurd (cc k);
  failed = λ k. (x, refl, h);
}

validated-Python :
    (a : Answer) (q : Question)
    → Post Always AnyPython (Outcome.◌>>=◌ (validate_answer a q) (λ _. done a))
unfolding validate_answer
validated-Python a q = elim (Bool-cases (a.rdclass == class_in)) [
  | inr x ↦ rw x tt
  | inl x ↦ elim (Bool-cases (str_eq a.qname q.name)) [
    | inr y ↦ rw (x, y) tt
    | inl y ↦ elim (Bool-cases (a.rdtype == q.rdtype)) [
      | inr z ↦ rw (x, y, z) tt
      | inl z ↦ rw (x, y, z) tt
    ]
  ]
]

asked_of-Python :
    (u : UpstreamResolver) (q : Question)
    → Post Always AnyPython (u.ask q)
    → Post Always AnyPython (asked_of u q)
unfolding asked_of
asked_of-Python u q p = go (u.ask q) p
  where
    go :
        (o : Outcome Answer)
        → Post Always AnyPython o
        → Post Always AnyPython
            (Outcome.◌>>=◌ o (λ x. Outcome.◌>>=◌ (validate_answer x q) (λ _. done x)))
    go (done a) k = validated-Python a q
    go (raised x) k = k

-- For a request with a question, whatever dnspython's resolver returns or raises, the resolver of an
-- upstream returns a result of its name with the request's tags, or is cancelled; an answer is passed
-- on only if it has the class IN and the name and type of the question, and else the result has no
-- answer and the exception of the attempt.
pub resolve_upstream-Reports :
    (u : UpstreamResolver) (c : RequestContext) (q : Question)
    → first_question c.request ≡ done q
    → Post Always AnyPython (u.ask q)
    → Post (Reports u q c.tags) OnlyCancelled (resolve_upstream u c).0
unfolding resolve_upstream
resolve_upstream-Reports u c q h p =
    rw h (outcome_of-Reports u q c (asked_of u q) refl (asked_of-Python u q p))
