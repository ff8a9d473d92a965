-- ===== src/Pipeline/Nested/Depth.antt =====
-- How deep queries inside queries go.
use python_smartdns.Prelude.{
  ℕ, suc, ◌+◌, ◌≤◌, ◌<◌, String, false, leb, Bool-cases, Option, none, some, List, [], ◌∷◌, ◌++◌,
  length, length-append, eq_iff, ◌≡◌, refl, ap, sym, subst, ◌∙◌, arith, inl, inr,
}
use python_smartdns.Pipeline.Messages.{first_question}
use python_smartdns.Outcome.{Exn, runtime_error, Outcome, done, raised, ◌>>=◌, >>=-eq-done}
use python_smartdns.Dns.{Message, Answer}
use python_smartdns.Pipeline.Context.{UpstreamResult, RequestContext, silent}
use python_smartdns.Pipeline.Requests.{
  Engine, max_nested_resolve_depth, build_context, dispatch_context,
}
use python_smartdns.Pipeline.Nested.{
  Signature, same_signature, in_chain, nested_context, answer_from_nested_result, dispatch_nested,
  resolve_nested,
}

-- No signature stands twice in a chain.
abbrev pub IsUnrepeated : List Signature → Type 0
IsUnrepeated [] = Unit
IsUnrepeated (s ∷ ss) = (in_chain s ss ≡ false) × IsUnrepeated ss

-- The state of the guards: a chain without repetition, no longer than the bound.
pub record IsBounded (c : RequestContext) : Type 0 where
  pub bound : c.nested_resolve_max_depth ≡ max_nested_resolve_depth
  pub short : length c.nested_resolve_chain ≤ max_nested_resolve_depth
  pub unrepeated : IsUnrepeated c.nested_resolve_chain

-- What the plugins and resolvers may do to a context: anything but touch the private chain.
pub record KeepsChain (c d : RequestContext) : Type 0 where
  pub chain : d.nested_resolve_chain ≡ c.nested_resolve_chain
  pub max_depth : d.nested_resolve_max_depth ≡ c.nested_resolve_max_depth

-- `n` queries inside one another, each made from the context of the one around it.
pub data Nests (e : Engine) : ℕ → RequestContext → RequestContext → Type 0 where
  outermost : (c : RequestContext) → Nests e 0 c c
  within :
      {n : ℕ} {c d : RequestContext} (used inner : RequestContext) (qname qtype : String)
      → Nests e n c d
      → KeepsChain d used
      → nested_context e used qname qtype ≡ done inner
      → Nests e (suc n) c inner

same_signature_sym : (s t : Signature) → same_signature s t ≡ same_signature t s
same_signature_sym s t =
    ground (arith, eq_iff s.0 t.0, eq_iff t.0 s.0, eq_iff s.1 t.1, eq_iff t.1 s.1)

in_chain-append :
    (s t : Signature) (ss : List Signature)
    → in_chain s ss ≡ false
    → same_signature t s ≡ false
    → in_chain s (ss ++ t ∷ []) ≡ false
in_chain-append s t [] h k = rw k refl
in_chain-append s t (x ∷ ss) h k = ground (arith, in_chain-append s t ss (ground (arith, h)) k, h)

IsUnrepeated-append :
    (t : Signature) (ss : List Signature)
    → IsUnrepeated ss
    → in_chain t ss ≡ false
    → IsUnrepeated (ss ++ t ∷ [])
IsUnrepeated-append t [] u h = (refl, tt)
IsUnrepeated-append t (s ∷ ss) u h = (
  in_chain-append s t ss u.0 (same_signature_sym t s ∙ ground (arith, h)),
  IsUnrepeated-append t ss u.1 (ground (arith, h)),
)

-- A query that passes the guards, and the context that is made for it.
pub record Passes (e : Engine) (c : RequestContext) (qname qtype : String) (inner : RequestContext)
    : Type 0 where
  pub request : e.dns.make_query qname qtype ≡ done inner.request
  pub clientaddr : inner.clientaddr ≡ c.clientaddr
  pub listener_name : inner.listener_name ≡ c.listener_name
  pub untagged : inner.tags ≡ []
  pub unanswered : (inner.final_answer ≡ none) × (inner.final_response ≡ none)
  pub unasked : inner.upstream_results ≡ []
  pub new : in_chain (qname, qtype) c.nested_resolve_chain ≡ false
  pub room : length c.nested_resolve_chain < c.nested_resolve_max_depth
  pub chain : inner.nested_resolve_chain ≡ c.nested_resolve_chain ++ (qname, qtype) ∷ []
  pub max_depth : inner.nested_resolve_max_depth ≡ max_nested_resolve_depth

nested_context-Passes :
    (e : Engine) (c : RequestContext) (qname qtype : String) (inner : RequestContext)
    → nested_context e c qname qtype ≡ done inner
    → Passes e c qname qtype inner
unfolding nested_context build_context
nested_context-Passes e c qname qtype inner h =
    elim (Bool-cases (in_chain (qname, qtype) c.nested_resolve_chain)) [
      | inl a ↦ absurd (cc (rw a at h))
      | inr a ↦ elim (Bool-cases (leb c.nested_resolve_max_depth (length c.nested_resolve_chain))) [
        | inl b ↦ absurd (cc (rw (a, b) at h))
        | inr b ↦
            let (request, asked, made) =
              >>=-eq-done (e.dns.make_query qname qtype)
                (λ request. done (
                  build_context request c.clientaddr c.listener_name
                    (c.nested_resolve_chain ++ (qname, qtype) ∷ [])))
                (rw (a, b) at h) in
            let same : build_context request c.clientaddr c.listener_name
                  (c.nested_resolve_chain ++ (qname, qtype) ∷ [])
                ≡ inner =
              cc made in
            record {
              request = asked ∙ ap done (ap (λ (d : RequestContext). d.request) same);
              clientaddr = ap (λ (d : RequestContext). d.clientaddr) (sym same);
              listener_name = ap (λ (d : RequestContext). d.listener_name) (sym same);
              untagged = ap (λ (d : RequestContext). d.tags) (sym same);
              unanswered = (
                ap (λ (d : RequestContext). d.final_answer) (sym same),
                ap (λ (d : RequestContext). d.final_response) (sym same),
              );
              unasked = ap (λ (d : RequestContext). d.upstream_results) (sym same);
              new = a;
              room = ground (arith, b);
              chain = ap (λ (d : RequestContext). d.nested_resolve_chain) (sym same);
              max_depth = ap (λ (d : RequestContext). d.nested_resolve_max_depth) (sym same);
            }
      ]
    ]

nested_context-IsBounded :
    (e : Engine) (c inner : RequestContext) (qname qtype : String)
    → IsBounded c
    → nested_context e c qname qtype ≡ done inner
    → IsBounded inner × (length inner.nested_resolve_chain ≡ suc (length c.nested_resolve_chain))
nested_context-IsBounded e c inner qname qtype b h =
    let p = nested_context-Passes e c qname qtype inner h in
    let longer : length inner.nested_resolve_chain ≡ suc (length c.nested_resolve_chain) =
      omega
        (arith, ap length p.chain, length-append c.nested_resolve_chain ((qname, qtype) ∷ [])) in
    (
      record {
        bound = p.max_depth;
        short = omega (arith, longer, p.room, b.bound);
        unrepeated =
            subst IsUnrepeated (sym p.chain)
              (IsUnrepeated-append (qname, qtype) c.nested_resolve_chain b.unrepeated p.new);
      },
      longer,
    )

KeepsChain-IsBounded : (c d : RequestContext) → KeepsChain c d → IsBounded c → IsBounded d
KeepsChain-IsBounded c d k b = record {
  bound = k.max_depth ∙ b.bound;
  short = rw k.chain b.short;
  unrepeated = subst IsUnrepeated (sym k.chain) b.unrepeated;
}

Nests-counts :
    (e : Engine) {n : ℕ} {c d : RequestContext}
    → Nests e n c d
    → IsBounded c
    → IsBounded d × (length d.nested_resolve_chain ≡ n + length c.nested_resolve_chain)
Nests-counts e (outermost c) b = (b, omega arith)
Nests-counts e (within used inner qname qtype before keeps made) b =
    let (bd, count) = Nests-counts e before b in
    let (bi, more) =
      nested_context-IsBounded e used inner qname qtype (KeepsChain-IsBounded _ used keeps bd)
        made in
    (bi, omega (arith, count, more, ap length keeps.chain))

-- Queries inside the queries of a request end: at most eight can be inside one another, and none of
-- them asks for a name and type that one around it asks for, whatever the plugins and resolvers do to
-- the contexts, other than to their private chains.
pub Nests-bounded :
    (e : Engine) (n : ℕ) (request : Message) (clientaddr listener_name : String)
    (d : RequestContext)
    → Nests e n (build_context request clientaddr listener_name []) d
    → (n ≤ max_nested_resolve_depth) × IsUnrepeated d.nested_resolve_chain
unfolding build_context
Nests-bounded e n request clientaddr listener_name d nests =
    let (b, count) =
      Nests-counts e nests (record { bound = refl; short = omega arith; unrepeated = tt }) in
    (omega (arith, b.short, count), b.unrepeated)

answer_of :
    (c : RequestContext) (a : Option Answer) (x : Option Exn) (answer : Answer)
    → (elim a as (λ _. Outcome Answer) [
      | some found ↦ done found
      | none ↦ elim x [
        | some error ↦ raised error
        | none ↦ do question ← first_question c.request; raised (runtime_error "内部解析未返回有效答案")
      ]
    ])
      ≡ done answer
    → a ≡ some answer
answer_of c (some found) x answer h = cc h
answer_of c none (some error) answer h = absurd (cc h)
answer_of c none none answer h =
    let (q, _, k) =
      >>=-eq-done (first_question c.request) (λ _. raised (runtime_error "内部解析未返回有效答案")) h in
    absurd (cc k)

-- What a dispatch ended with, where an answer was made of it.
record Dispatched (e : Engine) (c : RequestContext) (answer : Answer) : Type 0 where
  result : UpstreamResult
  after : RequestContext
  runs : dispatch_context e silent c ≡ (done result, after)
  answers : result.answer ≡ some answer

dispatch_nested-Dispatched :
    (e : Engine) (c : RequestContext) (answer : Answer)
    → dispatch_nested e c ≡ done answer
    → Dispatched e c answer
unfolding dispatch_nested answer_from_nested_result
dispatch_nested-Dispatched e c answer h = go (dispatch_context e silent c) refl h
  where
    go :
        (r : Outcome UpstreamResult × RequestContext)
        → dispatch_context e silent c ≡ r
        → (r.0 >>= answer_from_nested_result r.1) ≡ done answer
        → Dispatched e c answer
    go (done result, after) k l = record {
      result = result;
      after = after;
      runs = k;
      answers = answer_of after result.answer result.error answer l;
    }
    go (raised x, after) k l = absurd (cc l)

-- A nested query that returns an answer passed the guards, and the answer is that of the result of a
-- dispatch on a context of its own: with the query that dnspython makes for the name and type, for the
-- same client and listener, with the longer chain, and without tags, answers and results.
pub resolve_nested-done :
    (e : Engine) (c : RequestContext) (qname qtype : String) (answer : Answer)
    → resolve_nested e c qname qtype ≡ done answer
    → (inner : RequestContext) × (after : RequestContext) × (result : UpstreamResult) × Passes e c
        qname qtype inner
      × (dispatch_context e silent inner ≡ (done result, after))
      × (result.answer ≡ some answer)
unfolding resolve_nested
resolve_nested-done e c qname qtype answer h =
    let (inner, made, run) = >>=-eq-done (nested_context e c qname qtype) (dispatch_nested e) h in
    let q = dispatch_nested-Dispatched e inner answer run in
    (inner, q.after, q.result, nested_context-Passes e c qname qtype inner made, q.runs, q.answers)
