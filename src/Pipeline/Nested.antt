-- ===== src/Pipeline/Nested.antt =====
-- dns_forwarder/pipeline/engine.py: queries that a resolver or a plugin makes through the pipeline
-- while a request is served, and dns_forwarder/pipeline/context.py, `RequestContext.resolve`.
pub mod Depth
use python_smartdns.Prelude.{
  ℕ, String, Bool, true, false, ◌&&◌, ◌||◌, leb, Option, none, some, List, [], ◌∷◌, ◌++◌, length,
  str_eq, if◌then◌else◌,
}
use python_smartdns.Outcome.{
  Exn, recursion_error, runtime_error, value_error, Outcome, done, raised, ◌>>=◌,
}
use python_smartdns.Dns.{Message, Answer}
use python_smartdns.Pipeline.Context.{UpstreamResult, RequestContext, silent}
use python_smartdns.Pipeline.Messages.{first_question}
use python_smartdns.Pipeline.Requests.{Engine, build_context, dispatch_context}

abbrev pub Signature : Type 0
Signature = String × String

abbrev pub same_signature : Signature → Signature → Bool
same_signature (q, t) (r, u) = str_eq q r && str_eq t u

-- `signature in chain`
abbrev pub in_chain : Signature → List Signature → Bool
in_chain s [] = false
in_chain s (x ∷ xs) = same_signature x s || in_chain s xs

-- The guards of `_resolve_nested`, and the context that it makes.
unfoldable pub nested_context : Engine → RequestContext → String → String → Outcome RequestContext
nested_context e context qname qtype =
    if in_chain (qname, qtype) context.nested_resolve_chain
    then raised recursion_error
    else if leb context.nested_resolve_max_depth (length context.nested_resolve_chain)
    then raised recursion_error
    else (do
      request ← e.dns.make_query qname qtype
      done (
          build_context request context.clientaddr context.listener_name
            (context.nested_resolve_chain ++ (qname, qtype) ∷ [])))

-- `_answer_from_nested_result`
unfoldable pub answer_from_nested_result : RequestContext → UpstreamResult → Outcome Answer
answer_from_nested_result nested_context result = elim result.answer [
  | some answer ↦ done answer
  | none ↦ elim result.error [
    | some error ↦ raised error
    | none ↦ do
      question ← first_question nested_context.request
      raised (runtime_error "内部解析未返回有效答案")
  ]
]

-- The dispatch of a nested query, whose context is dropped at its end.
unfoldable pub dispatch_nested : Engine → RequestContext → Outcome Answer
dispatch_nested e context =
    let (outcome, after) = dispatch_context e silent context in
    outcome >>= answer_from_nested_result after

-- `_resolve_nested`
unfoldable pub resolve_nested : Engine → RequestContext → String → String → Outcome Answer
resolve_nested e context qname qtype = do
  nested ← nested_context e context qname qtype
  dispatch_nested e nested

-- `resolve_nested_query`, for a query that comes from another process with its chain
unfoldable pub resolve_nested_query :
    Engine → String → String → String → String → List Signature → Outcome Answer
resolve_nested_query e qname qtype clientaddr listener_name chain = do
  request ← e.dns.make_query qname qtype
  dispatch_nested e (build_context request clientaddr listener_name chain)
