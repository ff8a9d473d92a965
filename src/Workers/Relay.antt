-- ===== src/Workers/Relay.antt =====
-- Queries that a plugin makes in a worker, which the main process resolves:
-- `WorkerNestedResolver` of dns_forwarder/core/multiprocess/worker.py, `_handle_resolve_request` of
-- pool.py, and the errors of ipc.py. Messages are values here, and the queues are outside.
pub mod RoundTrip
use python_smartdns.Prelude.{
  ℕ, String, str_eq, Bool, true, false, not, ◌&&◌, ◌||◌, leb, Option, none, some, List, [], ◌∷◌,
  ◌++◌, length, elem, filterb, if◌then◌else◌,
}
use python_smartdns.Outcome.{
  Exn, cancelled, out_of_fuel, nxdomain, recursion_error, timeout_error, runtime_error, Outcome,
  done, raised, ◌>>=◌, ◌>>◌,
}
use python_smartdns.Dns.{Message, Answer, Wire, Dnspython}
use python_smartdns.Pipeline.Context.{RequestContext}
use python_smartdns.Pipeline.Messages.{build_answer_from_response, sync_answer_response}
use python_smartdns.Pipeline.Requests.{Engine}
use python_smartdns.Pipeline.Nested.{Signature, in_chain, resolve_nested_query}
use python_smartdns.Workers.{WorkerHandle, Pool, Wait, woken, timed_out, interrupted}
use python_smartdns.Workers.Answers.{worker_by_id}

-- `type(exc).__name__` and `str(exc)`
pub record ExnTexts : Type 0 where
  pub type_name : Exn → String
  pub str : Exn → String

unfoldable pub serialize_resolve_error_type : ExnTexts → Exn → String
serialize_resolve_error_type x nxdomain = "NXDOMAIN"
serialize_resolve_error_type x recursion_error = "NestedResolveRecursionError"
serialize_resolve_error_type x e = x.type_name e

unfoldable pub deserialize_resolve_error : String → String → Exn
deserialize_resolve_error error_type message =
    if str_eq error_type "NXDOMAIN"
    then nxdomain
    else if str_eq error_type "NestedResolveRecursionError"
    then recursion_error
    else runtime_error (if str_eq message "" then error_type else message)

pub record ResolveResponse : Type 0 where
  pub resolve_id : String
  pub generation : ℕ
  pub wire : Option Wire
  pub error_type : Option String
  pub error : String

-- The response, by what came of the query; `except Exception` lets the cancellation through.
unfoldable pub resolve_response : ExnTexts → String → ℕ → Outcome Wire → Outcome ResolveResponse
resolve_response x id g (done bytes) =
    done
      (record { resolve_id = id; generation = g; wire = some bytes; error_type = none; error = "" })
resolve_response x id g (raised cancelled) = raised cancelled
resolve_response x id g (raised out_of_fuel) = raised out_of_fuel
resolve_response x id g (raised e) = done (record {
  resolve_id = id;
  generation = g;
  wire = none;
  error_type = some (serialize_resolve_error_type x e);
  error = x.str e;
})

-- The body of the `try` in `_handle_resolve_request`.
unfoldable pub resolve_to_wire :
    Engine → String → String → String → String → List Signature → Outcome Wire
resolve_to_wire e qname qtype clientaddr listener_name chain = do
  answer ← resolve_nested_query e qname qtype clientaddr listener_name chain
  synced ← sync_answer_response e.dns answer
  e.dns.to_wire synced.response

-- `_handle_resolve_request`, with the outcome of its `try`: what is put in which worker's queue.
unfoldable pub handle_resolve :
    ExnTexts → Pool → ℕ → String → Outcome Wire → Outcome (Option (WorkerHandle × ResolveResponse))
handle_resolve x p worker_id resolve_id outcome = elim (worker_by_id p.workers worker_id) [
  | none ↦ done none
  | some w ↦ resolve_response x resolve_id w.generation outcome >>= λ r. done (some (w, r))
]

-- The event and the holder of a query, and the request that was made for it.
pub record Reply : Type 0 where
  pub is_set : Bool
  pub wire : Option Wire
  pub error : Option Exn
  pub nested_request : Message

-- `WorkerNestedResolver`; as in the pool, the holders outlive their keys.
pub record NestedResolver : Type 0 where
  pub resolving : List String
  pub replies : String → Reply

abbrev pub set_reply : (String → Reply) → String → Reply → String → Reply
set_reply replies id r i = if str_eq i id then r else replies i

abbrev pub forget : String → NestedResolver → NestedResolver
forget id n = record n { resolving = filterb (λ i. not (str_eq i id)) n.resolving }

-- The guards of `resolve`
unfoldable pub check_chain : RequestContext → Signature → Outcome (Unit {0})
check_chain context signature =
    if in_chain signature context.nested_resolve_chain
    then raised recursion_error
    else if leb context.nested_resolve_max_depth (length context.nested_resolve_chain)
    then raised recursion_error
    else done tt

abbrev pub asked_reply : Message → Reply
asked_reply request = record { is_set = false; wire = none; error = none; nested_request = request }

abbrev pub with_query : String → Message → NestedResolver → NestedResolver
with_query id request n = record {
  resolving = id ∷ n.resolving;
  replies = set_reply n.replies id (asked_reply request);
}

abbrev pub or_forget :
    String → Outcome (Unit {0}) → NestedResolver → Outcome (Unit {0}) × NestedResolver
or_forget id (done u) n = (done tt, n)
or_forget id (raised e) n = (raised e, forget id n)

-- `resolve` from the key on, with the request that was made or the exception that was raised
-- before; `sent` is what comes of the message to the main process.
abbrev pub ask_main :
    String
    → Outcome (Unit {0})
    → Outcome Message
    → NestedResolver
    → Outcome (Unit {0}) × NestedResolver
ask_main id sent (done request) n = or_forget id sent (with_query id request n)
ask_main id sent (raised e) n = (raised e, n)

-- `resolve` up to the wait: `put` sends the chain with the signature.
unfoldable pub begin_resolve :
    Dnspython
    → RequestContext
    → String
    → String
    → String
    → (List Signature → Outcome (Unit {0}))
    → NestedResolver
    → Outcome (Unit {0}) × NestedResolver
begin_resolve d context qname qtype id put n =
    ask_main id (put (context.nested_resolve_chain ++ (qname, qtype) ∷ []))
      (check_chain context (qname, qtype) >> d.make_query qname qtype) n

-- The holder after a response.
unfoldable pub take_response : ResolveResponse → Reply → Reply
take_response m r = elim m.error_type [
  | some error_type ↦
      if str_eq error_type ""
      then elim m.wire [
        | some bytes ↦ record r { is_set = true; wire = some bytes }
        | none ↦ record r { is_set = true; error = some (runtime_error "内部解析未返回响应") }
      ]
      else record r { is_set = true; error = some (deserialize_resolve_error error_type m.error) }
  | none ↦ elim m.wire [
    | some bytes ↦ record r { is_set = true; wire = some bytes }
    | none ↦ record r { is_set = true; error = some (runtime_error "内部解析未返回响应") }
  ]
]

unfoldable pub receive_response : ResolveResponse → NestedResolver → NestedResolver
receive_response m n =
    let r = n.replies m.resolve_id in
    if not (elem m.resolve_id n.resolving) || r.is_set
    then n
    else record n { replies = set_reply n.replies m.resolve_id (take_response m r) }

-- What `resolve` makes of the holder.
unfoldable pub read_reply : Dnspython → Reply → Outcome Answer
read_reply d r = elim r.error [
  | some e ↦ raised e
  | none ↦ elim r.wire [
    | none ↦ raised (runtime_error "内部解析未返回响应")
    | some bytes ↦ d.from_wire bytes >>= λ m. build_answer_from_response d r.nested_request m
  ]
]

-- `resolve` from the wait on
unfoldable pub finish_resolve :
    Dnspython → String → Wait → NestedResolver → Outcome Answer × NestedResolver
finish_resolve d id woken n = (read_reply d (n.replies id), forget id n)
finish_resolve d id timed_out n = (raised timeout_error, forget id n)
finish_resolve d id interrupted n = (raised cancelled, forget id n)
