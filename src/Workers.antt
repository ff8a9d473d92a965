-- ===== src/Workers.antt =====
-- dns_forwarder/core/multiprocess/pool.py: `MultiprocessWorkerPool`, the processes that serve the
-- queries. The futures of the executor and its queues are outside: what they do is an argument.
pub mod Answers
pub mod Rotation
pub mod Reachable
mod Keeps
pub mod Relay
pub mod Waiting
pub mod Generations
pub mod Supervision
use python_smartdns.Prelude.{
  ℕ, zero, suc, ◌+◌, ◌%◌, String, str_eq, Bool, true, false, not, ◌&&◌, ◌||◌, ◌==◌, Option, none,
  some, List, [], ◌∷◌, get_elem?, length, filterb, if◌then◌else◌,
}
use python_smartdns.Outcome.{
  Exn, cancelled, timeout_error, runtime_error, index_error, type_error, Outcome, done, raised,
}
use python_smartdns.Exec.{Exec, pure, raise, get, lift, modify, continue, ◌>>=◌, ◌>>◌}
use python_smartdns.Dns.{Message, Wire}

-- `worker.future`, by what its `result()` does.
pub data Future : Type 0 where
  running returned broken_pool : Future
  has_failed : Exn → Future

abbrev pub is_done : Future → Bool
is_done running = false
is_done f = true

pub record WorkerHandle : Type 0 where
  pub worker_id : ℕ
  pub generation : ℕ
  pub future : Future

-- `holder["error"]`: a text that a worker sent, or an exception of the pool with its message.
pub data Fault : Type 0 where
  text : String → Fault
  exception : String → Fault

abbrev pub is_truthy : Option Fault → Bool
is_truthy none = false
is_truthy (some (text s)) = not (str_eq s "")
is_truthy (some (exception s)) = true

-- `str(holder["error"])`
abbrev pub message_of : Option Fault → String
message_of none = "None"
message_of (some (text s)) = s
message_of (some (exception s)) = s

-- The event and the holder of a call of `process_query`.
pub record Call : Type 0 where
  pub is_set : Bool
  pub wire : Option Wire
  pub error : Option Fault

-- `pending` has the keys of `_pending`; `calls` has the event and the holder that were made for each
-- request, also when its key is no longer there. `executor` and `reader` tell whether there is one.
pub record Pool : Type 0 where
  pub workers : List WorkerHandle
  pub pending : List ℕ
  pub calls : ℕ → Call
  pub request_counter : ℕ
  pub worker_counter : ℕ
  pub generation_counter : ℕ
  pub queues : ℕ
  pub executor : Bool
  pub reader : Bool
  pub stopping : Bool
  pub restarting : Bool

abbrev pub Workers : Type 0 → Type 0
Workers A = Exec Pool A

-- The loop of `_next_worker`, with `left` offsets to go.
unfoldable pub scan_workers : List WorkerHandle → ℕ → ℕ → ℕ → Outcome WorkerHandle
scan_workers ws start offset zero = raised (runtime_error "没有可用 worker")
scan_workers ws start offset (suc left) =
    let rest = scan_workers ws start (suc offset) left in
    elim (get_elem? ws ((start + offset) % length ws)) [
      | none ↦ raised index_error
      | some w ↦ if is_done w.future then rest else done w
    ]

unfoldable pub pick_worker : List WorkerHandle → Workers WorkerHandle
pick_worker [] p = (raised (runtime_error "worker pool 尚未启动"), p)
pick_worker (w ∷ ws) p = (
  scan_workers (w ∷ ws) p.worker_counter 0 (length (w ∷ ws)),
  record p { worker_counter = suc p.worker_counter },
)

unfoldable pub next_worker : Workers WorkerHandle
unfolding pick_worker
next_worker p = pick_worker p.workers p

abbrev pub update_call : (ℕ → Call) → ℕ → Call → ℕ → Call
update_call calls id call i = if i == id then call else calls i

abbrev pub remove_id : ℕ → List ℕ → List ℕ
remove_id id ids = filterb (λ i. not (i == id)) ids

abbrev pub has_id : ℕ → List ℕ → Bool
has_id id [] = false
has_id id (i ∷ ids) = i == id || has_id id ids

abbrev pub new_call : Call
new_call = record { is_set = false; wire = none; error = none }

abbrev pub pop_pending : ℕ → Pool → Pool
pop_pending id p = record p { pending = remove_id id p.pending }

-- `finally: self._pending.pop(request_id, None)` where the call goes on waiting if nothing is raised.
abbrev pub or_pop : ℕ → Outcome (Unit {0}) → Workers ℕ
or_pop id (done u) p = (done id, p)
or_pop id (raised e) p = (raised e, pop_pending id p)

-- `process_query` up to the wait: `wire` is what `to_wire` does, and `put` is the `put_nowait` of a
-- worker's queue.
unfoldable pub begin_query :
    Outcome Wire → (WorkerHandle → ℕ → Wire → Outcome (Unit {0})) → Workers ℕ
begin_query wire put = do
  p ← get
  let id = p.request_counter
  modify (λ q. record q {
    request_counter = suc q.request_counter;
    calls = update_call q.calls id new_call;
    pending = id ∷ q.pending;
  })
  worker ← next_worker
  or_pop id (elim wire [ done bytes ↦ put worker id bytes | raised e ↦ raised e ])

-- How the wait for the event ends.
pub data Wait : Type 0 where
  woken timed_out interrupted : Wait

-- What `process_query` makes of the holder.
unfoldable pub read_call : (Wire → Outcome Message) → Call → Outcome (Option Message)
read_call from_wire call =
    if is_truthy call.error
    then raised (runtime_error (message_of call.error))
    else elim call.wire [
      | none ↦ done none
      | some wire ↦ elim (from_wire wire) [ done m ↦ done (some m) | raised e ↦ raised e ]
    ]

-- `process_query` from the wait on.
unfoldable pub finish_query : (Wire → Outcome Message) → ℕ → Wait → Workers (Option Message)
finish_query from_wire id woken p = (read_call from_wire (p.calls id), pop_pending id p)
finish_query from_wire id timed_out p = (raised timeout_error, pop_pending id p)
finish_query from_wire id interrupted p = (raised cancelled, pop_pending id p)
