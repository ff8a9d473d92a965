-- ===== src/Workers/Answers.antt =====
-- dns_forwarder/core/multiprocess/pool.py: what the pool does with the messages of the workers.
use python_smartdns.Prelude.{
  ℕ, String, Bool, true, false, ◌==◌, Option, none, some, List, [], ◌∷◌, if◌then◌else◌,
}
use python_smartdns.Dns.{Wire}
use python_smartdns.Workers.{WorkerHandle, Fault, text, is_truthy, Call, Pool, update_call, has_id}

pub data Body : Type 0 where
  worker_ready stop_reader : Body
  query_response : ℕ → Option Wire → Option String → Body
  resolve_request : ℕ → String → String → List (String × String) → Body
  query_log : String → Body

-- A message of the result queue; its worker and generation are `none` where they are no integers.
pub record ResultMessage : Type 0 where
  pub worker_id : Option ℕ
  pub generation : Option ℕ
  pub body : Body

unfoldable pub worker_by_id : List WorkerHandle → ℕ → Option WorkerHandle
worker_by_id [] id = none
worker_by_id (w ∷ ws) id = if w.worker_id == id then some w else worker_by_id ws id

abbrev pub has_generation : Option WorkerHandle → ℕ → Bool
has_generation none g = false
has_generation (some w) g = w.generation == g

abbrev pub is_current : List WorkerHandle → Option ℕ → Option ℕ → Bool
is_current ws none g = false
is_current ws (some id) none = false
is_current ws (some id) (some g) = has_generation (worker_by_id ws id) g

unfoldable pub is_current_worker_message : Pool → ResultMessage → Bool
is_current_worker_message p m = is_current p.workers m.worker_id m.generation

-- `holder` after an answer; the event is set.
abbrev pub after_answer : Call → Option Wire → Option Fault → Call
after_answer call wire error =
    if is_truthy error
    then record call { is_set = true; error = error }
    else record call { is_set = true; wire = wire }

abbrev pub fault_of : Option String → Option Fault
fault_of none = none
fault_of (some s) = some (text s)

unfoldable pub handle_query_response : ℕ → Option Wire → Option String → Pool → Pool
handle_query_response id wire error p =
    if has_id id p.pending
    then record p {
      calls = update_call p.calls id (after_answer (p.calls id) wire (fault_of error));
    }
    else p

-- The tasks that `_handle_result` starts.
pub data Task : Type 0 where
  handle_resolve_request handle_query_log : ResultMessage → Task

-- The branches of `_handle_result`, where `current` tells whether the message is of a current worker.
unfoldable pub route : ResultMessage → Bool → Body → Pool → List Task × Pool
route m current worker_ready p = ([], p)
route m current stop_reader p = ([], p)
route m current (query_response id wire error) p =
    ([], if current then handle_query_response id wire error p else p)
route m current (resolve_request id qname qtype chain) p =
    (if current then handle_resolve_request m ∷ [] else [], p)
route m current (query_log payload) p = (if current then handle_query_log m ∷ [] else [], p)

-- `_handle_result`, once the pool has its task group
unfoldable pub handle_result : ResultMessage → Pool → List Task × Pool
unfolding route
handle_result m p = route m (is_current_worker_message p m) m.body p
