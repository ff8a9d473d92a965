-- ===== src/Workers/Reachable.antt =====
-- dns_forwarder/core/multiprocess/pool.py: the calls and the messages that change the pool, in any
-- order. Each step runs from one await to the next.
use python_smartdns.Prelude.{ℕ, true, List, ◌∷◌, String, ◌≡◌}
use python_smartdns.Outcome.{Outcome, done, raised}
use python_smartdns.Dns.{Message, Wire}
use python_smartdns.Workers.{
  WorkerHandle, Pool, woken, timed_out, interrupted, begin_query, finish_query, remove_id,
}
use python_smartdns.Workers.Answers.{ResultMessage, handle_result}
use python_smartdns.Workers.Supervision.{
  Submit, restart_finished_workers_once, end_rebuild, begin_stop, end_stop,
}

-- A pool, and the calls of `process_query` that wait for their event.
pub record PoolState : Type 0 where
  pub pool : Pool
  pub waiting : List ℕ

-- A call waits if it got through to the wait.
abbrev pub join : Outcome ℕ → List ℕ → List ℕ
join (done id) ids = id ∷ ids
join (raised e) ids = ids

pub data PoolStep : PoolState → PoolState → Type 0 where
  begins :
      (s : PoolState) (wire : Outcome Wire) (put : WorkerHandle → ℕ → Wire → Outcome (Unit {0}))
      → PoolStep s (record {
        pool = (begin_query wire put s.pool).1;
        waiting = join (begin_query wire put s.pool).0 s.waiting;
      })
  wakes :
      (s : PoolState) (from_wire : Wire → Outcome Message) (id : ℕ)
      → (s.pool.calls id).is_set ≡ true
      → PoolStep s (record {
        pool = (finish_query from_wire id woken s.pool).1;
        waiting = remove_id id s.waiting;
      })
  gives_up :
      (s : PoolState) (from_wire : Wire → Outcome Message) (id : ℕ)
      → PoolStep s (record {
        pool = (finish_query from_wire id timed_out s.pool).1;
        waiting = remove_id id s.waiting;
      })
  is_cancelled :
      (s : PoolState) (from_wire : Wire → Outcome Message) (id : ℕ)
      → PoolStep s (record {
        pool = (finish_query from_wire id interrupted s.pool).1;
        waiting = remove_id id s.waiting;
      })
  receives :
      (s : PoolState) (m : ResultMessage)
      → PoolStep s (record s { pool = (handle_result m s.pool).1 })
  supervises :
      (s : PoolState) (submit : Submit) (message : String)
      → PoolStep s (record s { pool = (restart_finished_workers_once submit message s.pool).1 })
  rebuilds :
      (s : PoolState) (submit : Submit) (count : ℕ)
      → PoolStep s (record s { pool = (end_rebuild submit count s.pool).1 })
  stops : (s : PoolState) → PoolStep s (record s { pool = begin_stop s.pool })
  has_stopped : (s : PoolState) → PoolStep s (record s { pool = end_stop s.pool })

pub data PoolSteps (s : PoolState) : PoolState → Type 0 where
  start : PoolSteps s s
  then_step : {t u : PoolState} → PoolSteps s t → PoolStep t u → PoolSteps s u
