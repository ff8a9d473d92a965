-- ===== src/Examples/Workers.antt =====
-- A pool of three workers, of which one has ended.
use python_smartdns.Prelude.{
  ℕ, true, false, none, some, [], ◌∷◌, rotate, ◌%◌, ◌⊎◌, ◌≡◌, refl, arith,
}
use python_smartdns.Outcome.{runtime_error, done, raised}
use python_smartdns.Workers.{
  Future, running, returned, broken_pool, WorkerHandle, Pool, new_call, scan_workers, next_worker,
  begin_query, has_id,
}
use python_smartdns.Workers.Answers.{ResultMessage, query_response, handle_result}
use python_smartdns.Workers.Supervision.{
  submit_worker, start_worker, start_each, start_workers, restart_loop,
  restart_finished_workers_once, begin_rebuild, rebuild, end_rebuild, fail_pending,
}
use python_smartdns.Workers.Reachable.{PoolState, PoolSteps, start, then_step, begins}
use python_smartdns.Workers.Rotation.{first_running, next_worker-eq}
use python_smartdns.Workers.Waiting.{IsReachable, PoolSteps-IsReachable}
use python_smartdns.Workers.Generations.{PoolSteps-stale}

abbrev worker_of : ℕ → ℕ → Future → WorkerHandle
worker_of id g f = record { worker_id = id; generation = g; future = f }

abbrev pool : Pool
pool = record {
  workers = worker_of 0 1 running ∷ worker_of 1 2 returned ∷ worker_of 2 3 running ∷ [];
  pending = [];
  calls = λ id. new_call;
  request_counter = 1;
  worker_counter = 4;
  generation_counter = 4;
  queues = 3;
  executor = true;
  reader = true;
  stopping = false;
  restarting = false;
}

abbrev idle_pool : PoolState
idle_pool = record { pool = pool; waiting = [] }

-- It is the turn of the worker that has ended.
next_worker-eq_example :
    next_worker pool
    ≡ (first_running (rotate (4 % 3) pool.workers), record pool { worker_counter = 5 })
next_worker-eq_example = next_worker-eq pool (omega arith)

next_is_last : (next_worker pool).0 ≡ done (worker_of 2 3 running)
unfolding next_worker scan_workers
next_is_last = refl

-- The worker that has ended is started again as a new generation.
restarted : (restart_finished_workers_once (λ id g. done running) "" pool).1 ≡ record pool {
  workers = worker_of 0 1 running ∷ worker_of 1 4 running ∷ worker_of 2 3 running ∷ [];
  generation_counter = 5;
}
unfolding restart_finished_workers_once restart_loop start_worker submit_worker
restarted = refl

abbrev broken : Pool
broken = record pool { workers = worker_of 0 1 broken_pool ∷ []; pending = 0 ∷ [] }

-- A broken pool fails the calls that wait, and is made anew.
rebuilt :
    let p : Pool =
      (restart_finished_workers_once (λ id g. done running) "worker pool broken" broken).1 in
    ((end_rebuild (λ id g. done running) 2 p).1.workers
      ≡ worker_of 0 4 running ∷ worker_of 1 5 running ∷ [])
    × ((p.calls 0).is_set ≡ true)
unfolding restart_finished_workers_once restart_loop begin_rebuild fail_pending end_rebuild rebuild
    start_workers start_each start_worker submit_worker
rebuilt = (refl, refl)

-- A call that no worker is there to take leaves its key in the pool.
left_behind :
    let p : Pool = record pool { workers = [] } in
    let m = begin_query (done []) (λ w id bytes. done tt) p in
    (m.0 ≡ raised (runtime_error "worker pool 尚未启动")) × (m.1.pending ≡ 1 ∷ [])
unfolding begin_query next_worker
left_behind = (refl, refl)

abbrev asked_pool : PoolState
asked_pool = record {
  pool = (begin_query (done []) (λ w id bytes. done tt) pool).1;
  waiting = 1 ∷ [];
}

ask : PoolSteps idle_pool asked_pool
unfolding begin_query next_worker scan_workers
ask = then_step start (begins idle_pool (done []) (λ w id bytes. done tt))

first_waits : has_id 1 asked_pool.waiting ≡ true
unfolding begin_query next_worker scan_workers
first_waits = refl

PoolSteps-IsReachable_example :
    ((asked_pool.pool.calls 1).is_set ≡ true) ⊎ IsReachable 1 asked_pool.pool
PoolSteps-IsReachable_example =
    PoolSteps-IsReachable {s = idle_pool} {t = asked_pool} 1 refl ask first_waits

abbrev stale_message : ResultMessage
stale_message = record {
  worker_id = some 1;
  generation = some 0;
  body = query_response 1 (some []) none;
}

PoolSteps-stale_example : handle_result stale_message asked_pool.pool ≡ ([], asked_pool.pool)
PoolSteps-stale_example =
    PoolSteps-stale {s = idle_pool} {t = asked_pool} 0 stale_message
      (record { past = omega arith; gone = omega arith }) ask refl
