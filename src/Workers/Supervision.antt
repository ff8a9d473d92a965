-- ===== src/Workers/Supervision.antt =====
-- dns_forwarder/core/multiprocess/pool.py: how the pool starts its workers, restarts those that have
-- ended, rebuilds itself and stops.
use python_smartdns.Prelude.{
  ℕ, zero, suc, String, Bool, true, false, ◌||◌, ltb, set, some, List, [], ◌∷◌, if◌then◌else◌,
}
use python_smartdns.Outcome.{runtime_error, index_error, Outcome, done, raised}
use python_smartdns.Exec.{pure, get, lift, modify, continue, ◌>>=◌, ◌>>◌}
use python_smartdns.Workers.{
  Future, running, returned, has_failed, broken_pool, WorkerHandle, exception, Call, Pool, Workers,
  has_id,
}

-- `executor.submit(worker_entry, worker_id, generation)`
abbrev pub Submit : Type 0
Submit = ℕ → ℕ → Outcome Future

-- The event of every pending call is set, with the exception in its holder.
abbrev pub fail_calls : List ℕ → String → (ℕ → Call) → ℕ → Call
fail_calls ids message calls i =
    if has_id i ids
    then record (calls i) { is_set = true; error = some (exception message) }
    else calls i

unfoldable pub fail_pending : String → Pool → Pool
fail_pending message p = record p { calls = fail_calls p.pending message p.calls; pending = [] }

module _ (submit : Submit) where
  -- The number of the generation, and the task of the executor.
  unfoldable pub submit_worker : ℕ → Workers WorkerHandle
  submit_worker worker_id p =
      continue (submit worker_id p.generation_counter)
        (λ future.
          pure
            (record { worker_id = worker_id; generation = p.generation_counter; future = future }))
        (record p { generation_counter = suc p.generation_counter })

  unfoldable pub start_worker : ℕ → Workers WorkerHandle
  start_worker worker_id = do
    p ← get
    lift (if p.executor then done tt else raised (runtime_error "worker executor 尚未启动"))
    lift (if ltb worker_id p.queues then done tt else raised index_error)
    submit_worker worker_id

  -- The comprehension of `_start_workers`
  unfoldable pub start_each : ℕ → ℕ → Workers (List WorkerHandle)
  start_each id zero = pure []
  start_each id (suc left) = do w ← start_worker id; ws ← start_each (suc id) left; pure (w ∷ ws)

  unfoldable pub start_workers : ℕ → Workers (Unit {0})
  start_workers count = do ws ← start_each 0 count; modify (λ q. record q { workers = ws })

  -- `_restart_broken_pool` up to its first await
  unfoldable pub begin_rebuild : String → Workers (Unit {0})
  begin_rebuild message = do
    p ← get
    if p.restarting || p.stopping
        then pure tt
        else modify (λ q. fail_pending message (record q { restarting = true }))

  -- The rest of `_restart_broken_pool`: the reader and the executor are gone, new ones are made.
  unfoldable pub rebuild : ℕ → Workers (Unit {0})
  rebuild count = do
    modify (λ q. record q { executor = false; queues = 0; workers = []; reader = false })
    modify (λ q. record q { queues = count; executor = true })
    start_workers count
    modify (λ q. record q { reader = true })

  -- `finally: self._restarting = False`
  unfoldable pub end_rebuild : ℕ → Workers (Unit {0})
  end_rebuild count p = let (r, q) = rebuild count p in (r, record q { restarting = false })

  -- The loop of `_restart_finished_workers_once` over the workers as they were, from an index on.
  -- Where the pool is broken the loop ends, and `end_rebuild` comes later.
  unfoldable pub restart_loop : String → ℕ → List WorkerHandle → Workers (Unit {0})
  restart_loop message index [] = pure tt
  restart_loop message index (w ∷ ws) =
      let rest = restart_loop message (suc index) ws in
      let again : Workers (Unit {0}) = do
        p ← get
        if p.restarting || p.stopping then pure tt else (do
          v ← start_worker w.worker_id
          modify (λ q. record q { workers = set q.workers index v })
          rest)
      in elim w.future [
        | running ↦ rest
        | broken_pool ↦ begin_rebuild message
        | returned ↦ again
        | has_failed e ↦ again
      ]

  unfoldable pub restart_finished_workers_once : String → Workers (Unit {0})
  restart_finished_workers_once message = do
    p ← get
    if p.restarting || p.stopping then pure tt else restart_loop message 0 p.workers

-- `stop` up to its first await, and from the end of the executor on
unfoldable pub begin_stop : Pool → Pool
begin_stop p = record p { stopping = true }

unfoldable pub end_stop : Pool → Pool
end_stop p =
    record (fail_pending "worker pool stopped" (record p { executor = false; workers = [] })) {
      reader = false;
      queues = 0;
    }

-- What `_stop_executor` does to the executor after each wait for the workers.
pub data Action : Type 0 where
  terminate_workers kill_workers shutdown : Action

-- `late` and `very_late` tell whether a worker runs on after the first wait and after `terminate`.
unfoldable pub stop_executor : Bool → Bool → List Action
stop_executor late very_late =
    if late
    then (if very_late then terminate_workers ∷ kill_workers ∷ [] else terminate_workers ∷ [])
    else shutdown ∷ []
