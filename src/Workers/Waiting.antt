-- ===== src/Workers/Waiting.antt =====
-- dns_forwarder/core/multiprocess/pool.py: the event of every call of `process_query` that waits is set,
-- or still reached by a response.
use python_smartdns.Prelude.{
  ℕ, suc, ◌<◌, ◌⊎◌, String, Bool, true, false, not, ◌&&◌, ◌||◌, ◌==◌, Bool-cases, Option, List, [],
  ◌∷◌, ◌≡◌, refl, inl, inr, arith,
}
use python_smartdns.Outcome.{Outcome, done, raised}
use python_smartdns.Exec.{continue}
use python_smartdns.Dns.{Wire}
use python_smartdns.Workers.{
  WorkerHandle, Pool, pick_worker, next_worker, update_call, remove_id, has_id, new_call,
  pop_pending, or_pop, begin_query, finish_query,
}
use python_smartdns.Workers.Answers.{
  Body, worker_ready, stop_reader, query_response, resolve_request, query_log, ResultMessage, route,
  handle_query_response, handle_result,
}
use python_smartdns.Workers.Supervision.{fail_pending}
use python_smartdns.Workers.Keeps.{
  Invariant, end_rebuild_keeps, restart_keeps, begin_stop_keeps, end_stop_keeps,
}
use python_smartdns.Workers.Reachable.{
  PoolState, join, PoolStep, begins, wakes, gives_up, is_cancelled, receives, supervises, rebuilds,
  stops, has_stopped, PoolSteps, start, then_step,
}

-- Each of the calls is known to the pool under its identifier, or its event is set.
pub record IsHeard (ids : List ℕ) (p : Pool) : Type 0 where
  pub known : (id : ℕ) → has_id id ids ≡ true → id < p.request_counter
  pub heard : (id : ℕ) → has_id id ids ≡ true → (has_id id p.pending || (p.calls id).is_set) ≡ true

has_id-remove_id :
    (j id : ℕ) (ids : List ℕ) → has_id j (remove_id id ids) ≡ (has_id j ids && not (j == id))
has_id-remove_id j id [] = refl
has_id-remove_id j id (i ∷ ids) = ground (arith, has_id-remove_id j id ids)

fail_pending-IsHeard :
    (ids : List ℕ) (p : Pool) (message : String)
    → IsHeard ids p
    → IsHeard ids (fail_pending message p)
unfolding fail_pending
fail_pending-IsHeard ids p message h = record {
  known = h.known;
  heard = λ id m. ground (arith, h.heard id m);
}

IsHeard-Invariant : (ids : List ℕ) → Invariant (IsHeard ids) (λ v. Unit {0})
IsHeard-Invariant ids = record {
  numbered = λ p id f h. tt;
  counted = λ p h. record { known = h.known; heard = h.heard };
  replaced = λ p i v h g. record { known = h.known; heard = h.heard };
  installed = λ p ws h g. record { known = h.known; heard = h.heard };
  failed_all = λ p message h. fail_pending-IsHeard ids p message h;
  flagged = λ p a b c d e h. record { known = h.known; heard = h.heard };
}

next_worker-IsHeard : (ids : List ℕ) (p : Pool) → IsHeard ids p → IsHeard ids (next_worker p).1
unfolding next_worker
next_worker-IsHeard ids p h = go p.workers
  where
    go : (ws : List WorkerHandle) → IsHeard ids (pick_worker ws p).1
    go [] = h
    go (w ∷ ws) = record { known = h.known; heard = h.heard }

pop_pending-IsHeard :
    (id : ℕ) (ids : List ℕ) (p : Pool)
    → IsHeard ids p
    → IsHeard (remove_id id ids) (pop_pending id p)
pop_pending-IsHeard id ids p h = record {
  known = λ j m. h.known j (ground (arith, has_id-remove_id j id ids));
  heard = λ j m.
      let k : has_id j ids ≡ true = ground (arith, has_id-remove_id j id ids) in
      ground (arith, h.heard j k, has_id-remove_id j id ids, has_id-remove_id j id p.pending);
}

-- A call that does not get through to the wait leaves its identifier to nobody.
forgets-IsHeard : (id : ℕ) (ids : List ℕ) (p : Pool) → IsHeard (id ∷ ids) p → IsHeard ids p
forgets-IsHeard id ids p h = record {
  known = λ j m. h.known j (ground (arith, m));
  heard = λ j m. h.heard j (ground (arith, m));
}

pops-IsHeard :
    (id : ℕ) (ids : List ℕ) (p : Pool)
    → has_id id ids ≡ false
    → IsHeard ids p
    → IsHeard ids (pop_pending id p)
pops-IsHeard id ids p f h = record {
  known = h.known;
  heard = λ j m.
      let other : (j == id) ≡ false = differs j m in
      ground (arith, h.heard j m, has_id-remove_id j id p.pending);
}
  where
    differs : (j : ℕ) → has_id j ids ≡ true → (j == id) ≡ false
    differs j m = elim (Bool-cases (j == id)) [
      | inl e ↦ let k : j ≡ id = ground (arith, e) in cc (k, m, f)
      | inr e ↦ e
    ]

module _ (wire : Outcome Wire) (put : WorkerHandle → ℕ → Wire → Outcome (Unit {0})) where
  queued : WorkerHandle → ℕ → Outcome (Unit {0})
  queued w id = elim wire [ done bytes ↦ put w id bytes | raised e ↦ raised e ]

  begun :
      (id : ℕ) (ids : List ℕ) (r : Outcome WorkerHandle) (p : Pool)
      → has_id id ids ≡ false
      → IsHeard (id ∷ ids) p
      → let m = continue r (λ w. or_pop id (queued w id)) p in IsHeard (join m.0 ids) m.1
  unfolding queued
  begun id ids (raised e) p f h = forgets-IsHeard id ids p h
  begun id ids (done w) p f h = go (queued w id)
    where
      go : (r : Outcome (Unit {0})) → IsHeard (join (or_pop id r p).0 ids) (or_pop id r p).1
      go (done u) = h
      go (raised e) = pops-IsHeard id ids p f (forgets-IsHeard id ids p h)

  begin_query-IsHeard :
      (ids : List ℕ) (p : Pool)
      → IsHeard ids p
      → let m = begin_query wire put p in IsHeard (join m.0 ids) m.1
  unfolding begin_query queued
  begin_query-IsHeard ids p h = begun id ids (next_worker q).0 (next_worker q).1 unknown (
      next_worker-IsHeard (id ∷ ids) q (record {
        known = λ j m. ground (arith, m, h.known j);
        heard = λ j m. ground (arith, m, h.heard j);
      }))
    where
      id : ℕ
      id = p.request_counter

      q : Pool
      q = record p {
        request_counter = suc p.request_counter;
        calls = update_call p.calls id new_call;
        pending = id ∷ p.pending;
      }

      unknown : has_id id ids ≡ false
      unknown = elim (Bool-cases (has_id id ids)) [
        | inl e ↦ absurd (omega (arith, h.known id e))
        | inr e ↦ e
      ]

handle_query_response-IsHeard :
    (id : ℕ) (wire : Option Wire) (error : Option String) (ids : List ℕ) (p : Pool)
    → IsHeard ids p
    → IsHeard ids (handle_query_response id wire error p)
unfolding handle_query_response
handle_query_response-IsHeard id wire error ids p h = elim (Bool-cases (has_id id p.pending)) [
  | inl e ↦ rw e (record { known = h.known; heard = λ j m. ground (arith, h.heard j m) })
  | inr e ↦ rw e h
]

route-IsHeard :
    (m : ResultMessage) (current : Bool) (b : Body) (ids : List ℕ) (p : Pool)
    → IsHeard ids p
    → IsHeard ids (route m current b p).1
unfolding route
route-IsHeard m current worker_ready ids p h = h
route-IsHeard m current stop_reader ids p h = h
route-IsHeard m true (query_response id wire error) ids p h =
    handle_query_response-IsHeard id wire error ids p h
route-IsHeard m false (query_response id wire error) ids p h = h
route-IsHeard m current (resolve_request id qname qtype chain) ids p h = h
route-IsHeard m current (query_log payload) ids p h = h

PoolStep-IsHeard :
    {s t : PoolState} → PoolStep s t → IsHeard s.waiting s.pool → IsHeard t.waiting t.pool
unfolding finish_query handle_result
PoolStep-IsHeard (begins s wire put) h = begin_query-IsHeard wire put s.waiting s.pool h
PoolStep-IsHeard (wakes s from_wire id e) h = pop_pending-IsHeard id s.waiting s.pool h
PoolStep-IsHeard (gives_up s from_wire id) h = pop_pending-IsHeard id s.waiting s.pool h
PoolStep-IsHeard (is_cancelled s from_wire id) h = pop_pending-IsHeard id s.waiting s.pool h
PoolStep-IsHeard (receives s m) h = route-IsHeard m _ m.body s.waiting s.pool h
PoolStep-IsHeard (supervises s submit message) h =
    restart_keeps (IsHeard-Invariant s.waiting) submit message s.pool h
PoolStep-IsHeard (rebuilds s submit count) h =
    end_rebuild_keeps (IsHeard-Invariant s.waiting) submit count s.pool h
PoolStep-IsHeard (stops s) h = begin_stop_keeps (IsHeard-Invariant s.waiting) s.pool h
PoolStep-IsHeard (has_stopped s) h = end_stop_keeps (IsHeard-Invariant s.waiting) s.pool h

PoolSteps-IsHeard : {s t : PoolState} → s.waiting ≡ [] → PoolSteps s t → IsHeard t.waiting t.pool
PoolSteps-IsHeard {s} e start = record {
  known = λ id m. absurd (cc (m, e));
  heard = λ id m. absurd (cc (m, e));
}
PoolSteps-IsHeard e (then_step r st) = PoolStep-IsHeard st (PoolSteps-IsHeard e r)

-- The event of a call is set by a response of a current worker, whatever is in it, and where the
-- pending calls are failed.
pub record IsReachable (id : ℕ) (p : Pool) : Type 0 where
  pub pending : has_id id p.pending ≡ true
  pub by_response :
      (m : ResultMessage) (wire : Option Wire) (error : Option String)
      → ((route m true (query_response id wire error) p).1.calls id).is_set ≡ true
  pub by_failure : (message : String) → ((fail_pending message p).calls id).is_set ≡ true

pending-IsReachable : (id : ℕ) (p : Pool) → has_id id p.pending ≡ true → IsReachable id p
unfolding route handle_query_response fail_pending
pending-IsReachable id p h = record {
  pending = h;
  by_response = λ m wire error. rw h (ground arith);
  by_failure = λ message. rw h refl;
}

-- Whatever the pool has been through since no call was waiting (calls, messages in any order,
-- restarts, a rebuild, a stop): the event of each call of `process_query` that waits is set, or a
-- response of a current worker for it sets the event, and so does `fail_pending`, which the pool runs
-- before it is rebuilt and when it stops. That a worker responds is not stated.
pub PoolSteps-IsReachable :
    {s t : PoolState} (id : ℕ)
    → s.waiting ≡ []
    → PoolSteps s t
    → has_id id t.waiting ≡ true
    → ((t.pool.calls id).is_set ≡ true) ⊎ IsReachable id t.pool
PoolSteps-IsReachable {s} {t} id e steps m = elim (Bool-cases (t.pool.calls id).is_set) [
  | inl set ↦ inl set
  | inr unset ↦
      let heard = (PoolSteps-IsHeard e steps).heard id m in
      inr (pending-IsReachable id t.pool (ground (arith, heard, unset)))
]
