-- ===== src/Workers/Generations.antt =====
-- dns_forwarder/core/multiprocess/pool.py: messages of workers that were replaced.
use python_smartdns.Prelude.{
  ℕ, zero, suc, ◌<◌, String, Bool, true, false, ◌==◌, Bool-cases, Option, none, some, List, [], ◌∷◌,
  All, set, ◌≡◌, ◌≢◌, refl, sym, ap, ◌∙◌, inl, inr, arith,
}
use python_smartdns.Outcome.{Outcome, done, raised}
use python_smartdns.Exec.{continue}
use python_smartdns.Dns.{Wire}
use python_smartdns.Workers.{
  WorkerHandle, Pool, has_id, update_call, new_call, pop_pending, pick_worker, next_worker, or_pop,
  begin_query, finish_query,
}
use python_smartdns.Workers.Answers.{
  Body, worker_ready, stop_reader, query_response, resolve_request, query_log, ResultMessage,
  worker_by_id, has_generation, is_current, is_current_worker_message, handle_query_response, route,
  handle_result,
}
use python_smartdns.Workers.Supervision.{fail_pending}
use python_smartdns.Workers.Keeps.{
  Invariant, end_rebuild_keeps, restart_keeps, begin_stop_keeps, end_stop_keeps,
}
use python_smartdns.Workers.Reachable.{
  PoolState, PoolStep, begins, wakes, gives_up, is_cancelled, receives, supervises, rebuilds, stops,
  has_stopped, PoolSteps, start, then_step,
}

-- A generation that was given out, and that no worker of the pool has.
pub record IsGone (g : ℕ) (p : Pool) : Type 0 where
  pub past : g < p.generation_counter
  pub gone : All (λ w. w.generation ≢ g) p.workers

All-set :
    (g i : ℕ) (v : WorkerHandle) (ws : List WorkerHandle)
    → v.generation ≢ g
    → All (λ w. w.generation ≢ g) ws
    → All (λ w. w.generation ≢ g) (set ws i v)
All-set g i v [] n h = tt
All-set g zero v (w ∷ ws) n h = (n, h.1)
All-set g (suc i) v (w ∷ ws) n h = (h.0, All-set g i v ws n h.1)

fail_pending-IsGone :
    (g : ℕ) (p : Pool) (message : String) → IsGone g p → IsGone g (fail_pending message p)
unfolding fail_pending
fail_pending-IsGone g p message h = record { past = h.past; gone = h.gone }

IsGone-Invariant : (g : ℕ) → Invariant (IsGone g) (λ v. v.generation ≢ g)
IsGone-Invariant g = record {
  numbered = λ p id f h e. omega (arith, h.past);
  counted = λ p h. record { past = omega (arith, h.past); gone = h.gone };
  replaced = λ p i v h n. record { past = h.past; gone = All-set g i v p.workers n h.gone };
  installed = λ p ws h a. record { past = h.past; gone = a };
  failed_all = λ p message h. fail_pending-IsGone g p message h;
  flagged = λ p a b c d e h. record { past = h.past; gone = h.gone };
}

-- What a call or a message leaves of the pool.
pub record SameWorkers (p q : Pool) : Type 0 where
  pub workers : p.workers ≡ q.workers
  pub counter : p.generation_counter ≡ q.generation_counter

IsGone-Same : (g : ℕ) (p q : Pool) → SameWorkers p q → IsGone g p → IsGone g q
IsGone-Same g p q s h = record {
  past = omega (arith, h.past, s.counter);
  gone = rw (sym s.workers) h.gone;
}

begin_query-SameWorkers :
    (wire : Outcome Wire) (put : WorkerHandle → ℕ → Wire → Outcome (Unit {0})) (p : Pool)
    → SameWorkers p (begin_query wire put p).1
unfolding begin_query next_worker
begin_query-SameWorkers wire put p = go p.workers
  where
    id : ℕ
    id = p.request_counter

    q : Pool
    q = record p {
      request_counter = suc p.request_counter;
      calls = update_call p.calls id new_call;
      pending = id ∷ p.pending;
    }

    queued : WorkerHandle → Outcome (Unit {0})
    queued w = elim wire [ done bytes ↦ put w id bytes | raised e ↦ raised e ]

    popped : (r : Outcome (Unit {0})) (t : Pool) → SameWorkers p t → SameWorkers p (or_pop id r t).1
    popped (done u) t s = s
    popped (raised e) t s = record { workers = s.workers; counter = s.counter }

    picked :
        (r : Outcome WorkerHandle) (t : Pool)
        → SameWorkers p t
        → SameWorkers p (continue r (λ w. or_pop id (queued w)) t).1
    picked (done w) t s = popped (queued w) t s
    picked (raised e) t s = s

    go :
        (ws : List WorkerHandle)
        → let m = pick_worker ws q in SameWorkers p (continue m.0 (λ w. or_pop id (queued w)) m.1).1
    go [] = picked (pick_worker [] q).0 q (record { workers = refl; counter = refl })
    go (w ∷ ws) =
        picked (pick_worker (w ∷ ws) q).0 (pick_worker (w ∷ ws) q).1
          (record { workers = refl; counter = refl })

route-SameWorkers :
    (m : ResultMessage) (current : Bool) (b : Body) (p : Pool)
    → SameWorkers p (route m current b p).1
unfolding route handle_query_response
route-SameWorkers m current worker_ready p = record { workers = refl; counter = refl }
route-SameWorkers m current stop_reader p = record { workers = refl; counter = refl }
route-SameWorkers m true (query_response id wire error) p =
    elim (Bool-cases (has_id id p.pending)) [
      | inl e ↦ rw e (record { workers = refl; counter = refl })
      | inr e ↦ rw e (record { workers = refl; counter = refl })
    ]
route-SameWorkers m false (query_response id wire error) p = record {
  workers = refl;
  counter = refl;
}
route-SameWorkers m current (resolve_request id qname qtype chain) p = record {
  workers = refl;
  counter = refl;
}
route-SameWorkers m current (query_log payload) p = record { workers = refl; counter = refl }

-- No worker is found under the generation.
worker_by_id-gone :
    (g id : ℕ) (ws : List WorkerHandle)
    → All (λ w. w.generation ≢ g) ws
    → has_generation (worker_by_id ws id) g ≡ false
unfolding worker_by_id
worker_by_id-gone g id [] h = refl
worker_by_id-gone g id (w ∷ ws) h = elim (Bool-cases (w.worker_id == id)) [
  | inl e ↦ rw e (differs w.generation h.0)
  | inr e ↦ rw e (worker_by_id-gone g id ws h.1)
]
  where
    differs : (k : ℕ) → k ≢ g → (k == g) ≡ false
    differs k n = elim (Bool-cases (k == g)) [ inl e ↦ absurd (n (ground (arith, e))) | inr e ↦ e ]

is_current-gone :
    (g : ℕ) (ws : List WorkerHandle) (id generation : Option ℕ)
    → All (λ w. w.generation ≢ g) ws
    → generation ≡ some g
    → is_current ws id generation ≡ false
is_current-gone g ws none generation h e = refl
is_current-gone g ws (some id) generation h e = rw e (worker_by_id-gone g id ws h)

route-not_current : (m : ResultMessage) (b : Body) (p : Pool) → route m false b p ≡ ([], p)
unfolding route
route-not_current m worker_ready p = refl
route-not_current m stop_reader p = refl
route-not_current m (query_response id wire error) p = refl
route-not_current m (resolve_request id qname qtype chain) p = refl
route-not_current m (query_log payload) p = refl

handle_result-gone :
    (g : ℕ) (m : ResultMessage) (p : Pool)
    → IsGone g p
    → m.generation ≡ some g
    → handle_result m p ≡ ([], p)
unfolding handle_result is_current_worker_message
handle_result-gone g m p h e =
    let f = is_current-gone g p.workers m.worker_id m.generation h.gone e in
    ap (λ b. route m b m.body p) f ∙ route-not_current m m.body p

popped-IsGone : (g id : ℕ) (p : Pool) → IsGone g p → IsGone g (pop_pending id p)
popped-IsGone g id p h = record { past = h.past; gone = h.gone }

PoolStep-IsGone : {s t : PoolState} (g : ℕ) → PoolStep s t → IsGone g s.pool → IsGone g t.pool
unfolding finish_query handle_result
PoolStep-IsGone g (begins s wire put) h =
    IsGone-Same g s.pool _ (begin_query-SameWorkers wire put s.pool) h
PoolStep-IsGone g (wakes s from_wire id e) h = popped-IsGone g id s.pool h
PoolStep-IsGone g (gives_up s from_wire id) h = popped-IsGone g id s.pool h
PoolStep-IsGone g (is_cancelled s from_wire id) h = popped-IsGone g id s.pool h
PoolStep-IsGone g (receives s m) h = IsGone-Same g s.pool _ (route-SameWorkers m _ m.body s.pool) h
PoolStep-IsGone g (supervises s submit message) h =
    restart_keeps (IsGone-Invariant g) submit message s.pool h
PoolStep-IsGone g (rebuilds s submit count) h =
    end_rebuild_keeps (IsGone-Invariant g) submit count s.pool h
PoolStep-IsGone g (stops s) h = begin_stop_keeps (IsGone-Invariant g) s.pool h
PoolStep-IsGone g (has_stopped s) h = end_stop_keeps (IsGone-Invariant g) s.pool h

PoolSteps-IsGone : {s t : PoolState} (g : ℕ) → IsGone g s.pool → PoolSteps s t → IsGone g t.pool
PoolSteps-IsGone g h start = h
PoolSteps-IsGone g h (then_step r st) = PoolStep-IsGone g st (PoolSteps-IsGone g h r)

-- Once a generation that was given out has no worker any more, no message that carries it does
-- anything, however long the pool goes on: it starts no task and answers no call, since the
-- number is never given out again.
pub PoolSteps-stale :
    {s t : PoolState} (g : ℕ) (m : ResultMessage)
    → IsGone g s.pool
    → PoolSteps s t
    → m.generation ≡ some g
    → handle_result m t.pool ≡ ([], t.pool)
PoolSteps-stale {t = t} g m h r e = handle_result-gone g m t.pool (PoolSteps-IsGone g h r) e
