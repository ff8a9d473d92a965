-- ===== src/Workers/Keeps.antt =====
-- dns_forwarder/core/multiprocess/pool.py: what holds of the pool whatever the supervision does, from
-- what its single writes keep.
use python_smartdns.Prelude.{
  ℕ, zero, suc, ltb, String, Bool, true, false, ◌||◌, List, [], ◌∷◌, All, set, if◌then◌else◌,
}
use python_smartdns.Outcome.{runtime_error, index_error, Outcome, done, raised}
use python_smartdns.Exec.{pure, get, lift, modify, continue, ◌>>=◌, ◌>>◌}
use python_smartdns.Exec.Ensures.{Post, Always, Whatever}
use python_smartdns.Workers.{
  Future, running, returned, has_failed, broken_pool, WorkerHandle, Pool, Workers,
}
use python_smartdns.Workers.Supervision.{
  Submit, fail_pending, submit_worker, start_worker, start_each, start_workers, begin_rebuild,
  rebuild, end_rebuild, restart_loop, restart_finished_workers_once, begin_stop, end_stop,
}

-- An invariant of the pool, and a property of the workers that are started under it.
pub record Invariant (I : Pool → Type 0) (G : WorkerHandle → Type 0) : Type 0 where
  pub numbered :
      (p : Pool) (id : ℕ) (f : Future)
      → I p
      → G (record { worker_id = id; generation = p.generation_counter; future = f })
  pub counted : (p : Pool) → I p → I (record p { generation_counter = suc p.generation_counter })
  pub replaced :
      (p : Pool) (i : ℕ) (v : WorkerHandle)
      → I p
      → G v
      → I (record p { workers = set p.workers i v })
  pub installed :
      (p : Pool) (ws : List WorkerHandle) → I p → All G ws → I (record p { workers = ws })
  pub failed_all : (p : Pool) (message : String) → I p → I (fail_pending message p)
  pub flagged :
      (p : Pool) (queues : ℕ) (executor reader stopping restarting : Bool)
      → I p
      → I (record p {
        queues = queues;
        executor = executor;
        reader = reader;
        stopping = stopping;
        restarting = restarting;
      })

module _ (I : Pool → Type 0) where
  pub record Keeps {A : Type 0} (P : A → Type 0) (m : Workers A) : Type 0 where
    pub at : (p : Pool) → I p → I (m p).1 × Post P Whatever (m p).0

module _ {I : Pool → Type 0} where
  Keeps-pure : {A : Type 0} (P : A → Type 0) (a : A) → P a → Keeps I P (pure a)
  Keeps-pure P a h = record { at = λ p i. (i, h) }

  Keeps-lift : {A : Type 0} (r : Outcome A) → Keeps I Always (lift r)
  Keeps-lift {A} r = record { at = λ p i. (i, post r) }
    where
      post : (r : Outcome A) → Post Always Whatever r
      post (done a) = tt
      post (raised e) = tt

  Keeps-modify : (f : Pool → Pool) → ((p : Pool) → I p → I (f p)) → Keeps I Always (modify f)
  Keeps-modify f k = record { at = λ p i. (k p i, tt) }

  Keeps-get :
      {A : Type 0} (P : A → Type 0) (f : Pool → Workers A)
      → ((p : Pool) → Keeps I P (f p))
      → Keeps I P (get >>= f)
  Keeps-get P f k = record { at = λ p i. (k p).at p i }

  Keeps-bind :
      {A B : Type 0} (Q : A → Type 0) (P : B → Type 0) (m : Workers A) (f : A → Workers B)
      → Keeps I Q m
      → ((a : A) → Q a → Keeps I P (f a))
      → Keeps I P (m >>= f)
  Keeps-bind {A} Q P m f km kf = record {
    at = λ p i. let (j, q) = km.at p i in go (m p).0 (m p).1 j q;
  }
    where
      go :
          (r : Outcome A) (q : Pool)
          → I q
          → Post Q Whatever r
          → I (continue r f q).1 × Post P Whatever (continue r f q).0
      go (done a) q i h = (kf a h).at q i
      go (raised e) q i h = (i, tt)

  Keeps-then :
      {B : Type 0} (P : B → Type 0) (m : Workers (Unit {0})) (n : Workers B)
      → Keeps I Always m
      → Keeps I P n
      → Keeps I P (m >> n)
  Keeps-then P m n km kn = Keeps-bind Always P m (λ _. n) km (λ a h. kn)

  Keeps-if :
      {A : Type 0} (P : A → Type 0) (b : Bool) (m n : Workers A)
      → Keeps I P m
      → Keeps I P n
      → Keeps I P (if b then m else n)
  Keeps-if P true m n km kn = km
  Keeps-if P false m n km kn = kn

module _ {I : Pool → Type 0} {G : WorkerHandle → Type 0} (inv : Invariant I G)
    (submit : Submit) where
  submit_worker-Keeps : (id : ℕ) → Keeps I G (submit_worker submit id)
  unfolding submit_worker
  submit_worker-Keeps id = record { at = λ p i. go p i (submit id p.generation_counter) }
    where
      started : Pool → Future → Workers WorkerHandle
      started p future =
          pure (record { worker_id = id; generation = p.generation_counter; future = future })

      next : Pool → Pool
      next p = record p { generation_counter = suc p.generation_counter }

      go :
          (p : Pool)
          → I p
          → (r : Outcome Future)
          → I (continue r (started p) (next p)).1
            × Post G Whatever (continue r (started p) (next p)).0
      go p i (done f) = (inv.counted p i, inv.numbered p id f i)
      go p i (raised e) = (inv.counted p i, tt)

  start_worker-Keeps : (id : ℕ) → Keeps I G (start_worker submit id)
  unfolding start_worker
  start_worker-Keeps id =
      Keeps-get G
        (λ p.
          lift (if p.executor then done tt else raised (runtime_error "worker executor 尚未启动"))
          >> (lift (if ltb id p.queues then done tt else raised index_error)
              >> submit_worker submit id))
        λ p.
          Keeps-then G _ _ (Keeps-lift _) (Keeps-then G _ _ (Keeps-lift _) (submit_worker-Keeps id))

  start_each-Keeps : (id left : ℕ) → Keeps I (All G) (start_each submit id left)
  unfolding start_each
  start_each-Keeps id zero = Keeps-pure (All G) [] tt
  start_each-Keeps id (suc left) =
      Keeps-bind G (All G) (start_worker submit id)
        (λ w. start_each submit (suc id) left >>= λ ws. pure (w ∷ ws)) (start_worker-Keeps id)
        λ w g.
          Keeps-bind (All G) (All G) (start_each submit (suc id) left) (λ ws. pure (w ∷ ws))
            (start_each-Keeps (suc id) left) λ ws gs. Keeps-pure (All G) (w ∷ ws) (g, gs)

  start_workers-Keeps : (count : ℕ) → Keeps I Always (start_workers submit count)
  unfolding start_workers
  start_workers-Keeps count =
      Keeps-bind (All G) Always (start_each submit 0 count)
        (λ ws. modify (λ q. record q { workers = ws })) (start_each-Keeps 0 count)
        λ ws gs. Keeps-modify _ (λ p i. inv.installed p ws i gs)

  begin_rebuild-Keeps : (message : String) → Keeps I Always (begin_rebuild submit message)
  unfolding begin_rebuild
  begin_rebuild-Keeps message =
      Keeps-get Always
        (λ p.
          if p.restarting || p.stopping
          then pure tt
          else modify (λ q. fail_pending message (record q { restarting = true })))
        λ p. Keeps-if Always (p.restarting || p.stopping) _ _ (Keeps-pure Always tt tt) (
          Keeps-modify _ λ q i.
            inv.failed_all (record q { restarting = true }) message
              (inv.flagged q q.queues q.executor q.reader q.stopping true i))

  rebuild-Keeps : (count : ℕ) → Keeps I Always (rebuild submit count)
  unfolding rebuild
  rebuild-Keeps count =
      Keeps-then Always (modify (λ q. cleared q)) _ (Keeps-modify _ (λ q i. clears q i)) (
        Keeps-then Always (modify (λ q. record q { queues = count; executor = true })) _
          (Keeps-modify _ (λ q i. inv.flagged q count true q.reader q.stopping q.restarting i))
          (Keeps-then Always (start_workers submit count) _ (start_workers-Keeps count) (
            Keeps-modify _
              (λ q i. inv.flagged q q.queues q.executor true q.stopping q.restarting i))))
    where
      cleared : Pool → Pool
      cleared q = record q { executor = false; queues = 0; workers = []; reader = false }

      clears : (q : Pool) → I q → I (cleared q)
      clears q i =
          inv.flagged (record q { workers = [] }) 0 false false q.stopping q.restarting
            (inv.installed q [] i tt)

  pub end_rebuild_keeps : (count : ℕ) (p : Pool) → I p → I (end_rebuild submit count p).1
  unfolding end_rebuild
  end_rebuild_keeps count p i =
      let q : Pool = (rebuild submit count p).1 in
      inv.flagged q q.queues q.executor q.reader q.stopping false ((rebuild-Keeps count).at p i).0

  restart_loop-Keeps :
      (message : String) (index : ℕ) (ws : List WorkerHandle)
      → Keeps I Always (restart_loop submit message index ws)
  unfolding restart_loop
  restart_loop-Keeps message index [] = Keeps-pure Always tt tt
  restart_loop-Keeps message index (w ∷ ws) =
      let rest = restart_loop-Keeps message (suc index) ws in
      let again : Keeps I Always (get >>= λ p. branch p) = Keeps-get Always branch λ p.
        Keeps-if Always (p.restarting || p.stopping) _ _ (Keeps-pure Always tt tt) (
          Keeps-bind G Always (start_worker submit w.worker_id)
            (λ v.
              modify (λ q. record q { workers = set q.workers index v })
              >> restart_loop submit message (suc index) ws)
            (start_worker-Keeps w.worker_id)
            λ v g.
              Keeps-then Always _ _ (Keeps-modify _ (λ q i. inv.replaced q index v i g)) rest) in
      at_end w.future rest again
    where
      rest_of : Workers (Unit {0})
      rest_of = restart_loop submit message (suc index) ws

      branch : Pool → Workers (Unit {0})
      branch p =
          if p.restarting || p.stopping
          then pure tt
          else start_worker submit w.worker_id >>= λ v.
              modify (λ q. record q { workers = set q.workers index v }) >> rest_of

      at_end :
          (f : Future)
          → Keeps I Always rest_of
          → Keeps I Always (get >>= branch)
          → Keeps I Always (elim f [
            | running ↦ rest_of
            | broken_pool ↦ begin_rebuild submit message
            | returned ↦ get >>= branch
            | has_failed e ↦ get >>= branch
          ])
      at_end running r a = r
      at_end broken_pool r a = begin_rebuild-Keeps message
      at_end returned r a = a
      at_end (has_failed e) r a = a

  pub restart_keeps :
      (message : String) (p : Pool) → I p → I (restart_finished_workers_once submit message p).1
  unfolding restart_finished_workers_once
  restart_keeps message p i =
      ((Keeps-if Always (p.restarting || p.stopping) (pure tt)
          (restart_loop submit message 0 p.workers) (Keeps-pure Always tt tt)
          (restart_loop-Keeps message 0 p.workers)).at
        p i).0

module _ {I : Pool → Type 0} {G : WorkerHandle → Type 0} (inv : Invariant I G) where
  pub begin_stop_keeps : (p : Pool) → I p → I (begin_stop p)
  unfolding begin_stop
  begin_stop_keeps p i = inv.flagged p p.queues p.executor p.reader true p.restarting i

  pub end_stop_keeps : (p : Pool) → I p → I (end_stop p)
  unfolding end_stop
  end_stop_keeps p i =
      let q : Pool = record p { executor = false; workers = [] } in
      let r : Pool = fail_pending "worker pool stopped" q in
      inv.flagged r 0 r.executor false r.stopping r.restarting (
        inv.failed_all q "worker pool stopped" (
          inv.flagged (record p { workers = [] }) p.queues false p.reader p.stopping p.restarting
            (inv.installed p [] i tt)))
