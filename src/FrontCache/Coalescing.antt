-- ===== src/FrontCache/Coalescing.antt =====
-- dns_forwarder/core/multiprocess/manager.py, `process_query`: the tasks that ask for the same key.
use python_smartdns.Prelude.{
  ℕ, suc, List, [], ◌∷◌, ◌++◌, Bool, true, ◌==◌, eq_iff, Option, none, some, ◌≡◌, refl, arith,
  if◌then◌else◌,
}
use python_smartdns.Outcome.{Exn, done, raised}
use python_smartdns.Dns.{Message, Wire, Dnspython}
use python_smartdns.Workers.{has_id}
use python_smartdns.FrontCache.{
  Key, same_key, FrontCache, lookup, holder_of, acquire_key, complete_pending,
}

-- Where a task stands in `process_query`: before it looks into the cache, after a miss, waiting for an
-- event, asking the workers for a key that it owns, and at its end.
pub data Stage : Type 0 where
  looking missed finished : Stage
  waiting : ℕ → Stage
  owning : Key → Stage

-- `lost` has the events that may have nobody left who sets them, and `reloads` counts the reloads: a
-- record of what has happened, which only the steps on a replaced front cache read.
pub record World (C : Type 0) : Type 0 where
  pub front : FrontCache C
  pub stage : ℕ → Stage
  pub lost : List ℕ
  pub reloads : ℕ

-- The event of a key that loses the one who would set it.
abbrev pub lose : Option ℕ → List ℕ → List ℕ
lose none lost = lost
lose (some event) lost = event ∷ lost

abbrev pub events_of : List (Key × ℕ) → List ℕ
events_of [] = []
events_of ((key, event) ∷ rest) = event ∷ events_of rest

abbrev pub move : (ℕ → Stage) → ℕ → Stage → ℕ → Stage
move stage i s j = if j == i then s else stage j

-- What a task does after `acquire_pending`.
abbrev pub acquired : Key → Option ℕ → Stage
acquired key none = owning key
acquired key (some event) = waiting event

-- What a task does when the event that it waited for is set.
abbrev pub woken : Option Wire → Stage
woken none = looking
woken (some wire) = finished

-- The steps of the tasks, between two awaits each, and of a reload. The answers in the cache come and
-- go. A completion may raise, in `to_wire`, after the key was taken out and before the event is set; a
-- task that is cancelled ends where it stands, as its owner may before it has the lock of
-- `complete_pending`. A reload puts an empty front cache in place of the old one. A task that came to
-- the old one before and has its lock only now finds a pending event there, or becomes an owner there,
-- whose key is not in the new one; a task that owned a key there before may still set its event.
pub data Step {C : Type 0} (d : Dnspython) : World C → World C → Type 0 where
  caches :
      (w : World C) (cache : C) → Step d w (record w { front = record w.front { cache = cache } })
  hits :
      (w : World C) (i : ℕ)
      → w.stage i ≡ looking
      → Step d w (record w { stage = move w.stage i finished })
  misses :
      (w : World C) (i : ℕ)
      → w.stage i ≡ looking
      → Step d w (record w { stage = move w.stage i missed })
  acquires :
      (w : World C) (i : ℕ) (key : Key)
      → w.stage i ≡ missed
      → Step d w (record w {
        front = (acquire_key key w.front).1;
        stage = move w.stage i (acquired key (acquire_key key w.front).0);
      })
  wakes :
      (w : World C) (i event : ℕ) (wire : Option Wire)
      → w.stage i ≡ waiting event
      → holder_of w.front.holders event ≡ some wire
      → Step d w (record w { stage = move w.stage i (woken wire) })
  completes :
      (w : World C) (i : ℕ) (key : Key) (response : Option Message) (cache_written : Bool)
      → w.stage i ≡ owning key
      → (complete_pending d (some key) response cache_written w.front).0 ≡ done tt
      → Step d w (record w {
        front = (complete_pending d (some key) response cache_written w.front).1;
        stage = move w.stage i finished;
      })
  fails :
      (w : World C) (i : ℕ) (key : Key) (response : Option Message) (cache_written : Bool) (x : Exn)
      → w.stage i ≡ owning key
      → (complete_pending d (some key) response cache_written w.front).0 ≡ raised x
      → Step d w (record w {
        front = (complete_pending d (some key) response cache_written w.front).1;
        stage = move w.stage i finished;
        lost = lose (lookup w.front.pending key) w.lost;
      })
  leaves :
      (w : World C) (i : ℕ)
      → w.stage i ≡ missed
      → Step d w (record w { stage = move w.stage i finished })
  abandons :
      (w : World C) (i : ℕ) (key : Key)
      → w.stage i ≡ owning key
      → Step d w (record w {
        stage = move w.stage i finished;
        lost = lose (lookup w.front.pending key) w.lost;
      })
  reloads_cache :
      (w : World C) (cache : C)
      → Step d w (record w {
        front = record w.front { cache = cache; pending = [] };
        lost = events_of w.front.pending ++ w.lost;
        reloads = suc w.reloads;
      })
  joins_replaced :
      (w : World C) (i event reloads : ℕ)
      → w.stage i ≡ missed
      → w.reloads ≡ suc reloads
      → has_id event w.lost ≡ true
      → Step d w (record w { stage = move w.stage i (waiting event) })
  owns_replaced :
      (w : World C) (i : ℕ) (key : Key) (reloads : ℕ)
      → w.stage i ≡ missed
      → w.reloads ≡ suc reloads
      → Step d w (record w {
        front = record w.front { next_event = suc w.front.next_event };
        stage = move w.stage i (owning key);
        lost = w.front.next_event ∷ w.lost;
      })
  completes_replaced :
      (w : World C) (i : ℕ) (key : Key) (event : ℕ) (wire : Option Wire) (reloads : ℕ)
      → w.stage i ≡ owning key
      → w.reloads ≡ suc reloads
      → has_id event w.lost ≡ true
      → Step d w (record w {
        front = record w.front { holders = (event, wire) ∷ w.front.holders };
        stage = move w.stage i finished;
        lost = lose (lookup w.front.pending key) w.lost;
      })

pub data Steps {C : Type 0} (d : Dnspython) (w : World C) : World C → Type 0 where
  start : Steps d w w
  then_step : {v u : World C} → Steps d w v → Step d v u → Steps d w u

pub same_key-eq : (k l : Key) → same_key k l ≡ true → k ≡ l
same_key-eq k l h =
    let name : k.name ≡ l.name = (eq_iff k.name l.name).0 (ground (arith, h)) in
    let rdtype : k.rdtype ≡ l.rdtype = ground (arith, h) in
    let rdclass : k.rdclass ≡ l.rdclass = ground (arith, h) in cc (name, rdtype, rdclass)

pub same_key_refl : (k : Key) → same_key k k ≡ true
same_key_refl k = ground (arith, (eq_iff k.name k.name).1 refl)

abbrev pub IsIdle : Stage → Type 0
IsIdle (owning key) = ⊥
IsIdle _ = Unit
