-- ===== src/FrontCache/Liveness.antt =====
-- No query waits for nobody, and no two tasks ask the workers for one key.
use python_smartdns.Prelude.{
  ℕ, suc, true, List, ◌∷◌, ◌⊎◌, Option, none, some, [], ◌≡◌, sym, subst, inl, inr,
}
use python_smartdns.Dns.{Wire, Dnspython}
use python_smartdns.FrontCache.{Key, FrontCache, lookup, holder_of}
use python_smartdns.FrontCache.Fair.{IsFair, IsFair-move}
use python_smartdns.FrontCache.Ends.{IsFair-abandon, IsFair-reload}
use python_smartdns.FrontCache.Moves.{acquires-IsFair, completes-IsFair, fails-IsFair}
use python_smartdns.FrontCache.Replaced.{IsFair-join, IsFair-own_replaced, IsFair-complete_replaced}
use python_smartdns.Workers.{has_id}
use python_smartdns.FrontCache.Coalescing.{
  Stage, looking, missed, finished, waiting, owning, World, move, woken, Step, caches, hits, misses,
  acquires, wakes, completes, fails, leaves, abandons, reloads_cache, joins_replaced, owns_replaced,
  completes_replaced, lose, Steps, start, then_step, IsIdle,
}

woken-Idle : (wire : Option Wire) → IsIdle (woken wire)
woken-Idle none = tt
woken-Idle (some wire) = tt

woken-not-waiting : (wire : Option Wire) (event : ℕ) → woken wire ≡ waiting event → ⊥
woken-not-waiting none event h = cc h
woken-not-waiting (some wire) event h = cc h

module _ {C : Type 0} where
  -- Nobody has asked yet.
  abbrev pub fresh : C → World C
  fresh cache = record {
    front = record { cache = cache; pending = []; holders = []; next_event = 0 };
    stage = λ i. looking;
    lost = [];
    reloads = 0;
  }

  fresh-IsFair : (cache : C) → IsFair (fresh cache).front (fresh cache).stage [] 0
  fresh-IsFair cache = record {
    owned = λ key event h. absurd (cc h);
    held = λ calm i key h. absurd (cc h);
    single = λ calm i j key h k. absurd (cc h);
    awaited = λ i event h. absurd (cc h);
  }

  module _ (d : Dnspython) where
    after_reload :
        (f : FrontCache C) (stage : ℕ → Stage) (lost : List ℕ) {m n : ℕ}
        → m ≡ n
        → IsFair f stage lost n
        → IsFair f stage lost m
    after_reload f stage lost e h = subst (IsFair f stage lost) (sym e) h

    abbrev AllFair : World C → Type 0
    AllFair w = IsFair w.front w.stage w.lost w.reloads

    Step-IsFair : {w v : World C} → Step d w v → AllFair w → AllFair v
    Step-IsFair (caches w cache) h = record {
      owned = h.owned;
      held = h.held;
      single = h.single;
      awaited = h.awaited;
    }
    Step-IsFair (hits w i was) h =
        IsFair-move w.front w.stage w.lost w.reloads i looking finished was tt tt
          (λ x k. absurd (cc k)) h
    Step-IsFair (misses w i was) h =
        IsFair-move w.front w.stage w.lost w.reloads i looking missed was tt tt
          (λ x k. absurd (cc k)) h
    Step-IsFair (leaves w i was) h =
        IsFair-move w.front w.stage w.lost w.reloads i missed finished was tt tt
          (λ x k. absurd (cc k)) h
    Step-IsFair (acquires w i key was) h =
        acquires-IsFair d w.front w.stage w.lost w.reloads i key was h
    Step-IsFair (wakes w i event wire was set) h =
        IsFair-move w.front w.stage w.lost w.reloads i (waiting event) (woken wire) was tt
          (woken-Idle wire) (λ x k. absurd (woken-not-waiting wire x k)) h
    Step-IsFair (completes w i key response cache_written was ran) h =
        completes-IsFair d w.front w.stage w.lost w.reloads i key response cache_written was ran h
    Step-IsFair (fails w i key response cache_written x was ran) h =
        fails-IsFair d w.front w.stage w.lost w.reloads i key response cache_written x was ran h
    Step-IsFair (abandons w i key was) h =
        IsFair-abandon w.front w.stage w.lost w.reloads i key was h
    Step-IsFair (reloads_cache w cache) h = IsFair-reload w.front w.stage w.lost w.reloads cache h
    Step-IsFair (joins_replaced w i event reloads was after gone) h =
        after_reload w.front (move w.stage i (waiting event)) w.lost after (
          IsFair-join w.front w.stage w.lost reloads i event was gone
            (subst (IsFair w.front w.stage w.lost) after h))
    Step-IsFair (owns_replaced w i key reloads was after) h =
        after_reload (record w.front { next_event = suc w.front.next_event })
          (move w.stage i (owning key)) (w.front.next_event ∷ w.lost) after
          (IsFair-own_replaced w.front w.stage w.lost reloads i key was
            (subst (IsFair w.front w.stage w.lost) after h))
    Step-IsFair (completes_replaced w i key event wire reloads was after gone) h =
        after_reload (record w.front { holders = (event, wire) ∷ w.front.holders })
          (move w.stage i finished) (lose (lookup w.front.pending key) w.lost) after
          (IsFair-complete_replaced w.front w.stage w.lost reloads i key event wire was
            (subst (IsFair w.front w.stage w.lost) after h))

    Steps-IsFair : {w v : World C} → Steps d w v → AllFair w → AllFair v
    Steps-IsFair start h = h
    Steps-IsFair (then_step before step) h = Step-IsFair step (Steps-IsFair before h)

-- In whatever order the tasks run and the front cache is replaced: a task that waits for an event that
-- is not set waits for the owner of a key, who is still there and whose key is pending with that event,
-- or the event is one of those that were lost: its key was taken out by a completion that raised, or
-- an owner of its key ended without completing it, or its key was pending at a reload, or came into a
-- front cache that a reload had replaced.
pub Steps-awaited :
    {C : Type 0} (d : Dnspython) (cache : C) (w : World C) (i event : ℕ)
    → Steps d (fresh cache) w
    → w.stage i ≡ waiting event
    → holder_of w.front.holders event ≡ none
    → ((key : Key) × (j : ℕ) × (w.stage j ≡ owning key) × (lookup w.front.pending key ≡ some event))
      ⊎ (has_id event w.lost ≡ true)
Steps-awaited d cache w i event steps waits unset =
    let h = Steps-IsFair d steps (fresh-IsFair cache) in
    elim (h.awaited i event waits) [
      | inl (inl (wire, set)) ↦ absurd (cc (unset, set))
      | inl (inr (key, pending)) ↦ elim (h.owned key event pending) [
        | inl (j, owner) ↦ inl (key, j, owner, pending)
        | inr gone ↦ inr gone
      ]
      | inr gone ↦ inr gone
    ]

-- As long as the front cache has not been replaced by a reload: of the tasks that ask for one key,
-- only one at a time asks the workers, whichever completions raise and tasks are cancelled.
pub Steps-single :
    {C : Type 0} (d : Dnspython) (cache : C) (w : World C) (i j : ℕ) (key : Key)
    → Steps d (fresh cache) w
    → w.reloads ≡ 0
    → w.stage i ≡ owning key
    → w.stage j ≡ owning key
    → i ≡ j
Steps-single d cache w i j key steps calm hi hj =
    (Steps-IsFair d steps (fresh-IsFair cache)).single calm i j key hi hj
