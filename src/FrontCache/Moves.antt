-- ===== src/FrontCache/Moves.antt =====
-- The invariant of the tasks that share a front cache is kept by its operations.
use python_smartdns.Prelude.{
  ℕ, List, Bool, Option-cases, Option, none, some, [], ◌≡◌, refl, ap, sym, subst, ◌∙◌, inl, inr,
}
use python_smartdns.Outcome.{Exn, Outcome, done, raised}
use python_smartdns.Dns.{Message, Wire, Dnspython}
use python_smartdns.FrontCache.{
  Key, FrontCache, lookup, without, acquire_key, holder_wire, complete_pending,
}
use python_smartdns.FrontCache.Fair.{IsFair, IsFair-move, front_owned, IsFair-own}
use python_smartdns.FrontCache.Ends.{front_completed, IsFair-complete, IsFair-abandon, IsFair-fail}
use python_smartdns.FrontCache.Coalescing.{
  Stage, missed, finished, waiting, owning, move, acquired, lose,
}

module _ {C : Type 0} where
  module _ (d : Dnspython) where
    acquire_key-known :
        (f : FrontCache C) (key : Key) (event : ℕ)
        → lookup f.pending key ≡ some event
        → acquire_key key f ≡ (some event, f)
    unfolding acquire_key
    acquire_key-known f key event found = rw (found, acquire_key) refl

    acquire_key-new :
        (f : FrontCache C) (key : Key)
        → lookup f.pending key ≡ none
        → (i : ℕ) (stage : ℕ → Stage) → acquire_key key f ≡ (none, front_owned f stage [] 0 i key)
    unfolding acquire_key
    acquire_key-new f key free i stage = rw (free, acquire_key) refl

    pub acquires-IsFair :
        (f : FrontCache C) (stage : ℕ → Stage) (lost : List ℕ) (reloads i : ℕ) (key : Key)
        → stage i ≡ missed
        → IsFair f stage lost reloads
        → IsFair
            (acquire_key key f).1
            (move stage i (acquired key (acquire_key key f).0))
            lost
            reloads
    acquires-IsFair f stage lost reloads i key was h = elim (Option-cases (lookup f.pending key)) [
      | inl free ↦
          subst
            (λ (r : Option ℕ × FrontCache C).
              IsFair r.1 (move stage i (acquired key r.0)) lost reloads)
            (sym (acquire_key-new f key free i stage))
            (IsFair-own f stage lost reloads i key was free h)
      | inr (event, found) ↦
          subst
            (λ (r : Option ℕ × FrontCache C).
              IsFair r.1 (move stage i (acquired key r.0)) lost reloads)
            (sym (acquire_key-known f key event found))
            (IsFair-move f stage lost reloads i missed (waiting event) was tt tt
              (λ x k. let same : event ≡ x = cc k in inr (key, found ∙ ap some same)) h)
    ]

    complete_pending-eq :
        (f : FrontCache C) (key : Key) (response : Option Message) (cache_written : Bool)
        (event : ℕ) (wire : Option Wire)
        → lookup f.pending key ≡ some event
        → holder_wire d response cache_written ≡ done wire
        → (stage : ℕ → Stage) (i : ℕ)
        → complete_pending d (some key) response cache_written f
          ≡ (done tt, front_completed f stage [] 0 i key event wire)
    unfolding complete_pending
    complete_pending-eq f key response cache_written event wire found e stage i =
        rw (found, e, complete_pending) refl

    complete_pending-raised :
        (f : FrontCache C) (key : Key) (response : Option Message) (cache_written : Bool)
        (event : ℕ) (x : Exn)
        → lookup f.pending key ≡ some event
        → holder_wire d response cache_written ≡ raised x
        → complete_pending d (some key) response cache_written f
          ≡ (raised x, record f { pending = without f.pending key })
    unfolding complete_pending
    complete_pending-raised f key response cache_written event x found e =
        rw (found, e, complete_pending) refl

    complete_pending-free :
        (f : FrontCache C) (key : Key) (response : Option Message) (cache_written : Bool)
        → lookup f.pending key ≡ none
        → complete_pending d (some key) response cache_written f ≡ (done tt, f)
    unfolding complete_pending
    complete_pending-free f key response cache_written free = rw (free, complete_pending) refl

    module _ (f : FrontCache C) (stage : ℕ → Stage) (lost : List ℕ) (reloads i : ℕ) (key : Key)
        (response : Option Message) (cache_written : Bool) where
      abbrev pub after : Outcome (Unit {0}) × FrontCache C
      after = complete_pending d (some key) response cache_written f

      pub completes-IsFair :
          stage i ≡ owning key
          → after.0 ≡ done (tt {0})
          → IsFair f stage lost reloads
          → IsFair after.1 (move stage i finished) lost reloads
      completes-IsFair was ran h = elim (Option-cases (lookup f.pending key)) [
        | inl free ↦
            subst
              (λ (r : Outcome (Unit {0}) × FrontCache C).
                IsFair r.1 (move stage i finished) lost reloads)
              (sym (complete_pending-free f key response cache_written free))
              (subst (λ o. IsFair f (move stage i finished) (lose o lost) reloads) free
                (IsFair-abandon f stage lost reloads i key was h))
        | inr (event, found) ↦ wired event found (holder_wire d response cache_written) refl
      ]
        where
          wired :
              (event : ℕ)
              → lookup f.pending key ≡ some event
              → (o : Outcome (Option Wire)) → holder_wire d response cache_written ≡ o
              → IsFair after.1 (move stage i finished) lost reloads
          wired event found (done wire) e =
              subst
                (λ (r : Outcome (Unit {0}) × FrontCache C).
                  IsFair r.1 (move stage i finished) lost reloads)
                (sym (complete_pending-eq f key response cache_written event wire found e stage i))
                (IsFair-complete f stage lost reloads i key event wire was found h)
          wired event found (raised x) e = absurd (
              cc (
                ran,
                ap (λ (r : Outcome (Unit {0}) × FrontCache C). r.0)
                    (complete_pending-raised f key response cache_written event x found e),
              ))

      pub fails-IsFair :
          (x : Exn)
          → stage i ≡ owning key
          → after.0 ≡ raised x
          → IsFair f stage lost reloads
          → IsFair after.1 (move stage i finished) (lose (lookup f.pending key) lost) reloads
      fails-IsFair x was ran h = elim (Option-cases (lookup f.pending key)) [
        | inl free ↦ absurd (
            cc (
              ran,
              ap (λ (r : Outcome (Unit {0}) × FrontCache C). r.0)
                  (complete_pending-free f key response cache_written free),
            ))
        | inr (event, found) ↦ wired event found (holder_wire d response cache_written) refl
      ]
        where
          wired :
              (event : ℕ)
              → lookup f.pending key ≡ some event
              → (o : Outcome (Option Wire)) → holder_wire d response cache_written ≡ o
              → IsFair after.1 (move stage i finished) (lose (lookup f.pending key) lost) reloads
          wired event found (done wire) e = absurd (
              cc (
                ran,
                ap (λ (r : Outcome (Unit {0}) × FrontCache C). r.0)
                    (complete_pending-eq f key response cache_written event wire found e stage i),
              ))
          wired event found (raised y) e =
              subst
                (λ (r : Outcome (Unit {0}) × FrontCache C).
                  IsFair r.1 (move stage i finished) (lose (lookup f.pending key) lost) reloads)
                (sym (complete_pending-raised f key response cache_written event y found e))
                (IsFair-fail f stage lost reloads i key was h)
