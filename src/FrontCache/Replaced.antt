-- ===== src/FrontCache/Replaced.antt =====
-- The invariant of the tasks that share a front cache is kept by the steps on one that was replaced.
use python_smartdns.Prelude.{
  ℕ, suc, true, List, ◌==◌, Bool-cases, Option, ◌∷◌, ◌≡◌, refl, ap, sym, ◌∙◌, inl, inr, arith,
}
use python_smartdns.Dns.{Wire}
use python_smartdns.Workers.{has_id}
use python_smartdns.FrontCache.{Key, FrontCache, lookup}
use python_smartdns.FrontCache.Coalescing.{Stage, missed, finished, waiting, owning, move, lose}
use python_smartdns.FrontCache.Fair.{IsAwaited, IsFair, move-cases, move-other}
use python_smartdns.FrontCache.Ends.{IsFair-abandon}

module _ {C : Type 0} (f : FrontCache C) (stage : ℕ → Stage) (lost : List ℕ) (reloads i : ℕ) where
  pub IsFair-join :
      (event : ℕ)
      → stage i ≡ missed
      → has_id event lost ≡ true
      → IsFair f stage lost (suc reloads)
      → IsFair f (move stage i (waiting event)) lost (suc reloads)
  IsFair-join event was gone h = record {
    owned = λ key x l. elim (h.owned key x l) [
      | inl (j, owner) ↦ inl (
        j,
        move-other stage i (waiting event) j (λ e. absurd (cc (ap stage e, owner, was))) ∙ owner,
      )
      | inr g ↦ inr g
    ];
    held = λ calm. absurd (omega (arith, calm));
    single = λ calm. absurd (omega (arith, calm));
    awaited = λ j x k. elim (move-cases stage i (waiting event) j (waiting x) k) [
      | inl (e, s) ↦ let same : event ≡ x = cc s in inr (ap (λ z. has_id z lost) (sym same) ∙ gone)
      | inr (e, s) ↦ h.awaited j x s
    ];
  }

  pub IsFair-own_replaced :
      (key : Key)
      → stage i ≡ missed
      → IsFair f stage lost (suc reloads)
      → IsFair
          (record f { next_event = suc f.next_event })
          (move stage i (owning key))
          (f.next_event ∷ lost)
          (suc reloads)
  IsFair-own_replaced key was h = record {
    owned = λ k x l. elim (h.owned k x l) [
      | inl (j, owner) ↦
          inl (
            j,
            move-other stage i (owning key) j (λ e. absurd (cc (ap stage e, owner, was))) ∙ owner,
          )
      | inr g ↦ inr (ground (arith, g))
    ];
    held = λ calm. absurd (omega (arith, calm));
    single = λ calm. absurd (omega (arith, calm));
    awaited = λ j x k. elim (move-cases stage i (owning key) j (waiting x) k) [
      | inl (e, s) ↦ absurd (cc s)
      | inr (e, s) ↦ elim (h.awaited j x s) [ inl a ↦ inl a | inr g ↦ inr (ground (arith, g)) ]
    ];
  }

  -- One more event is set.
  IsAwaited-set :
      (event x : ℕ) (wire : Option Wire)
      → IsAwaited f x
      → IsAwaited (record f { holders = (event, wire) ∷ f.holders }) x
  IsAwaited-set event x wire a = elim (Bool-cases (event == x)) [
    | inl b ↦ inl (wire, rw b refl)
    | inr b ↦ elim a [ inl (w, set) ↦ inl (w, rw b set) | inr pending ↦ inr pending ]
  ]

  pub IsFair-complete_replaced :
      (key : Key) (event : ℕ) (wire : Option Wire)
      → stage i ≡ owning key
      → IsFair f stage lost (suc reloads)
      → IsFair
          (record f { holders = (event, wire) ∷ f.holders })
          (move stage i finished)
          (lose (lookup f.pending key) lost)
          (suc reloads)
  IsFair-complete_replaced key event wire was h =
      let g = IsFair-abandon f stage lost (suc reloads) i key was h in
      record {
        owned = g.owned;
        held = g.held;
        single = g.single;
        awaited = λ j x k. elim (g.awaited j x k) [
          | inl a ↦ inl (IsAwaited-set event x wire a)
          | inr gone ↦ inr gone
        ];
      }
