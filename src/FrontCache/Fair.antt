-- ===== src/FrontCache/Fair.antt =====
-- The invariant of the tasks that share a front cache, and that the moves of a task keep it.
use python_smartdns.Prelude.{
  ℕ, zero, suc, true, List, ◌==◌, Bool-cases, Option, none, some, ◌∷◌, ◌≡◌, refl, ap, sym, subst,
  ◌∙◌, ◌⊎◌, inl, inr, arith,
}
use python_smartdns.Dns.{Wire}
use python_smartdns.Workers.{has_id}
use python_smartdns.FrontCache.{Key, same_key, FrontCache, lookup, holder_of}
use python_smartdns.FrontCache.Pending.{lookup-cons}
use python_smartdns.FrontCache.Coalescing.{
  Stage, missed, waiting, owning, move, same_key-eq, same_key_refl, IsIdle,
}

-- The stage after a move is the new one of the task that moved, or the old one of another.
pub move-cases :
    (stage : ℕ → Stage) (i : ℕ) (s : Stage) (j : ℕ) (t : Stage)
    → move stage i s j ≡ t
    → ((j ≡ i) × (s ≡ t)) ⊎ ((j ≡ i → ⊥) × (stage j ≡ t))
move-cases stage i s j t h = elim (Bool-cases (j == i)) [
  | inl b ↦ inl (ground (arith, b), rw b at h)
  | inr b ↦ inr (λ e. absurd (ground (arith, b, e)), rw b at h)
]

pub move-same : (stage : ℕ → Stage) (i : ℕ) (s : Stage) → move stage i s i ≡ s
move-same stage i s = let same : (i == i) ≡ true = ground arith in rw same refl

pub move-other :
    (stage : ℕ → Stage) (i : ℕ) (s : Stage) (j : ℕ) → (j ≡ i → ⊥) → move stage i s j ≡ stage j
move-other stage i s j h = elim (Bool-cases (j == i)) [
  | inl b ↦ absurd (h (ground (arith, b)))
  | inr b ↦ rw b refl
]

module _ {C : Type 0} where
  -- The event is set, or it is the event of a key that is pending.
  abbrev pub IsAwaited : FrontCache C → ℕ → Type 0
  IsAwaited f event =
      ((wire : Option Wire) × (holder_of f.holders event ≡ some wire))
      ⊎ ((key : Key) × (lookup f.pending key ≡ some event))

  -- Every pending key has an owner or an event that is lost, and every event that a task waits for is
  -- set, or that of a pending key, or lost; before the first reload, every owner's key is pending and
  -- has no other owner.
  pub record IsFair (f : FrontCache C) (stage : ℕ → Stage) (lost : List ℕ) (reloads : ℕ)
      : Type 0 where
    pub owned :
        (key : Key) (event : ℕ)
        → lookup f.pending key ≡ some event
        → ((i : ℕ) × (stage i ≡ owning key)) ⊎ (has_id event lost ≡ true)
    pub held :
        reloads ≡ zero
        → (i : ℕ) (key : Key) → stage i ≡ owning key
        → (event : ℕ) × (lookup f.pending key ≡ some event)
    pub single :
        reloads ≡ zero → (i j : ℕ) (key : Key) → stage i ≡ owning key → stage j ≡ owning key → i ≡ j
    pub awaited :
        (i event : ℕ) → stage i ≡ waiting event → IsAwaited f event ⊎ (has_id event lost ≡ true)

idle-not-owning : (s t : Stage) (key : Key) → IsIdle s → s ≡ t → t ≡ owning key → ⊥
idle-not-owning s t key h e k = subst IsIdle (e ∙ k) h

module _ {C : Type 0} (f : FrontCache C) (stage : ℕ → Stage) (lost : List ℕ) (reloads i : ℕ)
    (old new : Stage) where
  -- A task that owns nothing before and after its step.
  pub IsFair-move :
      stage i ≡ old
      → IsIdle old
      → IsIdle new
      → ((event : ℕ) → new ≡ waiting event → IsAwaited f event)
      → IsFair f stage lost reloads
      → IsFair f (move stage i new) lost reloads
  IsFair-move was o n a h = record {
    owned = λ key event k. elim (h.owned key event k) [
      | inl (j, owner) ↦ inl (
        j,
        move-other stage i new j
              (λ e. idle-not-owning old (stage i) key o (sym was) (ap stage (sym e) ∙ owner))
            ∙ owner,
      )
      | inr gone ↦ inr gone
    ];
    held = λ calm j key k. elim (move-cases stage i new j (owning key) k) [
      | inl (e, s) ↦ absurd (idle-not-owning new new key n refl s)
      | inr (e, s) ↦ h.held calm j key s
    ];
    single = λ calm j l key k m. elim (move-cases stage i new j (owning key) k) [
      | inl (e, s) ↦ absurd (idle-not-owning new new key n refl s)
      | inr (e, s) ↦ elim (move-cases stage i new l (owning key) m) [
        | inl (e', s') ↦ absurd (idle-not-owning new new key n refl s')
        | inr (e', s') ↦ h.single calm j l key s s'
      ]
    ];
    awaited = λ j event k. elim (move-cases stage i new j (waiting event) k) [
      | inl (e, s) ↦ inl (a event s)
      | inr (e, s) ↦ h.awaited j event s
    ];
  }

module _ {C : Type 0} (f : FrontCache C) (stage : ℕ → Stage) (lost : List ℕ) (reloads i : ℕ)
    (key : Key) where
  -- The task becomes the owner of a key that nobody asks for.
  abbrev pub front_owned : FrontCache C
  front_owned = record f {
    pending = (key, f.next_event) ∷ f.pending;
    next_event = suc f.next_event;
  }

  pub IsFair-own :
      stage i ≡ missed
      → lookup f.pending key ≡ none
      → IsFair f stage lost reloads
      → IsFair front_owned (move stage i (owning key)) lost reloads
  IsFair-own was free h = record {
    owned = λ k event l. elim (lookup-cons key f.next_event f.pending k event l) [
      | inl (same, _) ↦ inl (
        i,
        subst (λ z. move stage i (owning key) i ≡ owning z) same (move-same stage i (owning key)),
      )
      | inr found ↦ elim (h.owned k event found) [
        | inl (j, owner) ↦ inl (
          j,
          move-other stage i (owning key) j (λ e. absurd (cc (ap stage e, owner, was))) ∙ owner,
        )
        | inr gone ↦ inr gone
      ]
    ];
    held = λ calm j k l. elim (move-cases stage i (owning key) j (owning k) l) [
      | inl (e, s) ↦
          let same : key ≡ k = cc s in
          (
            f.next_event,
            subst (λ z. lookup front_owned.pending z ≡ some f.next_event) same
                (rw (same_key_refl key) refl),
          )
      | inr (e, s) ↦
          let (event, found) = h.held calm j k s in
          elim (Bool-cases (same_key key k)) [
            | inl b ↦ (f.next_event, rw b refl)
            | inr b ↦ (event, rw b found)
          ]
    ];
    single = λ calm j l k m n. elim (move-cases stage i (owning key) j (owning k) m) [
      | inl (e, s) ↦ elim (move-cases stage i (owning key) l (owning k) n) [
        | inl (e', s') ↦ e ∙ sym e'
        | inr (e', s') ↦
            let (event, found) = h.held calm l k s' in
            let same : key ≡ k = cc s in absurd (cc (free, found, same))
      ]
      | inr (e, s) ↦ elim (move-cases stage i (owning key) l (owning k) n) [
        | inl (e', s') ↦
            let (event, found) = h.held calm j k s in
            let same : key ≡ k = cc s' in absurd (cc (free, found, same))
        | inr (e', s') ↦ h.single calm j l k s s'
      ]
    ];
    awaited = λ j event k. elim (move-cases stage i (owning key) j (waiting event) k) [
      | inl (e, s) ↦ absurd (cc s)
      | inr (e, s) ↦ elim (h.awaited j event s) [
        | inl (inl set) ↦ inl (inl set)
        | inl (inr (l, found)) ↦ elim (Bool-cases (same_key key l)) [
          | inl b ↦ absurd (cc (free, found, same_key-eq key l b))
          | inr b ↦ inl (inr (l, rw b found))
        ]
        | inr gone ↦ inr gone
      ]
    ];
  }
