-- ===== src/FrontCache/Ends.antt =====
-- The invariant of the tasks that share a front cache is kept by the end of an owner and by a reload.
use python_smartdns.Prelude.{
  ℕ, suc, true, ◌||◌, List, [], ◌++◌, ◌==◌, Bool-cases, Option, none, some, ◌∷◌, ◌≡◌, refl, ap, sym,
  subst, ◌∙◌, ◌⊎◌, inl, inr, arith,
}
use python_smartdns.Dns.{Wire}
use python_smartdns.Workers.{has_id}
use python_smartdns.FrontCache.{Key, same_key, FrontCache, lookup, without}
use python_smartdns.FrontCache.Pending.{lookup-without, without-lookup}
use python_smartdns.FrontCache.Coalescing.{
  Stage, finished, waiting, owning, move, same_key-eq, same_key_refl,
}
use python_smartdns.FrontCache.Coalescing.{lose, events_of}
use python_smartdns.FrontCache.Fair.{IsAwaited, IsFair, move-cases, move-other}

has_id-append : (x : ℕ) (xs ys : List ℕ) → has_id x (xs ++ ys) ≡ (has_id x xs || has_id x ys)
has_id-append x [] ys = refl
has_id-append x (z ∷ xs) ys = ground (arith, has_id-append x xs ys)

lookup-events :
    (p : List (Key × ℕ)) (key : Key) (x : ℕ) → lookup p key ≡ some x → has_id x (events_of p) ≡ true
lookup-events [] key x h = absurd (cc h)
lookup-events ((k, e) ∷ p) key x h = elim (Bool-cases (same_key k key)) [
  | inl b ↦
      let first : some e ≡ some x = rw b at h in let same : e ≡ x = cc first in ground (arith, same)
  | inr b ↦ ground (arith, lookup-events p key x (rw b at h))
]

lose_keeps :
    (o : Option ℕ) (lost : List ℕ) (x : ℕ) → has_id x lost ≡ true → has_id x (lose o lost) ≡ true
lose_keeps none lost x h = h
lose_keeps (some event) lost x h = ground (arith, h)

lose_adds : (o : Option ℕ) (lost : List ℕ) (x : ℕ) → o ≡ some x → has_id x (lose o lost) ≡ true
lose_adds none lost x h = absurd (cc h)
lose_adds (some event) lost x h = let same : event ≡ x = cc h in ground (arith, same)

module _ {C : Type 0} (f : FrontCache C) (stage : ℕ → Stage) (lost : List ℕ) (reloads i : ℕ)
    (key : Key) where
  -- The owner ends, and what it would have set is lost.
  pub IsFair-abandon :
      stage i ≡ owning key
      → IsFair f stage lost reloads
      → IsFair f (move stage i finished) (lose (lookup f.pending key) lost) reloads
  IsFair-abandon was h = record {
    owned = λ k x l. elim (h.owned k x l) [
      | inl (j, owner) ↦ elim (Bool-cases (j == i)) [
        | inl b ↦
            let at : j ≡ i = ground (arith, b) in
            let keys : owning key ≡ owning k = sym was ∙ ap stage (sym at) ∙ owner in
            let same : key ≡ k = cc keys in
            inr (lose_adds (lookup f.pending key) lost x (ap (lookup f.pending) same ∙ l))
        | inr b ↦
            inl (j, move-other stage i finished j (λ e. absurd (ground (arith, b, e))) ∙ owner)
      ]
      | inr gone ↦ inr (lose_keeps (lookup f.pending key) lost x gone)
    ];
    held = λ calm j k l. elim (move-cases stage i finished j (owning k) l) [
      | inl (e, s) ↦ absurd (cc s)
      | inr (e, s) ↦ h.held calm j k s
    ];
    single = λ calm j l k m n. elim (move-cases stage i finished j (owning k) m) [
      | inl (e, s) ↦ absurd (cc s)
      | inr (e, s) ↦ elim (move-cases stage i finished l (owning k) n) [
        | inl (e', s') ↦ absurd (cc s')
        | inr (e', s') ↦ h.single calm j l k s s'
      ]
    ];
    awaited = λ j x k. elim (move-cases stage i finished j (waiting x) k) [
      | inl (e, s) ↦ absurd (cc s)
      | inr (e, s) ↦ elim (h.awaited j x s) [
        | inl a ↦ inl a
        | inr gone ↦ inr (lose_keeps (lookup f.pending key) lost x gone)
      ]
    ];
  }

  -- The owner ends and takes its key out: each event that a task waits for is accounted for after it.
  popped-IsFair :
      (holders : List (ℕ × Option Wire)) (more : List ℕ)
      → stage i ≡ owning key
      → ((x : ℕ) → has_id x lost ≡ true → has_id x more ≡ true)
      → (let g = record f { pending = without f.pending key; holders = holders } in
          ((x : ℕ) → IsAwaited f x → IsAwaited g x ⊎ (has_id x more ≡ true))
          → IsFair f stage lost reloads
          → IsFair g (move stage i finished) more reloads)
  popped-IsFair holders more was grows keeps h = record {
    owned = λ k x l.
        let (before, other) = lookup-without f.pending key k x l in
        elim (h.owned k x before) [
          | inl (j, owner) ↦ inl (
            j,
            move-other stage i finished j (λ e.
                  let keys : owning key ≡ owning k = sym was ∙ ap stage (sym e) ∙ owner in
                  other (cc keys))
                ∙ owner,
          )
          | inr gone ↦ inr (grows x gone)
        ];
    held = λ calm j k l. elim (move-cases stage i finished j (owning k) l) [
      | inl (e, s) ↦ absurd (cc s)
      | inr (e, s) ↦
          let (x, before) = h.held calm j k s in
          (
            x,
            without-lookup f.pending key k (λ same.
                  e (h.single calm j i key (subst (λ z. stage j ≡ owning z) (sym same) s) was))
                ∙ before,
          )
    ];
    single = λ calm j l k m n. elim (move-cases stage i finished j (owning k) m) [
      | inl (e, s) ↦ absurd (cc s)
      | inr (e, s) ↦ elim (move-cases stage i finished l (owning k) n) [
        | inl (e', s') ↦ absurd (cc s')
        | inr (e', s') ↦ h.single calm j l k s s'
      ]
    ];
    awaited = λ j x k. elim (move-cases stage i finished j (waiting x) k) [
      | inl (e, s) ↦ absurd (cc s)
      | inr (e, s) ↦ elim (h.awaited j x s) [ inl a ↦ keeps x a | inr gone ↦ inr (grows x gone) ]
    ];
  }

  -- The owner's key is taken out, and its event is lost.
  pub IsFair-fail :
      stage i ≡ owning key
      → IsFair f stage lost reloads
      → IsFair
          (record f { pending = without f.pending key })
          (move stage i finished)
          (lose (lookup f.pending key) lost)
          reloads
  IsFair-fail was h =
      popped-IsFair f.holders (lose (lookup f.pending key) lost) was
        (lose_keeps (lookup f.pending key) lost)
        (λ x a. elim a [
          | inl set ↦ inl (inl set)
          | inr (l, pending) ↦ elim (Bool-cases (same_key key l)) [
            | inl y ↦ inr (
                lose_adds (lookup f.pending key) lost x
                  (ap (lookup f.pending) (same_key-eq key l y) ∙ pending))
            | inr y ↦ inl (
                inr (
                  l,
                  without-lookup f.pending key l (λ e.
                        absurd (cc (y, subst (λ z. same_key key z ≡ true) e (same_key_refl key))))
                      ∙ pending,
                ))
          ]
        ])
        h

  module _ (event : ℕ) (wire : Option Wire) where
    -- The owner sets the event of its key.
    abbrev pub front_completed : FrontCache C
    front_completed = record f {
      pending = without f.pending key;
      holders = (event, wire) ∷ f.holders;
    }

    IsAwaited-complete :
        lookup f.pending key ≡ some event → (x : ℕ) → IsAwaited f x → IsAwaited front_completed x
    IsAwaited-complete found x a = elim (Bool-cases (event == x)) [
      | inl b ↦ inl (wire, rw b refl)
      | inr b ↦ elim a [
        | inl (w, set) ↦ inl (w, rw b set)
        | inr (l, pending) ↦ elim (Bool-cases (same_key key l)) [
          | inl y ↦
              let same : some event ≡ some x =
                sym found ∙ ap (lookup f.pending) (same_key-eq key l y) ∙ pending in
              let numbers : event ≡ x = cc same in absurd (ground (arith, b, numbers))
          | inr y ↦ inr (
            l,
            without-lookup f.pending key l
                  (λ e. absurd (cc (y, subst (λ z. same_key key z ≡ true) e (same_key_refl key))))
                ∙ pending,
          )
        ]
      ]
    ]

    pub IsFair-complete :
        stage i ≡ owning key
        → lookup f.pending key ≡ some event
        → IsFair f stage lost reloads
        → IsFair front_completed (move stage i finished) lost reloads
    IsFair-complete was found h =
        popped-IsFair ((event, wire) ∷ f.holders) lost was (λ x k. k)
          (λ x a. inl (IsAwaited-complete found x a)) h

-- A reload: the keys are gone, and their events lost.
pub IsFair-reload :
    {C : Type 0} (f : FrontCache C) (stage : ℕ → Stage) (lost : List ℕ) (reloads : ℕ) (cache : C)
    → IsFair f stage lost reloads
    → IsFair
        (record f { cache = cache; pending = [] })
        stage
        (events_of f.pending ++ lost)
        (suc reloads)
IsFair-reload f stage lost reloads cache h = record {
  owned = λ k x l. absurd (cc l);
  held = λ calm. absurd (omega (arith, calm));
  single = λ calm. absurd (omega (arith, calm));
  awaited = λ j x k. elim (h.awaited j x k) [
    | inl (inl set) ↦ inl (inl set)
    | inl (inr (key, pending)) ↦ inr (
        ground (
          arith,
          has_id-append x (events_of f.pending) lost,
          lookup-events f.pending key x pending,
        ))
    | inr gone ↦ inr (ground (arith, has_id-append x (events_of f.pending) lost, gone))
  ];
}
