-- ===== src/Bundled/QueryLog/Retained.antt =====
-- Which entries the log keeps, and which a reader gets.
use python_smartdns.Prelude.{
  ℕ, zero, suc, ◌+◌, ◌≤◌, ◌<◌, ltb, ◌==◌, Bool-cases, List, [], ◌∷◌, ◌++◌, length, length-append,
  filterb, ◌≡◌, refl, ap, ◌∙◌, arith, inl, inr,
}
use Prim.Native.Nat.{◌-◌, min}
use python_smartdns.Bundled.QueryLog.{
  QueryLogEntry, QueryLogStore, drop, last_of, new_store, resize, append, list_recent,
  entries_after,
}

-- Identifiers that follow one another up to a next one.
abbrev pub Consecutive {ℓ} : {P : Type ℓ} → List (QueryLogEntry P) → ℕ → Type 0
Consecutive [] next = Unit
Consecutive (e ∷ es) next = (e.id + suc (length es) ≡ next) × Consecutive es next

-- The log holds the last entries, without a gap, and no more than it may.
pub record IsLog {ℓ} {P : Type ℓ} (s : QueryLogStore P) : Type 0 where
  pub consecutive : Consecutive s.entries s.next_id
  pub within : length s.entries ≤ s.max_entries
  pub numbered : length s.entries < s.next_id

module _ {ℓ} {A : Type ℓ} where
  length-drop : (n : ℕ) (xs : List A) → length (drop n xs) ≡ length xs - n
  length-drop zero xs = omega arith
  length-drop (suc n) [] = omega arith
  length-drop (suc n) (x ∷ xs) = omega (arith, length-drop n xs)

  length-last_of : (n : ℕ) (xs : List A) → length (last_of n xs) ≡ min n (length xs)
  unfolding last_of
  length-last_of n xs = omega (arith, length-drop (length xs - n) xs)

module _ {ℓ} {P : Type ℓ} where
  Consecutive-drop :
      (n : ℕ) (es : List (QueryLogEntry P)) (next : ℕ)
      → Consecutive es next
      → Consecutive (drop n es) next
  Consecutive-drop zero es next h = h
  Consecutive-drop (suc n) [] next h = tt
  Consecutive-drop (suc n) (e ∷ es) next h = Consecutive-drop n es next h.1

  Consecutive-append :
      (es : List (QueryLogEntry P)) (e : QueryLogEntry P)
      → Consecutive es e.id
      → Consecutive (es ++ e ∷ []) (suc e.id)
  Consecutive-append [] e h = (omega arith, tt)
  Consecutive-append (x ∷ es) e h =
      (omega (arith, h.0, length-append es (e ∷ [])), Consecutive-append es e h.1)

  Consecutive-last_of :
      (n : ℕ) (es : List (QueryLogEntry P)) (next : ℕ)
      → Consecutive es next
      → Consecutive (last_of n es) next
  unfolding last_of
  Consecutive-last_of n es next h = Consecutive-drop (length es - n) es next h

  pub new_store-IsLog : (n : ℕ) → IsLog (new_store {P = P} n)
  new_store-IsLog n = record { consecutive = tt; within = omega arith; numbered = omega arith }

  pub append-IsLog : (payload : P) (s : QueryLogStore P) → IsLog s → IsLog (append payload s).1
  unfolding append
  append-IsLog payload s h =
      let e : QueryLogEntry P = record { id = s.next_id; payload = payload } in
      record {
        consecutive =
            Consecutive-last_of s.max_entries (s.entries ++ e ∷ []) (suc s.next_id)
              (Consecutive-append s.entries e h.consecutive);
        within = omega (arith, length-last_of s.max_entries (s.entries ++ e ∷ []));
        numbered = omega (
          arith,
          length-last_of s.max_entries (s.entries ++ e ∷ []),
          length-append s.entries (e ∷ []),
          h.numbered,
        );
      }

  pub resize-IsLog : (n : ℕ) (s : QueryLogStore P) → IsLog s → IsLog (resize n s)
  unfolding resize
  resize-IsLog n s h = elim (Bool-cases (n == s.max_entries)) [
    | inl b ↦ rw b h
    | inr b ↦ rw b (record {
      consecutive = Consecutive-last_of n s.entries s.next_id h.consecutive;
      within = omega (arith, length-last_of n s.entries);
      numbered = omega (arith, length-last_of n s.entries, h.numbered);
    })
  ]

  drop_nil : (n : ℕ) → ◌≡◌ {A = List (QueryLogEntry P)} [] (drop n [])
  drop_nil zero = refl
  drop_nil (suc n) = refl

  drop_all : (es : List (QueryLogEntry P)) → [] ≡ drop (length es) es
  drop_all [] = refl
  drop_all (e ∷ es) = drop_all es

  after_all :
      (k : ℕ) (es : List (QueryLogEntry P)) (next : ℕ)
      → Consecutive es next
      → filterb (λ item. ltb k item.id) es ≡ drop (length es - (next - suc k)) es
  after_all k [] next h = drop_nil (0 - (next - suc k))
  after_all k (e ∷ es) next h = elim (Bool-cases (ltb k e.id)) [
    | inl b ↦
        let none_left : length es - (next - suc k) ≡ 0 = ground (arith, b, h.0) in
        let none_here : suc (length es) - (next - suc k) ≡ 0 = ground (arith, b, h.0) in
        rw (b, none_here) (ap (◌∷◌ e) (after_all k es next h.1 ∙ rw none_left refl))
    | inr b ↦
        let one_more : suc (length es) - (next - suc k) ≡ suc (length es - (next - suc k)) =
          ground (arith, b, h.0) in
        rw (b, one_more) (after_all k es next h.1)
  ]

  recent_all : (s : QueryLogStore P) (n : ℕ) → IsLog s → list_recent n s ≡ last_of n s.entries
  unfolding list_recent last_of
  recent_all s zero h =
      let whole : length s.entries - 0 ≡ length s.entries = omega arith in
      rw whole (drop_all s.entries)
  recent_all s (suc n) h = elim (Bool-cases (min (suc n) s.max_entries == 0)) [
    | inl b ↦
        let empty : length s.entries - suc n ≡ 0 = ground (arith, b, h.within) in rw (b, empty) refl
    | inr b ↦
        let same : length s.entries - min (suc n) s.max_entries ≡ length s.entries - suc n =
          omega (arith, h.within) in
        rw (b, same) refl
  ]

-- The states that calls of `append` and `resize` lead to, from an empty log.
pub data Reaches {ℓ} {P : Type ℓ} (n : ℕ) : QueryLogStore P → Type ℓ where
  created : Reaches n (new_store n)
  appended : {s : QueryLogStore P} (payload : P) → Reaches n s → Reaches n (append payload s).1
  resized : {s : QueryLogStore P} (m : ℕ) → Reaches n s → Reaches n (resize m s)

-- However often the log is written and resized, it holds no more entries than it may, their
-- identifiers follow one another without a gap, and the last is the last that was given out.
pub Reaches-IsLog {ℓ} : {P : Type ℓ} (n : ℕ) (s : QueryLogStore P) → Reaches n s → IsLog s
Reaches-IsLog n s created = new_store-IsLog n
Reaches-IsLog n s (appended {s = t} payload r) = append-IsLog payload t (Reaches-IsLog n t r)
Reaches-IsLog n s (resized {s = t} m r) = resize-IsLog m t (Reaches-IsLog n t r)

-- `list_recent` returns the last entries of the log, as many as asked for, or all if there are fewer;
-- and a subscriber that has seen the entries up to an identifier gets, of those given out after it,
-- exactly the ones that the log still holds: the last `next_id - 1 - seen` entries.
pub IsLog-reads {ℓ} :
    {P : Type ℓ} (s : QueryLogStore P)
    → IsLog s
    → ((n : ℕ) → list_recent n s ≡ last_of n s.entries)
      × ((seen : ℕ) → entries_after seen s ≡ last_of (s.next_id - suc seen) s.entries)
unfolding entries_after last_of
IsLog-reads s h = (λ n. recent_all s n h, λ seen. after_all seen s.entries s.next_id h.consecutive)
