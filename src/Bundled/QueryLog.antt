-- ===== src/Bundled/QueryLog.antt =====
-- plugins/query_log_plugin/service.py: the log of the last queries, as it is under its lock. A
-- `deque` with `maxlen` is a list, oldest entry first.
pub mod Retained
use python_smartdns.Prelude.{
  ℕ, zero, suc, ◌+◌, String, Bool, true, false, ltb, ◌==◌, List, [], ◌∷◌, ◌++◌, length, filterb,
  if◌then◌else◌,
}
use Prim.Native.Nat.{◌-◌, min}

-- `QueryLogEntry`: the identifier and the fields of the payload
pub record QueryLogEntry {ℓ} (P : Type ℓ) : Type ℓ where
  pub id : ℕ
  pub payload : P

pub record QueryLogStore {ℓ} (P : Type ℓ) : Type ℓ where
  pub max_entries : ℕ
  pub entries : List (QueryLogEntry P)
  pub next_id : ℕ

module _ {ℓ} {A : Type ℓ} where
  abbrev pub drop : ℕ → List A → List A
  drop zero xs = xs
  drop (suc n) [] = []
  drop (suc n) (x ∷ xs) = drop n xs

  -- The last `n` of a list: what a `deque` of this size keeps, and `items[-n:]` for `n > 0`
  unfoldable pub last_of : ℕ → List A → List A
  last_of n xs = drop (length xs - n) xs

module _ {ℓ} {P : Type ℓ} where
  abbrev pub new_store : ℕ → QueryLogStore P
  new_store max_entries = record { max_entries = max_entries; entries = []; next_id = 1 }

  unfoldable pub resize : ℕ → QueryLogStore P → QueryLogStore P
  resize max_entries s =
      if max_entries == s.max_entries
      then s
      else record s { max_entries = max_entries; entries = last_of max_entries s.entries }

  -- `append`, with the entry that it returns
  unfoldable pub append : P → QueryLogStore P → QueryLogEntry P × QueryLogStore P
  append payload s =
      let entry : QueryLogEntry P = record { id = s.next_id; payload = payload } in
      (
        entry,
        record s {
          next_id = suc s.next_id;
          entries = last_of s.max_entries (s.entries ++ entry ∷ []);
        },
      )

  -- `list_recent` for a limit above zero, and for one of zero or below: `items[-0:]` is the whole list
  unfoldable pub list_recent : ℕ → QueryLogStore P → List (QueryLogEntry P)
  list_recent zero s = []
  list_recent (suc n) s =
      if min (suc n) s.max_entries == 0
      then s.entries
      else last_of (min (suc n) s.max_entries) s.entries

  -- `_entries_after`
  unfoldable pub entries_after : ℕ → QueryLogStore P → List (QueryLogEntry P)
  entries_after entry_id s = filterb (λ item. ltb entry_id item.id) s.entries
