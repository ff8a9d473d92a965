-- ===== src/FrontCache.antt =====
-- dns_forwarder/core/front_cache.py: answers kept in front of the workers, and equal queries that wait
-- for the first of them.
pub mod Coalescing
pub mod Pending
pub mod Replaced
pub mod Fair
pub mod Ends
pub mod Moves
pub mod Liveness
use python_smartdns.Prelude.{
  ℕ, suc, String, Bool, true, false, not, ◌&&◌, ◌||◌, ◌==◌, str_eq, Option, none, some, List, [],
  ◌∷◌, length, map, filterb, if◌then◌else◌,
}
use Prim.Native.Nat.{◌-◌}
use python_smartdns.Outcome.{Exn, Outcome, done, raised}
use python_smartdns.Exec.{Exec, pure, lift, get, modify, ◌>>=◌, ◌>>◌}
use python_smartdns.Dns.{
  Question, RRset, Message, Answer, Wire, Dnspython, opcode_query, class_in, noerror,
}
use python_smartdns.Pipeline.Messages.{clone_response_for_request, build_answer_from_response}

pub record Key : Type 0 where
  pub name : String
  pub rdtype : ℕ
  pub rdclass : ℕ

abbrev pub same_key : Key → Key → Bool
same_key k l = str_eq k.name l.name && k.rdtype == l.rdtype && k.rdclass == l.rdclass

-- dnspython's `LRUCache`: `get` also drops what has expired.
pub record LruCache (C : Type 0) : Type 0 where
  pub get : C → Key → Option Answer × C
  pub put : C → Key → Answer → C

-- `FrontCache`. An event is a number; `holders` has the events that are set, each with the `wire` of
-- its holder, and `next_event` is the next event to be made.
pub record FrontCache (C : Type 0) : Type 0 where
  pub cache : C
  pub pending : List (Key × ℕ)
  pub holders : List (ℕ × Option Wire)
  pub next_event : ℕ

-- `_pending.get(key)`, `_pending.pop(key, None)`
abbrev pub lookup : List (Key × ℕ) → Key → Option ℕ
lookup [] key = none
lookup ((k, event) ∷ rest) key = if same_key k key then some event else lookup rest key

abbrev pub without : List (Key × ℕ) → Key → List (Key × ℕ)
without [] key = []
without ((k, event) ∷ rest) key =
    if same_key k key then without rest key else (k, event) ∷ without rest key

-- The holder of an event, if the event is set.
abbrev pub holder_of : List (ℕ × Option Wire) → ℕ → Option (Option Wire)
holder_of [] event = none
holder_of ((e, wire) ∷ rest) event = if e == event then some wire else holder_of rest event

abbrev pub key_of : Message → List Question → Option Key
key_of request [] = none
key_of request (question ∷ rest) =
    if not (question.rdclass == class_in)
    then none
    else some
        (record { name = question.name; rdtype = question.rdtype; rdclass = question.rdclass })

-- `_make_key_from_request`
unfoldable pub make_key_from_request : Message → Option Key
make_key_from_request request =
    if not (request.opcode == opcode_query) || not (length request.question == 1)
    then none
    else key_of request request.question

-- OPT and TSIG keep their own time to live.
abbrev pub with_ttl : ℕ → RRset → RRset
with_ttl ttl rrset =
    if rrset.rdtype == 41 || rrset.rdtype == 250 then rrset else record rrset { ttl = ttl }

module _ (d : Dnspython) where
  -- `_clone_response`
  unfoldable pub clone_response : Answer → Message → Outcome Message
  clone_response answer request = elim (clone_response_for_request d answer.response request) [
    | raised x ↦ raised x
    | done cloned ↦
        let ttl = answer.expiration - d.now in
        done (record cloned {
          answer = map (with_ttl ttl) cloned.answer;
          authority = map (with_ttl ttl) cloned.authority;
          additional = map (with_ttl ttl) cloned.additional;
        })
  ]

  abbrev pub cloned_hit : Option Answer → Message → Outcome (Option Message)
  cloned_hit none request = done none
  cloned_hit (some answer) request = elim (clone_response answer request) [
    | done m ↦ done (some m)
    | raised x ↦ raised x
  ]

  module _ {C : Type 0} (lru : LruCache C) where
    unfoldable pub get_response : Message → Exec (FrontCache C) (Option Message)
    get_response request = elim (make_key_from_request request) [
      | none ↦ pure none
      | some key ↦ λ f.
          let (cached, cache') = lru.get f.cache key in
          (cloned_hit cached request, record f { cache = cache' })
    ]

    abbrev pub keep_answer : Key → Answer → Exec (FrontCache C) Bool
    keep_answer key answer = elim answer.rrset [
      | none ↦ pure false
      | some rrset ↦ do modify (λ f. record f { cache = lru.put f.cache key answer }); pure true
    ]

    abbrev pub put_message : Message → Message → Exec (FrontCache C) Bool
    put_message request response =
        if not (response.rcode == noerror)
        then pure false
        else elim (make_key_from_request request) [
          | none ↦ pure false
          | some key ↦ do
            answer ← lift (build_answer_from_response d request response)
            keep_answer key answer
        ]

    unfoldable pub put_response : Message → Option Message → Exec (FrontCache C) Bool
    put_response request none = pure false
    put_response request (some response) = put_message request response

-- What the holder gets: none, or the rendered response, which may raise.
abbrev pub holder_wire : Dnspython → Option Message → Bool → Outcome (Option Wire)
holder_wire d response true = done none
holder_wire d none false = done none
holder_wire d (some m) false = elim (d.to_wire m) [ done w ↦ done (some w) | raised x ↦ raised x ]

module _ {C : Type 0} where
  -- `acquire_pending` on the key: the event to wait for, or none for the one who asks
  unfoldable pub acquire_key : Key → FrontCache C → Option ℕ × FrontCache C
  acquire_key key f = elim (lookup f.pending key) [
    | some event ↦ (some event, f)
    | none ↦ (
      none,
      record f { pending = (key, f.next_event) ∷ f.pending; next_event = suc f.next_event },
    )
  ]

  unfoldable pub acquire_pending : Message → FrontCache C → (Option Key × Option ℕ) × FrontCache C
  acquire_pending request f = elim (make_key_from_request request) [
    | none ↦ ((none, none), f)
    | some key ↦ let (event, f') = acquire_key key f in ((some key, event), f')
  ]

  -- `complete_pending`
  unfoldable pub complete_pending :
      Dnspython → Option Key → Option Message → Bool → Exec (FrontCache C) (Unit {0})
  complete_pending d none response cache_written f = (done tt, f)
  complete_pending d (some key) response cache_written f = elim (lookup f.pending key) [
    | none ↦ (done tt, f)
    | some event ↦ elim (holder_wire d response cache_written) [
      | raised x ↦ (raised x, record f { pending = without f.pending key })
      | done wire ↦ (
        done tt,
        record f { pending = without f.pending key; holders = (event, wire) ∷ f.holders },
      )
    ]
  ]

-- `wait_for_pending_response`, once the event is set
unfoldable pub shared_response : Dnspython → Option Wire → Message → Outcome (Option Message)
shared_response d none request = done none
shared_response d (some wire) request = elim (d.from_wire wire) [
  | raised x ↦ raised x
  | done m ↦ elim (clone_response_for_request d m request) [
    | done r ↦ done (some r)
    | raised x ↦ raised x
  ]
]
