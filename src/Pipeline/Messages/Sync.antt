-- ===== src/Pipeline/Messages/Sync.antt =====
-- What `sync_answer_rrset_to_response` leaves in the answer section of the response.
use mathlib.Core.List.{append-nil}
use python_smartdns.Prelude.{
  ℕ, suc, ◌+◌, Bool, true, false, not, ◌||◌, ◌==◌, Option, none, some, List, [], ◌∷◌, ◌++◌, filterb,
  length, ◌≡◌, refl, ap, ◌∙◌, ◌⊎◌, inl, inr, arith, Bool-cases,
}
use python_smartdns.Outcome.{done}
use python_smartdns.Dns.{RRset, Answer}
use python_smartdns.Pipeline.Messages.{
  same_type, target_index, delete_at, set, place, mismatched, sync_answer_rrset_to_response,
}

abbrev pub drop_last {ℓ} : {A : Type ℓ} → List A → List A
drop_last [] = []
drop_last (x ∷ []) = []
drop_last (x ∷ y ∷ ys) = x ∷ drop_last (y ∷ ys)

abbrev pub option_list {ℓ} : {A : Type ℓ} → Option A → List A
option_list none = []
option_list (some a) = a ∷ []

drop_last-append {ℓ} : {A : Type ℓ} (xs : List A) (x : A) → drop_last (xs ++ x ∷ []) ≡ xs
drop_last-append [] x = refl
drop_last-append (y ∷ []) x = refl
drop_last-append (y ∷ z ∷ zs) x = ap (◌∷◌ y) (drop_last-append (z ∷ zs) x)

filterb-append {ℓ} :
    {A : Type ℓ} (p : A → Bool) (xs ys : List A)
    → filterb p (xs ++ ys) ≡ filterb p xs ++ filterb p ys
filterb-append p [] ys = refl
filterb-append p (x ∷ xs) ys = ground (arith, filterb-append p xs ys)

delete_at-length :
    (pre : List RRset) (x : RRset) (post : List RRset)
    → delete_at (length pre) (pre ++ x ∷ post) ≡ pre ++ post
unfolding delete_at
delete_at-length [] x post = refl
delete_at-length (y ∷ pre) x post = ap (◌∷◌ y) (delete_at-length pre x post)

set-length :
    (pre : List RRset) (x v : RRset) (post : List RRset)
    → set (pre ++ x ∷ post) (length pre) v ≡ pre ++ v ∷ post
unfolding set
set-length [] x v post = refl
set-length (y ∷ pre) x v post = ap (◌∷◌ y) (set-length pre x v post)

module _ (rdtype rdclass : ℕ) where
  abbrev pub of_type : List RRset → List RRset
  of_type = filterb (same_type rdtype rdclass)

  abbrev pub others : List RRset → List RRset
  others = filterb (λ item. not (same_type rdtype rdclass item))

  record Split (items : List RRset) : Type 0 where
    pre : List RRset
    match : RRset
    post : List RRset
    split : items ≡ pre ++ match ∷ post
    matches : same_type rdtype rdclass match ≡ true
    last : of_type post ≡ []
    index : (i : ℕ) (t : Option ℕ) → target_index rdtype rdclass i items t ≡ some (i + length pre)

  record Absent (items : List RRset) : Type 0 where
    none_match : of_type items ≡ []
    index : (i : ℕ) (t : Option ℕ) → target_index rdtype rdclass i items t ≡ t

  target_index-cases : (items : List RRset) → Absent items ⊎ Split items
  unfolding target_index
  target_index-cases [] = inl (record { none_match = refl; index = λ i t. refl })
  target_index-cases (x ∷ xs) = elim (target_index-cases xs) [
    | inr s ↦ inr (record {
      pre = x ∷ s.pre;
      match = s.match;
      post = s.post;
      split = ap (◌∷◌ x) s.split;
      matches = s.matches;
      last = s.last;
      index = λ i t. s.index (suc i) _ ∙ ap some (omega arith);
    })
    | inl a ↦ elim (Bool-cases (same_type rdtype rdclass x)) [
      | inl e ↦ inr (record {
        pre = [];
        match = x;
        post = xs;
        split = refl;
        matches = e;
        last = a.none_match;
        index = λ i t. a.index (suc i) _ ∙ rw e (ap some (omega arith));
      })
      | inr e ↦
          inl (record {
            none_match = rw e a.none_match;
            index = λ i t. a.index (suc i) _ ∙ rw e refl;
          })
    ]
  ]

  -- The record set that is placed is of the type.
  abbrev Fits : Option RRset → Type 0
  Fits none = Unit
  Fits (some r) = same_type rdtype rdclass r ≡ true

  abbrev Placed : Option RRset → List RRset → List RRset → Type 0
  Placed rrset items items' =
      (of_type items' ≡ drop_last (of_type items) ++ option_list rrset)
      × (others items' ≡ others items)

  of_type-split :
      (pre : List RRset) (x : RRset) (post : List RRset)
      → same_type rdtype rdclass x ≡ true
      → of_type post ≡ []
      → of_type (pre ++ x ∷ post) ≡ of_type pre ++ x ∷ []
  of_type-split pre x post e l = rw (filterb-append, e, l)

  others-split :
      (pre : List RRset) (x : RRset) (post : List RRset)
      → same_type rdtype rdclass x ≡ true
      → others (pre ++ x ∷ post) ≡ others pre ++ others post
  others-split pre x post e = rw (filterb-append, e)

  place-absent :
      (rrset : Option RRset) (items : List RRset)
      → Fits rrset
      → of_type items ≡ []
      → Placed rrset items (place rrset none items)
  unfolding place
  place-absent none items f a = (rw a, refl)
  place-absent (some r) items f a = (rw (filterb-append, a, f), rw (filterb-append, f, append-nil))

  place-split :
      (rrset : Option RRset) (pre : List RRset) (x : RRset) (post : List RRset)
      → Fits rrset
      → same_type rdtype rdclass x ≡ true
      → of_type post ≡ []
      → Placed rrset (pre ++ x ∷ post) (place rrset (some (length pre)) (pre ++ x ∷ post))
  unfolding place
  place-split none pre x post f e l = (
    rw (delete_at-length pre x post, of_type-split pre x post e l, drop_last-append)
        (rw (filterb-append, l)),
    rw (delete_at-length pre x post, others-split pre x post e) (rw filterb-append),
  )
  place-split (some r) pre x post f e l = (
    rw (set-length pre x r post, of_type-split pre x post e l, drop_last-append)
        (of_type-split pre r post f l),
    rw (set-length pre x r post, others-split pre x post e) (others-split pre r post f),
  )

  place_lem :
      (rrset : Option RRset) (items : List RRset)
      → Fits rrset
      → Placed rrset items (place rrset (target_index rdtype rdclass 0 items none) items)
  place_lem rrset items f = elim (target_index-cases items) [
    | inl a ↦ rw (a.index 0 none) (place-absent rrset items f a.none_match)
    | inr s ↦
        let e : target_index rdtype rdclass 0 items none ≡ some (length s.pre) =
          s.index 0 none ∙ ap some (omega arith) in
        rw (e, s.split) (place-split rrset s.pre s.match s.post f s.matches s.last)
  ]

mismatched-Fits : (a : Answer) → mismatched a ≡ false → Fits a.rdtype a.rdclass a.rrset
mismatched-Fits a h = go a.rrset h
  where
    go :
        (r : Option RRset)
        → (elim r [
          | none ↦ false
          | some s ↦ not (s.rdtype == a.rdtype) || not (s.rdclass == a.rdclass)
        ])
          ≡ false
        → Fits a.rdtype a.rdclass r
    go none h = tt
    go (some s) h = ground arith

-- The answer that the function returns where it does not raise.
abbrev synced : Answer → Answer
synced a = record a {
  response = record a.response {
    answer =
        place a.rrset (target_index a.rdtype a.rdclass 0 a.response.answer none) a.response.answer;
  };
}

-- After a synchronisation that raises nothing, the response's answer section holds, of the record
-- sets of the type and class asked for, all but the last followed by the answer's own record set if
-- it has one; the record sets of any other type or class are the same, in the same order, and
-- nothing else of the answer has changed.
pub sync_answer_rrset_to_response-places :
    (a a' : Answer)
    → sync_answer_rrset_to_response a ≡ done a'
    → (of_type a.rdtype a.rdclass a'.response.answer
        ≡ drop_last (of_type a.rdtype a.rdclass a.response.answer) ++ option_list a.rrset)
      × ((others a.rdtype a.rdclass a'.response.answer
            ≡ others a.rdtype a.rdclass a.response.answer)
          × (a ≡ record a' { response = record a'.response { answer = a.response.answer } }))
unfolding sync_answer_rrset_to_response
sync_answer_rrset_to_response-places a a' h = elim (Bool-cases (mismatched a)) [
  | inl e ↦ absurd (cc (rw e at h))
  | inr e ↦
      let p = place_lem a.rdtype a.rdclass a.rrset a.response.answer (mismatched-Fits a e) in
      let same : synced a ≡ a' = cc (rw e at h) in rw (← same) (p.0, (p.1, refl))
]
