-- ===== src/Bundled/SpeedTest/Reserved.antt =====
-- plugins/speedtest_plugin/models.py: no address is given out twice in a request. A call of
-- `reserve_ips` holds the lock, so that concurrent calls are a sequence.
use python_smartdns.Prelude.{
  elem-append, elem-same, elem-update, String, str_eq, eq_iff, Bool, true, false, not, ◌&&◌, ◌||◌,
  Bool-cases, List, [], ◌∷◌, ◌++◌, elem, update, filterb, ◌≡◌, refl, ◌∙◌, ◌⊎◌, inl, inr, arith,
}
use python_smartdns.Config.References.Names.{Distinct}
use python_smartdns.Bundled.SpeedTest.{append_new, unique_ips, SpeedTestContext, reserve_ips}

-- What a sequence of calls gives, and what it was asked for.
unfoldable pub reserve_all : List (List String) → SpeedTestContext → List String
unfolding reserve_ips
reserve_all [] context = []
reserve_all (ips ∷ calls) context =
    let (candidates, reserved) = reserve_ips ips context in candidates ++ reserve_all calls reserved

abbrev pub is_asked : String → List (List String) → Bool
is_asked x [] = false
is_asked x (ips ∷ calls) = elem x ips || is_asked x calls

elem-append_new :
    (x : String) (ips : List String) (ip : String)
    → elem x (append_new ips ip) ≡ (elem x ips || str_eq ip x)
elem-append_new x ips ip = elim (Bool-cases (elem ip ips)) [
  | inl e ↦ elim (Bool-cases (str_eq ip x)) [
    | inl f ↦ ground (arith, e, f, elem-same x ip ips f)
    | inr f ↦ ground (arith, e, f)
  ]
  | inr e ↦ rw e (elem-append x ips (ip ∷ []) ∙ ground arith)
]

elem-unique_ips :
    (x : String) (seen ips : List String)
    → elem x (unique_ips seen ips) ≡ (elem x seen || elem x ips)
elem-unique_ips x seen [] = ground arith
elem-unique_ips x seen (ip ∷ ips) =
    ground (arith, elem-unique_ips x (append_new seen ip) ips, elem-append_new x seen ip)

elem-new :
    (x : String) (seen ips : List String)
    → elem x (filterb (λ ip. not (elem ip seen)) ips) ≡ (elem x ips && not (elem x seen))
elem-new x seen [] = refl
elem-new x seen (ip ∷ ips) = elim (Bool-cases (elem ip seen)) [
  | inl e ↦ elim (Bool-cases (str_eq ip x)) [
    | inl f ↦ ground (arith, e, f, elem-new x seen ips, elem-same x ip seen f)
    | inr f ↦ ground (arith, e, f, elem-new x seen ips)
  ]
  | inr e ↦ elim (Bool-cases (str_eq ip x)) [
    | inl f ↦ ground (arith, e, f, elem-new x seen ips, elem-same x ip seen f)
    | inr f ↦ ground (arith, e, f, elem-new x seen ips)
  ]
]

append-Distinct :
    (xs ys : List String)
    → Distinct xs
    → Distinct ys
    → ((x : String) → elem x xs ≡ true → elem x ys ≡ false)
    → Distinct (xs ++ ys)
append-Distinct [] ys h k apart = k
append-Distinct (x ∷ xs) ys h k apart = (
  elem-append x xs ys ∙ ground (arith, h.0, apart x (ground (arith, eq_iff x x))),
  append-Distinct xs ys h.1 k (λ z m. apart z (ground (arith, m))),
)

unique_ips-Distinct : (seen ips : List String) → Distinct seen → Distinct (unique_ips seen ips)
unique_ips-Distinct seen [] h = h
unique_ips-Distinct seen (ip ∷ ips) h =
    unique_ips-Distinct (append_new seen ip) ips (new (Bool-cases (elem ip seen)))
  where
    new : (elem ip seen ≡ true) ⊎ (elem ip seen ≡ false) → Distinct (append_new seen ip)
    new (inl e) = rw e h
    new (inr e) = rw e (
        append-Distinct seen (ip ∷ []) h (refl, tt)
          (λ x m. elim (Bool-cases (str_eq ip x)) [
            | inl f ↦ absurd (cc (e, m, elem-same x ip seen f))
            | inr f ↦ ground (arith, f)
          ]))

new-Distinct :
    (seen ips : List String) → Distinct ips → Distinct (filterb (λ ip. not (elem ip seen)) ips)
new-Distinct seen [] h = tt
new-Distinct seen (ip ∷ ips) h = elim (Bool-cases (elem ip seen)) [
  | inl e ↦ rw e (new-Distinct seen ips h.1)
  | inr e ↦ rw e (elem-new ip seen ips ∙ ground (arith, h.0), new-Distinct seen ips h.1)
]

elem-reserve_all :
    (x : String) (calls : List (List String)) (context : SpeedTestContext)
    → elem x (reserve_all calls context) ≡ (is_asked x calls && not (elem x context.seen_ips))
unfolding reserve_all
elem-reserve_all x [] context = refl
elem-reserve_all x (ips ∷ calls) context =
    let new = filterb (λ ip. not (elem ip context.seen_ips)) (unique_ips [] ips) in
    let later = record context { seen_ips = update context.seen_ips new } in
    elem-append x new (reserve_all calls later)
    ∙ ground (
      arith,
      elem-reserve_all x calls later,
      elem-update x context.seen_ips new,
      elem-new x context.seen_ips (unique_ips [] ips),
      elem-unique_ips x [] ips,
    )

-- Whatever the calls of `reserve_ips` in a request ask for, in whatever order they come: an address
-- is given out to be measured at most once, and it is given out exactly if it is asked for and was not
-- seen before.
pub reserve_all-Distinct :
    (calls : List (List String)) (context : SpeedTestContext)
    → Distinct (reserve_all calls context)
      × ((x : String)
          → elem x (reserve_all calls context)
            ≡ (is_asked x calls && not (elem x context.seen_ips)))
unfolding reserve_all
reserve_all-Distinct [] context = (tt, λ x. refl)
reserve_all-Distinct (ips ∷ calls) context =
    let new = filterb (λ ip. not (elem ip context.seen_ips)) (unique_ips [] ips) in
    let later = record context { seen_ips = update context.seen_ips new } in
    (
      append-Distinct new (reserve_all calls later)
          (new-Distinct context.seen_ips (unique_ips [] ips) (unique_ips-Distinct [] ips tt))
          (reserve_all-Distinct calls later).0
          (λ x m.
            elem-reserve_all x calls later ∙ ground (arith, m, elem-update x context.seen_ips new)),
      λ x. elem-reserve_all x (ips ∷ calls) context,
    )
