-- ===== src/Bundled/Https/Steps.antt =====
-- plugins/https_plugin/plugin.py: what the steps on the protocols and on the hints leave of a record.
use python_smartdns.Prelude.{
  ℕ, String, eq_iff, Bool, true, false, not, ◌&&◌, ◌==◌, Bool-cases, Option, none, some, List, [],
  ◌∷◌, any, ◌≤◌, length, ◌≡◌, refl, sym, ap, ◌∙◌, inl, inr, arith, if◌then◌else◌,
}
use python_smartdns.Workers.{has_id}
use python_smartdns.Bundled.Https.{
  Params, Work, key_alpn, key_no_default_alpn, key_ipv4hint, key_ipv6hint, is_h3, without_h3,
  same_texts, put_ids, strip_ids, drop_ipv4hint, drop_ipv6hint, is_some,
}

abbrev pub keys_of_others : List (ℕ × String) → List ℕ
keys_of_others [] = []
keys_of_others (o ∷ os) = o.0 ∷ keys_of_others os

-- `key in params`, for a key other than `mandatory`
abbrev pub has_param : ℕ → Params → Bool
has_param k p =
    if k == key_alpn
    then is_some p.alpn
    else if k == key_no_default_alpn
    then p.no_default_alpn
    else if k == key_ipv4hint
    then is_some p.ipv4hint
    else if k == key_ipv6hint
    then is_some p.ipv6hint
    else has_id k (keys_of_others p.others)

abbrev pub mandatory_keys : Option (List ℕ) → List ℕ
mandatory_keys none = []
mandatory_keys (some keys) = keys

-- What a record must satisfy: the mandatory parameters are there, are not the list itself, and are
-- not an empty list; the default protocol is only left out where others are named.
pub record IsConsistent (p : Params) : Type 0 where
  pub there : (k : ℕ) → has_id k (mandatory_keys p.mandatory) ≡ true → has_param k p ≡ true
  pub some_mandatory : (p.mandatory ≡ some []) → ⊥
  pub default : p.no_default_alpn ≡ true → is_some p.alpn ≡ true

-- The parameters are those of the record but the keys that were removed.
abbrev pub Keeps : Params → Work → Type 0
Keeps p w =
    ((k : ℕ) → has_param k w.params ≡ (has_param k p && not (has_id k w.removed_keys)))
    × (w.params.mandatory ≡ p.mandatory)

put_ids-Keeps :
    (n : ℕ) (ids : List String) (p : Params) → is_some p.alpn ≡ true → Keeps p (put_ids n ids p)
put_ids-Keeps n (id ∷ ids) p h = (λ k. ground (arith, h), refl)
put_ids-Keeps n [] p h = (λ k. ground (arith, h), refl)

pub strip_ids-Keeps : (o : Option (List String)) (p : Params) → p.alpn ≡ o → Keeps p (strip_ids o p)
strip_ids-Keeps none p h = (λ k. ground arith, refl)
strip_ids-Keeps (some ids) p h = elim (Bool-cases (same_texts (without_h3 ids) ids)) [
  | inl e ↦ rw e (λ k. ground arith, refl)
  | inr e ↦ rw e (put_ids-Keeps _ (without_h3 ids) p (ap is_some h))
]

pub drop_ipv4hint-Keeps : (p : Params) (w : Work) → Keeps p w → Keeps p (drop_ipv4hint w)
unfolding drop_ipv4hint
drop_ipv4hint-Keeps p w h = elim (Bool-cases (is_some w.params.ipv4hint)) [
  | inl e ↦ rw e (λ k. ground (arith, e, h.0 k), h.1)
  | inr e ↦ rw e h
]

pub drop_ipv6hint-Keeps : (p : Params) (w : Work) → Keeps p w → Keeps p (drop_ipv6hint w)
unfolding drop_ipv6hint
drop_ipv6hint-Keeps p w h = elim (Bool-cases (is_some w.params.ipv6hint)) [
  | inl e ↦ rw e (λ k. ground (arith, e, h.0 k), h.1)
  | inr e ↦ rw e h
]

-- Protocols without h3; the key goes if none is left.
abbrev pub nonempty : List String → Option (List String)
nonempty [] = none
nonempty (id ∷ ids) = some (id ∷ ids)

abbrev pub clean_alpn : Option (List String) → Option (List String)
clean_alpn none = none
clean_alpn (some ids) = if any is_h3 ids then nonempty (without_h3 ids) else some ids

same_texts-length : (ss ts : List String) → same_texts ss ts ≡ true → length ss ≡ length ts
same_texts-length [] [] h = refl
same_texts-length [] (t ∷ ts) h = cc h
same_texts-length (s ∷ ss) [] h = cc h
same_texts-length (s ∷ ss) (t ∷ ts) h = ground (arith, same_texts-length ss ts, h)

length-without_h3 : (ids : List String) → length (without_h3 ids) ≤ length ids
length-without_h3 [] = omega arith
length-without_h3 (id ∷ ids) = ground (arith, length-without_h3 ids)

same_texts-without_h3 : (ids : List String) → same_texts (without_h3 ids) ids ≡ not (any is_h3 ids)
same_texts-without_h3 [] = refl
same_texts-without_h3 (id ∷ ids) = elim (Bool-cases (is_h3 id)) [
  | inl e ↦ elim (Bool-cases (same_texts (without_h3 ids) (id ∷ ids))) [
    | inl f ↦
        let n = same_texts-length (without_h3 ids) (id ∷ ids) f in
        absurd (omega (arith, n, length-without_h3 ids))
    | inr f ↦ rw (e, f) refl
  ]
  | inr e ↦ rw (e, (eq_iff id id).1 refl, same_texts-without_h3 ids) refl
]

-- The four parts of a record but the keys that must be there.
pub record Parts (p : Params) (w : Work) : Type 0 where
  pub alpn : w.params.alpn ≡ clean_alpn p.alpn
  pub others : w.params.others ≡ p.others
  pub untouched : w.changed ≡ false → w.params ≡ p
  pub default_exact :
      (p.no_default_alpn ≡ true → is_some p.alpn ≡ true)
      → w.params.no_default_alpn ≡ (p.no_default_alpn && is_some w.params.alpn)
  pub default_kept :
      w.params.no_default_alpn ≡ true → is_some p.alpn ≡ true → is_some w.params.alpn ≡ true

given_alpn : (a b : Bool) → (a ≡ true → b ≡ true) → a ≡ (a && b)
given_alpn true b h = sym (h refl)
given_alpn false b h = refl

put_ids-Parts :
    (n : ℕ) (ids : List String) (p : Params)
    → clean_alpn p.alpn ≡ nonempty ids
    → Parts p (put_ids n ids p)
put_ids-Parts n [] p h = record {
  alpn = sym h;
  others = refl;
  untouched = λ e. absurd (cc e);
  default_exact = λ g. ground arith;
  default_kept = λ e f. absurd (cc e);
}
put_ids-Parts n (id ∷ ids) p h = record {
  alpn = sym h;
  others = refl;
  untouched = λ e. absurd (cc e);
  default_exact = λ g. ground arith;
  default_kept = λ e f. refl;
}

pub strip_ids-Parts : (o : Option (List String)) (p : Params) → p.alpn ≡ o → Parts p (strip_ids o p)
strip_ids-Parts none p h = record {
  alpn = h ∙ ap clean_alpn (sym h);
  others = refl;
  untouched = λ e. refl;
  default_exact = λ g. given_alpn p.no_default_alpn (is_some p.alpn) g;
  default_kept = λ e f. f;
}
strip_ids-Parts (some ids) p h = elim (Bool-cases (any is_h3 ids)) [
  | inl e ↦
      let s : same_texts (without_h3 ids) ids ≡ false = same_texts-without_h3 ids ∙ ap not e in
      rw s (put_ids-Parts _ (without_h3 ids) p (ap clean_alpn h ∙ rw e refl))
  | inr e ↦
      let s : same_texts (without_h3 ids) ids ≡ true = same_texts-without_h3 ids ∙ ap not e in
      rw s (record {
        alpn = h ∙ sym (ap clean_alpn h ∙ rw e refl);
        others = refl;
        untouched = λ f. refl;
        default_exact = λ f. given_alpn p.no_default_alpn (is_some p.alpn) f;
        default_kept = λ f g. g;
      })
]

none_of : (o : Option (List String)) → is_some o ≡ false → o ≡ none
none_of none h = refl
none_of (some ids) h = cc h

-- After a step on the hints: the other parts stay, and the hint is gone.
pub drop_ipv4hint-Parts :
    (p : Params) (w : Work)
    → Parts p w
    → Parts p (drop_ipv4hint w) × ((drop_ipv4hint w).params.ipv4hint ≡ none)
unfolding drop_ipv4hint
drop_ipv4hint-Parts p w h = elim (Bool-cases (is_some w.params.ipv4hint)) [
  | inl e ↦ rw e (
    record {
      alpn = h.alpn;
      others = h.others;
      untouched = λ f. absurd (cc f);
      default_exact = h.default_exact;
      default_kept = h.default_kept;
    },
    refl,
  )
  | inr e ↦ rw e (h, none_of w.params.ipv4hint e)
]

pub drop_ipv6hint-Parts :
    (p : Params) (w : Work)
    → Parts p w
    → w.params.ipv4hint ≡ none
    → Parts p (drop_ipv6hint w)
      × ((drop_ipv6hint w).params.ipv4hint ≡ none)
      × ((drop_ipv6hint w).params.ipv6hint ≡ none)
unfolding drop_ipv6hint
drop_ipv6hint-Parts p w h g = elim (Bool-cases (is_some w.params.ipv6hint)) [
  | inl e ↦ rw e (
    record {
      alpn = h.alpn;
      others = h.others;
      untouched = λ f. absurd (cc f);
      default_exact = h.default_exact;
      default_kept = h.default_kept;
    },
    g,
    refl,
  )
  | inr e ↦ rw e (h, g, none_of w.params.ipv6hint e)
]
