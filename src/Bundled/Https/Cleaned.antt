-- ===== src/Bundled/Https/Cleaned.antt =====
-- plugins/https_plugin/plugin.py: what is left of a record.
use python_smartdns.Prelude.{
  ℕ, true, false, not, ◌&&◌, ◌||◌, ◌==◌, Bool-cases, Option, none, some, filterb, if◌then◌else◌,
  List, [], ◌∷◌, is_empty, ◌≡◌, refl, sym, ap, subst, ◌∙◌, inl, inr, arith,
}
use python_smartdns.Dns.{Rdata}
use python_smartdns.Workers.{has_id}
use python_smartdns.Bundled.Https.{
  Params, Work, is_some, HttpsRdata, sanitize_https_rdata, same_keys, strip_alpn, drop_ipv4hint,
  drop_ipv6hint, remaining_keys, put_mandatory, strip_mandatory, fix_mandatory, sanitize_params,
}
use python_smartdns.Bundled.Https.Steps.{
  has_param, mandatory_keys, IsConsistent, Keeps, clean_alpn, Parts, strip_ids-Keeps,
  drop_ipv4hint-Keeps, drop_ipv6hint-Keeps, strip_ids-Parts, drop_ipv4hint-Parts,
  drop_ipv6hint-Parts,
}

has_id-remaining_keys :
    (k : ℕ) (removed keys : List ℕ)
    → has_id k (remaining_keys removed keys) ≡ (has_id k keys && not (has_id k removed))
has_id-remaining_keys k removed [] = refl
has_id-remaining_keys k removed (j ∷ keys) = elim (Bool-cases (j == k)) [
  | inl e ↦
      let same : j ≡ k = ground (arith, e) in
      let moved : has_id j removed ≡ has_id k removed = ap (λ i. has_id i removed) same in
      ground (arith, e, moved, has_id-remaining_keys k removed keys)
  | inr e ↦ ground (arith, e, has_id-remaining_keys k removed keys)
]

same_keys-has_id : (k : ℕ) (js ks : List ℕ) → same_keys js ks ≡ true → has_id k js ≡ has_id k ks
same_keys-has_id k [] [] h = refl
same_keys-has_id k [] (l ∷ ks) h = cc h
same_keys-has_id k (j ∷ js) [] h = cc h
same_keys-has_id k (j ∷ js) (l ∷ ks) h =
    let same : j ≡ l = ground (arith, h) in
    let ih = same_keys-has_id k js ks (ground (arith, h)) in
    ap (λ i. i == k || has_id k js) same ∙ ap (λ b. l == k || b) ih

-- The mandatory keys that are still there; there is no list if none is.
abbrev pub nonempty_keys : List ℕ → Option (List ℕ)
nonempty_keys [] = none
nonempty_keys (k ∷ ks) = some (k ∷ ks)

abbrev pub present_keys : Params → Option (List ℕ) → Option (List ℕ)
present_keys q none = none
present_keys q (some keys) = nonempty_keys (filterb (λ k. has_param k q) keys)

-- A record after the cleaning: h3 and the hints are gone, the rest is as it was, and the record is
-- as consistent as it was.
pub record IsCleaned (p q : Params) : Type 0 where
  pub alpn : q.alpn ≡ clean_alpn p.alpn
  pub ipv4hint : q.ipv4hint ≡ none
  pub ipv6hint : q.ipv6hint ≡ none
  pub others : q.others ≡ p.others
  pub no_default_alpn : q.no_default_alpn ≡ (p.no_default_alpn && is_some q.alpn)
  pub mandatory : q.mandatory ≡ present_keys q p.mandatory
  pub params : (k : ℕ) → has_param k q ≡ true → has_param k p ≡ true
  pub consistent : IsConsistent q

module _ (p : Params) (good : IsConsistent p) (w : Work) (keeps : Keeps p w) (parts : Parts p w)
    (no4 : w.params.ipv4hint ≡ none) (no6 : w.params.ipv6hint ≡ none) where
  -- The list of mandatory keys after the step, by what it may hold.
  settled :
      (m : Option (List ℕ))
      → ((k : ℕ)
          → has_id k (mandatory_keys m) ≡ true
          → (has_id k (mandatory_keys p.mandatory) ≡ true) × (has_id k w.removed_keys ≡ false))
      → (m ≡ some [] → ⊥)
      → m ≡ present_keys w.params p.mandatory
      → IsCleaned p (record w.params { mandatory = m })
  settled m within filled exact = record {
    alpn = parts.alpn;
    ipv4hint = no4;
    ipv6hint = no6;
    others = parts.others;
    no_default_alpn = parts.default_exact good.default;
    mandatory = exact;
    params = λ k h. ground (arith, h, keeps.0 k);
    consistent = record {
      there = λ k h. let (i, r) = within k h in keeps.0 k ∙ ground (arith, good.there k i, r);
      some_mandatory = filled;
      default = λ h.
          let d : p.no_default_alpn ≡ true = ground (arith, keeps.0 2, h) in
          parts.default_kept h (good.default d);
    };
  }

  -- The mandatory keys that are there are those that were not removed.
  present-remaining :
      (keys : List ℕ)
      → ((k : ℕ) → has_id k keys ≡ true → has_param k p ≡ true)
      → filterb (λ k. has_param k w.params) keys ≡ remaining_keys w.removed_keys keys
  present-remaining [] h = refl
  present-remaining (k ∷ keys) h =
      let same : has_param k w.params ≡ not (has_id k w.removed_keys) =
        keeps.0 k ∙ ap (λ b. b && not (has_id k w.removed_keys)) (h k (ground arith)) in
      let rest = present-remaining keys (λ j m. h j (ground (arith, m))) in
      ap (λ ks. if has_param k w.params then k ∷ ks else ks) rest
      ∙ ap
          (λ b.
            if b
            then k ∷ remaining_keys w.removed_keys keys
            else remaining_keys w.removed_keys keys)
          same

  exactly :
      (keys : List ℕ)
      → p.mandatory ≡ some keys
      → nonempty_keys (remaining_keys w.removed_keys keys) ≡ present_keys w.params p.mandatory
  exactly keys m =
      ap nonempty_keys (
        sym (
          present-remaining keys
            (λ k i. good.there k (ap (λ o. has_id k (mandatory_keys o)) m ∙ i))))
      ∙ ap (present_keys w.params) (sym m)

  all_remain :
      (keys : List ℕ)
      → ((k : ℕ) → has_id k keys ≡ true → has_id k w.removed_keys ≡ false)
      → remaining_keys w.removed_keys keys ≡ keys
  all_remain [] h = refl
  all_remain (k ∷ keys) h =
      let stays : has_id k w.removed_keys ≡ false = h k (ground arith) in
      rw stays (ap (λ ks. k ∷ ks) (all_remain keys (λ j m. h j (ground (arith, m)))))

  filled_keys : (keys : List ℕ) → (some keys ≡ some [] → ⊥) → some keys ≡ nonempty_keys keys
  filled_keys [] h = absurd (h refl)
  filled_keys (k ∷ keys) h = refl

  unremoved :
      (keys : List ℕ)
      → (is_empty w.removed_keys || same_keys (remaining_keys w.removed_keys keys) keys) ≡ true
      → (k : ℕ) → has_id k keys ≡ true
      → has_id k w.removed_keys ≡ false
  unremoved keys h k i = elim (Bool-cases (same_keys (remaining_keys w.removed_keys keys) keys)) [
    | inl e ↦
        let a = same_keys-has_id k (remaining_keys w.removed_keys keys) keys e in
        ground (arith, a, i, has_id-remaining_keys k w.removed_keys keys)
    | inr e ↦ empty w.removed_keys (ground (arith, h, e))
  ]
    where
      empty : (ks : List ℕ) → is_empty ks ≡ true → has_id k ks ≡ false
      empty [] f = refl
      empty (j ∷ ks) f = cc f

  put_mandatory-IsCleaned :
      (keys rest : List ℕ)
      → p.mandatory ≡ some keys
      → remaining_keys w.removed_keys keys ≡ rest
      → IsCleaned p (put_mandatory rest w).params
        × ((put_mandatory rest w).changed ≡ false → (put_mandatory rest w).params ≡ p)
  put_mandatory-IsCleaned keys [] m h = (
    settled none (λ k i. absurd (cc i)) (λ e. cc e) (ap nonempty_keys (sym h) ∙ exactly keys m),
    λ e. absurd (cc e),
  )
  put_mandatory-IsCleaned keys (j ∷ rest) m h = (
    settled (some (j ∷ rest)) (λ k i. within k i) (λ e. cc e)
        (ap nonempty_keys (sym h) ∙ exactly keys m),
    λ e. absurd (cc e),
  )
    where
      within :
          (k : ℕ)
          → has_id k (j ∷ rest) ≡ true
          → (has_id k (mandatory_keys p.mandatory) ≡ true) × (has_id k w.removed_keys ≡ false)
      within k i =
          let same : has_id k (j ∷ rest) ≡ (has_id k keys && not (has_id k w.removed_keys)) =
            ap (has_id k) (sym h) ∙ has_id-remaining_keys k w.removed_keys keys in
          let own : has_id k (mandatory_keys p.mandatory) ≡ has_id k keys =
            ap (λ o. has_id k (mandatory_keys o)) m in
          (ground (arith, same, own, i), ground (arith, same, i))

  strip_mandatory-IsCleaned :
      (o : Option (List ℕ))
      → w.params.mandatory ≡ o
      → IsCleaned p (strip_mandatory o w).params
        × ((strip_mandatory o w).changed ≡ false → (strip_mandatory o w).params ≡ p)
  strip_mandatory-IsCleaned none m = (
    subst (λ v. IsCleaned p (record w.params { mandatory = v })) (sym m)
        (settled none (λ k i. absurd (cc i)) (λ e. cc e)
          (ap (present_keys w.params) (sym m ∙ keeps.1))),
    parts.untouched,
  )
  strip_mandatory-IsCleaned (some keys) m =
      elim (Bool-cases
        (is_empty w.removed_keys || same_keys (remaining_keys w.removed_keys keys) keys)) [
          | inl e ↦ rw e (
            settled w.params.mandatory
                (λ k i.
                  let own : has_id k (mandatory_keys w.params.mandatory)
                      ≡ has_id k (mandatory_keys p.mandatory) =
                    ap (λ v. has_id k (mandatory_keys v)) keeps.1 in
                  let at : has_id k keys ≡ true =
                    ap (λ v. has_id k (mandatory_keys v)) (sym m) ∙ i in
                  (sym own ∙ i, unremoved keys e k at))
                (λ f. good.some_mandatory (sym keeps.1 ∙ f))
                (m
                  ∙ filled_keys keys (λ f. good.some_mandatory (sym keeps.1 ∙ m ∙ f))
                  ∙ ap nonempty_keys (sym (all_remain keys (unremoved keys e)))
                  ∙ exactly keys (sym keeps.1 ∙ m)),
            parts.untouched,
          )
          | inr e ↦ rw e (
              put_mandatory-IsCleaned keys (remaining_keys w.removed_keys keys) (sym keeps.1 ∙ m)
                refl)
        ]

sanitize_params-IsCleaned :
    (p : Params)
    → IsConsistent p
    → IsCleaned p (sanitize_params p).params
      × ((sanitize_params p).changed ≡ false → (sanitize_params p).params ≡ p)
unfolding sanitize_params fix_mandatory strip_alpn
sanitize_params-IsCleaned p good =
    let a = strip_ids-Parts p.alpn p refl in
    let (b, g) = drop_ipv4hint-Parts p (strip_alpn p) a in
    let (c, no4, no6) = drop_ipv6hint-Parts p (drop_ipv4hint (strip_alpn p)) b g in
    let w = drop_ipv6hint (drop_ipv4hint (strip_alpn p)) in
    let keeps = drop_ipv6hint-Keeps p _ (drop_ipv4hint-Keeps p _ (strip_ids-Keeps p.alpn p refl)) in
    strip_mandatory-IsCleaned p good w keeps c no4 no6 w.params.mandatory refl

-- If a record with the new parameters put in has those, then a record that is consistent comes out
-- consistent and without the protocol h3 and the hints: the other protocols stand in their order, the
-- parameters that the plugin does not name are as they were, the mark that the default protocol is not
-- meant stays where a protocol is left, and of the mandatory keys exactly those stay, in their order,
-- whose parameters are still there, without a list if none is left.
pub sanitize_https_rdata-IsCleaned :
    (h : HttpsRdata) (r : Rdata)
    → (let q = (sanitize_params (h.params r)).params in h.params (h.replace r q) ≡ q)
    → IsConsistent (h.params r)
    → IsCleaned (h.params r) (h.params (sanitize_https_rdata h r))
unfolding sanitize_https_rdata
sanitize_https_rdata-IsCleaned h r put good =
    let (clean, same) = sanitize_params-IsCleaned (h.params r) good in
    elim (Bool-cases (sanitize_params (h.params r)).changed) [
      | inl e ↦ rw e (subst (IsCleaned (h.params r)) (sym put) clean)
      | inr e ↦ rw e (subst (IsCleaned (h.params r)) (same e) clean)
    ]
