-- ===== src/Sets/Domains/Lookup.antt =====
-- dns_forwarder/core/domainset.py: which tags a name has.
use python_smartdns.Prelude.{
  true, Bool-cases, List, [], ◌∷◌, ◌≡◌, ◌↔◌, ◌⊎◌, sym, subst, inl, inr, iff_trans, regroup, arith,
}
use python_smartdns.Sets.Texts.{
  Text, text_eq, text_eq_refl, eq_of_text_eq, mem_text, update_texts, mem_text-update,
}
use python_smartdns.Sets.Domains.{decode_tags, add_values, add_matches}
use python_smartdns.Sets.Domains.Entries.{Decodes}

module _ (tag : Text) where
  -- What a value adds to the set.
  decoded_iff :
      (v : Text) (tags : List Text)
      → (mem_text tag (update_texts tags (decode_tags v)) ≡ true)
        ↔ ((mem_text tag tags ≡ true) ⊎ (mem_text tag (decode_tags v) ≡ true))
  decoded_iff v tags = (forth, back)
    where
      forth :
          mem_text tag (update_texts tags (decode_tags v)) ≡ true
          → (mem_text tag tags ≡ true) ⊎ (mem_text tag (decode_tags v) ≡ true)
      forth h = elim (Bool-cases (mem_text tag tags)) [
        | inl e ↦ inl e
        | inr e ↦ inr (ground (arith, h, e, mem_text-update tag tags (decode_tags v)))
      ]

      back :
          (mem_text tag tags ≡ true) ⊎ (mem_text tag (decode_tags v) ≡ true)
          → mem_text tag (update_texts tags (decode_tags v)) ≡ true
      back (inl e) = ground (arith, e, mem_text-update tag tags (decode_tags v))
      back (inr e) = ground (arith, e, mem_text-update tag tags (decode_tags v))

  Decodes-cons :
      (v : Text) (vs : List Text)
      → Decodes tag (v ∷ vs) ↔ ((mem_text tag (decode_tags v) ≡ true) ⊎ Decodes tag vs)
  Decodes-cons v vs = (λ h. forth h.0 h.1 h.2, back)
    where
      forth :
          (w : Text)
          → mem_text w (v ∷ vs) ≡ true
          → mem_text tag (decode_tags w) ≡ true
          → (mem_text tag (decode_tags v) ≡ true) ⊎ Decodes tag vs
      forth w i d = elim (Bool-cases (text_eq v w)) [
        | inl e ↦
            let same = eq_of_text_eq v w e in
            inl (subst (λ t. mem_text tag (decode_tags t) ≡ true) (sym same) d)
        | inr e ↦ inr (w, ground (arith, i, e), d)
      ]

      back : (mem_text tag (decode_tags v) ≡ true) ⊎ Decodes tag vs → Decodes tag (v ∷ vs)
      back (inl d) = (v, ground (arith, text_eq_refl v), d)
      back (inr (w, i, d)) = (w, ground (arith, i), d)

  add_values_iff :
      (vs tags : List Text)
      → (mem_text tag (add_values vs tags) ≡ true) ↔ ((mem_text tag tags ≡ true) ⊎ Decodes tag vs)
  unfolding add_values
  add_values_iff [] tags = (λ h. inl h, only)
    where
      only : (mem_text tag tags ≡ true) ⊎ Decodes tag [] → mem_text tag tags ≡ true
      only (inl h) = h
      only (inr h) = absurd (cc h.1)
  add_values_iff (v ∷ vs) tags =
      iff_trans (add_values_iff vs (update_texts tags (decode_tags v)))
        (regroup (decoded_iff v tags) (Decodes-cons v vs))

  module _ (values : Text → List Text) where
    -- A key with a value with the tag in it.
    abbrev pub Found : List Text → Type 0
    Found keys = (key : Text) × (mem_text key keys ≡ true) × Decodes tag (values key)

    Found-cons :
        (key : Text) (keys : List Text)
        → Found (key ∷ keys) ↔ (Decodes tag (values key) ⊎ Found keys)
    Found-cons key keys = (λ h. forth h.0 h.1 h.2, back)
      where
        forth :
            (k : Text)
            → mem_text k (key ∷ keys) ≡ true
            → Decodes tag (values k)
            → Decodes tag (values key) ⊎ Found keys
        forth k i d = elim (Bool-cases (text_eq key k)) [
          | inl e ↦ inl (subst (λ t. Decodes tag (values t)) (sym (eq_of_text_eq key k e)) d)
          | inr e ↦ inr (k, ground (arith, i, e), d)
        ]

        back : Decodes tag (values key) ⊎ Found keys → Found (key ∷ keys)
        back (inl d) = (key, ground (arith, text_eq_refl key), d)
        back (inr (k, i, d)) = (k, ground (arith, i), d)

    pub add_matches_iff :
        (keys tags : List Text)
        → (mem_text tag (add_matches values keys tags) ≡ true)
          ↔ ((mem_text tag tags ≡ true) ⊎ Found keys)
    unfolding add_matches
    add_matches_iff [] tags = (λ h. inl h, only)
      where
        only : (mem_text tag tags ≡ true) ⊎ Found [] → mem_text tag tags ≡ true
        only (inl h) = h
        only (inr h) = absurd (cc h.1)
    add_matches_iff (key ∷ keys) tags =
        iff_trans (add_matches_iff keys (add_values (values key) tags))
          (regroup (add_values_iff (values key) tags) (Found-cons key keys))
