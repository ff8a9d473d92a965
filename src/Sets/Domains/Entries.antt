-- ===== src/Sets/Domains/Entries.antt =====
-- dns_forwarder/core/domainset.py: what `_build_domain_entries` makes of the loaded files, and what the
-- items of the trie hold.
use python_smartdns.Prelude.{
  true, ◌&&◌, ◌||◌, Bool-cases, List, [], ◌∷◌, All, ◌≡◌, ◌↔◌, ◌⊎◌, sym, ap, subst, ◌∙◌, inl, inr,
  iff_trans, iff_refl, regroup, arith,
}
use python_smartdns.Outcome.{done, >>=-eq-done}
use python_smartdns.Sets.Texts.{
  Text, text_eq, text_eq_refl, eq_of_text_eq, mem_text, Multimap, add_to, has,
}
use python_smartdns.Sets.Files.{Unicode}
use python_smartdns.Sets.Listed.{has-added}
use python_smartdns.Sets.Domains.{
  reverse_domain, encode_tags, decode_tags, keys_of, values_of, encoded, add_domains, add_tags,
}
use python_smartdns.Sets.Domains.Coding.{IsTag, decode_tags-encode_tags, All-mem_text}

module _ (u : Unicode) (key tag : Text) where
  abbrev Has : Multimap → Type 0
  Has m = has key tag m ≡ true

  -- One of the domains has the key.
  abbrev Names : List Text → Type 0
  Names [] = ⊥
  Names (d ∷ ds) = (reverse_domain u d ≡ done key) ⊎ Names ds

  -- The tag has a domain with the key.
  abbrev InItems : Multimap → Type 0
  InItems [] = ⊥
  InItems (item ∷ items) = ((item.0 ≡ tag) × Names item.1) ⊎ InItems items

  add_domains_iff :
      (t : Text) (ds : List Text) (m n : Multimap)
      → add_domains u t ds m ≡ done n
      → Has n ↔ (Has m ⊎ ((t ≡ tag) × Names ds))
  unfolding add_domains
  add_domains_iff t [] m n h =
      let same : m ≡ n = cc h in (λ x. inl (subst Has (sym same) x), λ x. subst Has same (only x))
    where
      only : Has m ⊎ ((t ≡ tag) × ⊥) → Has m
      only (inl x) = x
      only (inr (a, b)) = absurd b
  add_domains_iff t (d ∷ ds) m n h =
      let (k, rev, others) = >>=-eq-done (reverse_domain u d) _ h in
      let a = add_domains_iff t ds (add_to k t m) n others in
      (λ x. forth k rev (a.0 x), λ x. a.1 (back k rev x))
    where
      forth :
          (k : Text)
          → reverse_domain u d ≡ done k
          → Has (add_to k t m) ⊎ ((t ≡ tag) × Names ds)
          → Has m ⊎ ((t ≡ tag) × ((reverse_domain u d ≡ done key) ⊎ Names ds))
      forth k rev (inl x) = elim ((has-added key tag k t m).0 x) [
        | inl y ↦ inl y
        | inr (e, f) ↦ inr (f, inl (rev ∙ ap done e))
      ]
      forth k rev (inr (e, g)) = inr (e, inr g)

      back :
          (k : Text)
          → reverse_domain u d ≡ done k
          → Has m ⊎ ((t ≡ tag) × ((reverse_domain u d ≡ done key) ⊎ Names ds))
          → Has (add_to k t m) ⊎ ((t ≡ tag) × Names ds)
      back k rev (inl x) = inl ((has-added key tag k t m).1 (inl x))
      back k rev (inr (e, inl g)) =
          let same : k ≡ key = cc (sym rev ∙ g) in inl ((has-added key tag k t m).1 (inr (same, e)))
      back k rev (inr (e, inr g)) = inr (e, g)

  add_tags_iff :
      (items m n : Multimap) → add_tags u items m ≡ done n → Has n ↔ (Has m ⊎ InItems items)
  unfolding add_tags
  add_tags_iff [] m n h =
      let same : m ≡ n = cc h in (λ x. inl (subst Has (sym same) x), λ x. subst Has same (only x))
    where
      only : Has m ⊎ ⊥ → Has m
      only (inl x) = x
      only (inr b) = absurd b
  add_tags_iff (item ∷ items) m n h =
      let (l, first, others) = >>=-eq-done (add_domains u item.0 item.1 m) _ h in
      iff_trans (add_tags_iff items l n others)
        (regroup (add_domains_iff item.0 item.1 m l first) iff_refl)

  -- A domain of a set with the key.
  abbrev Keyed : List Text → Type 0
  Keyed ds = (v : Text) × (mem_text v ds ≡ true) × (reverse_domain u v ≡ done key)

  Names-cons : (d : Text) (ds : List Text) → Names ds ↔ Keyed ds → Names (d ∷ ds) ↔ Keyed (d ∷ ds)
  Names-cons d ds ih = (forth, λ h. back h.0 h.1 h.2)
    where
      forth : (reverse_domain u d ≡ done key) ⊎ Names ds → Keyed (d ∷ ds)
      forth (inl e) = (d, ground (arith, text_eq_refl d), e)
      forth (inr g) = let (v, m, e) = ih.0 g in (v, ground (arith, m), e)

      back :
          (v : Text)
          → mem_text v (d ∷ ds) ≡ true
          → reverse_domain u v ≡ done key
          → (reverse_domain u d ≡ done key) ⊎ Names ds
      back v m e = elim (Bool-cases (text_eq d v)) [
        | inl f ↦
            let same = eq_of_text_eq d v f in
            inl (subst (λ w. reverse_domain u w ≡ done key) (sym same) e)
        | inr f ↦ inr (ih.1 (v, ground (arith, m, f), e))
      ]

  Names-iff : (ds : List Text) → Names ds ↔ Keyed ds
  Names-iff [] = (λ h. absurd h, λ h. absurd (cc h.1))
  Names-iff (d ∷ ds) = Names-cons d ds (Names-iff ds)

  -- A domain of the tag with the key.
  abbrev pub KeyedAs : Multimap → Type 0
  KeyedAs items = (v : Text) × (has tag v items ≡ true) × (reverse_domain u v ≡ done key)

  InItems-cons :
      (item : Text × List Text) (items : Multimap)
      → InItems items ↔ KeyedAs items
      → InItems (item ∷ items) ↔ KeyedAs (item ∷ items)
  unfolding has
  InItems-cons item items ih = (forth, λ h. back h.0 h.1 h.2)
    where
      forth : ((item.0 ≡ tag) × Names item.1) ⊎ InItems items → KeyedAs (item ∷ items)
      forth (inl (e, g)) =
          let (v, m, r) = (Names-iff item.1).0 g in
          let same : text_eq item.0 tag ≡ true =
            subst (λ t. text_eq item.0 t ≡ true) e (text_eq_refl item.0) in
          (v, ground (arith, m, same), r)
      forth (inr g) = let (v, m, r) = ih.0 g in (v, ground (arith, m), r)

      back :
          (v : Text)
          → has tag v (item ∷ items) ≡ true
          → reverse_domain u v ≡ done key
          → ((item.0 ≡ tag) × Names item.1) ⊎ InItems items
      back v m r = elim (Bool-cases (text_eq item.0 tag && mem_text v item.1)) [
        | inl f ↦ inl (
          eq_of_text_eq item.0 tag (ground (arith, f)),
          (Names-iff item.1).1 (v, ground (arith, f), r),
        )
        | inr f ↦ inr (ih.1 (v, ground (arith, m, f), r))
      ]

  InItems-iff : (items : Multimap) → InItems items ↔ KeyedAs items
  unfolding has
  InItems-iff [] = (λ h. absurd h, λ h. absurd (cc h.1))
  InItems-iff (item ∷ items) = InItems-cons item items (InItems-iff items)

  -- The entries are the loaded domains, by their keys.
  pub add_tags-KeyedAs_iff :
      (loaded entries : Multimap)
      → add_tags u loaded [] ≡ done entries
      → (has key tag entries ≡ true) ↔ KeyedAs loaded
  unfolding has
  add_tags-KeyedAs_iff loaded entries h =
      let a = add_tags_iff loaded [] entries h in
      let b = InItems-iff loaded in (λ x. b.0 (only (a.0 x)), λ x. a.1 (inr (b.1 x)))
    where
      only : (has key tag [] ≡ true) ⊎ InItems loaded → InItems loaded
      only (inl x) = absurd (cc x)
      only (inr x) = x

-- A value with the tag in it.
abbrev pub Decodes : Text → List Text → Type 0
Decodes tag vs =
    (value : Text) × (mem_text value vs ≡ true) × (mem_text tag (decode_tags value) ≡ true)

-- The tags of the values that the trie has for a key, if all tags can be encoded.
module _ (key tag : Text) where
  encoded-cons :
      (item : Text × List Text) (m : Multimap)
      → All IsTag item.1
      → (has key tag m ≡ true) ↔ Decodes tag (values_of key (encoded m))
      → (has key tag (item ∷ m) ≡ true) ↔ Decodes tag (values_of key (encoded (item ∷ m)))
  unfolding has
  encoded-cons item m good ih = elim (Bool-cases (text_eq item.0 key)) [
    | inl e ↦ rw e (forth_own, λ h. back_own h.0 h.1 h.2)
    | inr e ↦ rw e ih
  ]
    where
      value : Text
      value = encode_tags item.1

      coded : mem_text tag (decode_tags value) ≡ mem_text tag item.1
      coded = ap (mem_text tag) (decode_tags-encode_tags item.1 good)

      others : List Text
      others = values_of key (encoded m)

      forth_own : (mem_text tag item.1 || has key tag m) ≡ true → Decodes tag (value ∷ others)
      forth_own h = elim (Bool-cases (mem_text tag item.1)) [
        | inl f ↦ (value, ground (arith, text_eq_refl value), coded ∙ f)
        | inr f ↦ let (v, i, d) = ih.0 (ground (arith, h, f)) in (v, ground (arith, i), d)
      ]

      back_own :
          (v : Text)
          → mem_text v (value ∷ others) ≡ true
          → mem_text tag (decode_tags v) ≡ true
          → (mem_text tag item.1 || has key tag m) ≡ true
      back_own v i d = elim (Bool-cases (text_eq value v)) [
        | inl f ↦
            let same = eq_of_text_eq value v f in
            let g = subst (λ w. mem_text tag (decode_tags w) ≡ true) (sym same) d in
            ground (arith, coded, g)
        | inr f ↦ let g = ih.1 (v, ground (arith, i, f), d) in ground (arith, g)
      ]

  pub encoded_iff :
      (m : Multimap)
      → All (λ item. All IsTag item.1) m
      → (has key tag m ≡ true) ↔ Decodes tag (values_of key (encoded m))
  unfolding has
  encoded_iff [] good = (λ h. absurd (cc h), λ h. absurd (cc h.1))
  encoded_iff (item ∷ m) good = encoded-cons item m good.0 (encoded_iff m good.1)

  -- The key of a tag is among the keys.
  pub has-keys_of :
      (m : Multimap) → has key tag m ≡ true → mem_text key (keys_of (encoded m)) ≡ true
  unfolding has
  has-keys_of [] h = absurd (cc h)
  has-keys_of (item ∷ m) h = elim (Bool-cases (text_eq item.0 key)) [
    | inl e ↦ ground (arith, e)
    | inr e ↦ ground (arith, e, h, has-keys_of m)
  ]

-- The items hold only tags that can be encoded if those that they are found by can.
pub All-IsTag :
    (m : Multimap)
    → ((key tag : Text) → has key tag m ≡ true → IsTag tag)
    → All (λ item. All IsTag item.1) m
unfolding has
All-IsTag [] f = tt
All-IsTag (item ∷ m) f = (
  All-mem_text IsTag item.1 (λ t h. f item.0 t (ground (arith, text_eq_refl item.0, h))),
  All-IsTag m (λ key tag h. f key tag (ground (arith, h))),
)
