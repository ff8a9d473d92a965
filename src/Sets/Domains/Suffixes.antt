-- ===== src/Sets/Domains/Suffixes.antt =====
-- dns_forwarder/core/domainset.py: the tags of a name are those of the domains that it lies in.
use mathlib.Core.List.{reverse, reverse-reverse}
use python_smartdns.Prelude.{
  ℕ, true, false, ◌==◌, Bool-cases, Option, none, some, List, [], ◌∷◌, ◌++◌, All, is_empty, ◌≡◌,
  ◌↔◌, ◌⊎◌, refl, sym, ap, subst, ◌∙◌, inl, inr, iff_trans, arith, if◌then◌else◌,
}
use python_smartdns.Outcome.{done, ◌>>=◌, >>=-eq-done}
use python_smartdns.Sets.Texts.{Text, mem_text, Multimap, has}
use python_smartdns.Sets.Labels.{
  cons_head, IsPrefix, IsSuffix, IsFree, split_text, join_texts, ended, join_texts-ended,
  split_text-IsFree, ended-IsPrefix_iff, All-reverse, reverse-IsPrefix_iff,
}
use python_smartdns.Sets.Files.{Unicode, TagFile, files, add_files, load_tag_files}
use python_smartdns.Sets.Listed.{Lists, add_files_iff}
use python_smartdns.Sets.Domains.{
  normalize_domain, reversed, reverse_domain, values_of, BytesTrie, add_tags, build_domain_entries,
  encoded, domain_set, add_matches, lookup,
}
use python_smartdns.Sets.Domains.Coding.{IsTag}
use python_smartdns.Sets.Domains.Entries.{
  add_tags-KeyedAs_iff, Decodes, encoded_iff, has-keys_of, All-IsTag,
}
use python_smartdns.Sets.Domains.Lookup.{Found, add_matches_iff}

join_texts-ended_any :
    (ls : List Text) → (ls ≡ [] → ⊥) → join_texts b'.' ls ++ b'.' ∷ [] ≡ ended b'.' ls
join_texts-ended_any [] h = absurd (h refl)
join_texts-ended_any (l ∷ ls) h = join_texts-ended b'.' l ls

cons_head-not_nil : (c : ℕ) (ls : List Text) → cons_head c ls ≡ [] → ⊥
cons_head-not_nil c [] h = cc h
cons_head-not_nil c (l ∷ ls) h = cc h

split_text-not_nil : (t : Text) → split_text b'.' t ≡ [] → ⊥
unfolding split_text
split_text-not_nil [] h = cc h
split_text-not_nil (c ∷ t) h = elim (Bool-cases (c == b'.')) [
  | inl e ↦ cc (rw e at h)
  | inr e ↦ cons_head-not_nil c (split_text b'.' t) (rw e at h)
]

reversed-ended : (d : Text) → reversed d ≡ ended b'.' (reverse (split_text b'.' d))
reversed-ended d =
    join_texts-ended_any (reverse (split_text b'.' d))
      (λ h. split_text-not_nil d (sym (reverse-reverse (split_text b'.' d)) ∙ ap reverse h))

-- One reversed domain begins with another exactly where the labels of the other are its last ones.
reversed-IsPrefix_iff :
    (d n : Text)
    → IsPrefix (reversed d) (reversed n) ↔ IsSuffix (split_text b'.' d) (split_text b'.' n)
reversed-IsPrefix_iff d n =
    let free =
      λ (t : Text). All-reverse (IsFree b'.') (split_text b'.' t) (split_text-IsFree b'.' t) in
    let a =
      ended-IsPrefix_iff b'.' (reverse (split_text b'.' d)) (reverse (split_text b'.' n)) (free d)
        (free n) in
    iff_trans
      (
        λ h. (h.0, ap (λ t. t ++ h.0) (sym (reversed-ended d)) ∙ h.1 ∙ reversed-ended n),
        λ h. (h.0, ap (λ t. t ++ h.0) (reversed-ended d) ∙ h.1 ∙ sym (reversed-ended n)),
      )
      (iff_trans a (reverse-IsPrefix_iff (split_text b'.' d) (split_text b'.' n)))

reverse_domain_inv :
    (u : Unicode) (v key : Text)
    → reverse_domain u v ≡ done key
    → (d : Text) × (normalize_domain u v ≡ done d) × (reversed d ≡ key)
unfolding reverse_domain
reverse_domain_inv u v key h =
    let (d, e, k) = >>=-eq-done (normalize_domain u v) _ h in (d, e, cc k)

reverse_domain-done :
    (u : Unicode) (v d : Text)
    → normalize_domain u v ≡ done d
    → reverse_domain u v ≡ done (reversed d)
unfolding reverse_domain
reverse_domain-done u v d h = rw h refl

module _ (u : Unicode) where
  Lists-IsTag :
      (fs : List TagFile) (tag v : Text)
      → All (λ f. IsFree 0 f.stem) fs
      → Lists u (normalize_domain u) fs tag v
      → IsTag tag
  Lists-IsTag (f ∷ fs) tag v free (inl (e, s, g)) =
      let stem : is_empty f.stem ≡ false = ground (arith, e) in subst IsTag s (stem, free.0)
  Lists-IsTag (f ∷ fs) tag v free (inr h) = Lists-IsTag fs tag v free.1 h
  Lists-IsTag [] tag v free h = absurd h

  -- A file of the tag has a line with a domain whose labels are the last ones of the name: the name
  -- is the domain or lies below it.
  abbrev pub Tagged : List TagFile → Text → Text → Type 0
  Tagged fs tag name =
      (value domain : Text) × Lists u (normalize_domain u) fs tag value
      × (normalize_domain u value ≡ done domain)
      × IsSuffix (split_text b'.' domain) (split_text b'.' name)

  module _ (fs : List TagFile) (entries : Multimap) (tag : Text)
      (listed : (key : Text)
        → (has key tag entries ≡ true) ↔ (
            (v : Text) × Lists u (normalize_domain u) fs tag v
            × (reverse_domain u v ≡ done key))) where
    -- The entries that a name finds.
    entries_iff :
        (n : Text)
        → ((key : Text) × (has key tag entries ≡ true) × IsPrefix key (reversed n))
          ↔ Tagged fs tag n
    entries_iff n = (λ h. forth h.0 h.1 h.2, λ h. back h.0 h.1 h.2 h.3 h.4)
      where
        forth :
            (key : Text) → has key tag entries ≡ true → IsPrefix key (reversed n) → Tagged fs tag n
        forth key h p =
            let (v, l, r) = (listed key).0 h in
            let (d, e, same) = reverse_domain_inv u v key r in
            let p' = subst (λ k. IsPrefix k (reversed n)) (sym same) p in
            (v, d, l, e, (reversed-IsPrefix_iff d n).0 p')

        back :
            (v d : Text)
            → Lists u (normalize_domain u) fs tag v
            → normalize_domain u v ≡ done d
            → IsSuffix (split_text b'.' d) (split_text b'.' n)
            → (key : Text) × (has key tag entries ≡ true) × IsPrefix key (reversed n)
        back v d l e s = (
          reversed d,
          (listed (reversed d)).1 (v, l, reverse_domain-done u v d e),
          (reversed-IsPrefix_iff d n).1 s,
        )

    module _ (marisa : BytesTrie)
        (good : (key tag : Text) → has key tag entries ≡ true → IsTag tag) where
      Found-iff :
          (text : Text)
          → Found tag
              (marisa.values (marisa.build (encoded entries)))
              (marisa.prefixes (marisa.build (encoded entries)) text)
            ↔ ((key : Text) × (has key tag entries ≡ true) × IsPrefix key text)
      Found-iff text = (λ h. forth h.0 h.1 h.2, λ h. back h.0 h.1 h.2)
        where
          items : List (Text × Text)
          items = encoded entries

          all : (key : Text) → (has key tag entries ≡ true) ↔ Decodes tag (values_of key items)
          all key = encoded_iff key tag entries (All-IsTag entries good)

          forth :
              (key : Text)
              → mem_text key (marisa.prefixes (marisa.build items) text) ≡ true
              → Decodes tag (marisa.values (marisa.build items) key)
              → (key : Text) × (has key tag entries ≡ true) × IsPrefix key text
          forth key i (v, j, d) =
              let (k, p) = (marisa.prefixes_iff items text key).0 i in
              (key, (all key).1 (v, (marisa.values_iff items key v).0 j, d), p)

          back :
              (key : Text)
              → has key tag entries ≡ true
              → IsPrefix key text
              → Found tag
                  (marisa.values (marisa.build items))
                  (marisa.prefixes (marisa.build items) text)
          back key h p =
              let (v, j, d) = (all key).0 h in
              (
                key,
                (marisa.prefixes_iff items text key).1 (has-keys_of key tag entries h, p),
                (v, (marisa.values_iff items key v).1 j, d),
              )

  listed_iff :
      (fs : List TagFile) (loaded entries : Multimap) (tag key : Text)
      → add_files u (normalize_domain u) fs [] ≡ done loaded
      → add_tags u loaded [] ≡ done entries
      → (has key tag entries ≡ true)
        ↔ ((v : Text) × Lists u (normalize_domain u) fs tag v × (reverse_domain u v ≡ done key))
  unfolding has
  listed_iff fs loaded entries tag key h k =
      iff_trans (add_tags-KeyedAs_iff u key tag loaded entries k)
        (λ x. (x.0, only x.0 ((file x.0).0 x.1), x.2), λ x. (x.0, (file x.0).1 (inr x.1), x.2))
    where
      file :
          (v : Text)
          → (has tag v loaded ≡ true)
            ↔ ((has tag v [] ≡ true) ⊎ Lists u (normalize_domain u) fs tag v)
      file v = add_files_iff u (normalize_domain u) tag v fs [] loaded h

      only :
          (v : Text)
          → (has tag v [] ≡ true) ⊎ Lists u (normalize_domain u) fs tag v
          → Lists u (normalize_domain u) fs tag v
      only v (inl x) = absurd (cc x)
      only v (inr x) = x

  looked_up :
      (marisa : BytesTrie) (fs : List TagFile) (name qname : Text) (entries : Multimap)
      → normalize_domain u qname ≡ done name
      → ((tag key : Text)
          → (has key tag entries ≡ true) ↔ (
              (v : Text) × Lists u (normalize_domain u) fs tag v × (reverse_domain u v ≡ done key)))
      → ((key tag : Text) → has key tag entries ≡ true → IsTag tag)
      → (tags : List Text) × (lookup u marisa
            (if is_empty entries then none else some (marisa.build (encoded entries)))
            qname
          ≡ done tags)
        × ((tag : Text) → (mem_text tag tags ≡ true) ↔ Tagged fs tag name)
  unfolding lookup has
  looked_up marisa fs name qname [] e listed good = (
    [],
    refl,
    λ tag. (
      λ h. absurd (cc h),
      λ h. let x = (entries_iff fs [] tag (listed tag) name).1 h in absurd (cc x.1),
    ),
  )
  looked_up marisa fs name qname (item ∷ m) e listed good =
      let items = encoded (item ∷ m) in
      let values = marisa.values (marisa.build items) in
      let keys = marisa.prefixes (marisa.build items) (reversed name) in
      (
        add_matches values keys [],
        rw (reverse_domain-done u qname name e) refl,
        λ tag. iff_trans (add_matches_iff tag values keys []) (
            iff_trans (λ x. only tag keys values x, λ x. inr x)
              (iff_trans (Found-iff fs (item ∷ m) tag (listed tag) marisa good (reversed name))
                (entries_iff fs (item ∷ m) tag (listed tag) name))),
      )
    where
      only :
          (tag : Text) (keys : List Text) (values : Text → List Text)
          → (mem_text tag [] ≡ true) ⊎ Found tag values keys
          → Found tag values keys
      only tag keys values (inl x) = absurd (cc x)
      only tag keys values (inr x) = x

-- The domain set of a directory whose files' stems have no NUL in them, as file names have none,
-- gives a name that can be normalised exactly the tags of the files that list a domain that the
-- name is or lies below, label by label: `example.org` is found for `www.example.org` and not for
-- `badexample.org`. The lookup returns.
pub lookup-Tagged_iff :
    (u : Unicode) (marisa : BytesTrie) (fs : List TagFile) (set : Option marisa.Trie)
    (qname name : Text)
    → domain_set u marisa (files fs) ≡ done set
    → All (λ f. IsFree 0 f.stem) fs
    → normalize_domain u qname ≡ done name
    → (tags : List Text) × (lookup u marisa set qname ≡ done tags)
      × ((tag : Text) → (mem_text tag tags ≡ true) ↔ Tagged u fs tag name)
unfolding domain_set build_domain_entries load_tag_files
lookup-Tagged_iff u marisa fs set qname name h free e =
    let (entries, built, same) =
      >>=-eq-done (load_tag_files u (normalize_domain u) (files fs) >>= λ l. add_tags u l []) _ h in
    let (loaded, loads, adds) = >>=-eq-done (add_files u (normalize_domain u) fs []) _ built in
    let listed = λ (tag key : Text). listed_iff u fs loaded entries tag key loads adds in
    let good = λ (key tag : Text) (x : has key tag entries ≡ true).
      let y = (listed tag key).0 x in Lists-IsTag u fs tag y.0 free y.1 in
    let same' : (if is_empty entries then none else some (marisa.build (encoded entries))) ≡ set =
      cc same in
    subst
      (λ s.
        (tags : List Text) × (lookup u marisa s qname ≡ done tags)
        × ((tag : Text) → (mem_text tag tags ≡ true) ↔ Tagged u fs tag name))
      same' (looked_up u marisa fs name qname entries e listed good)
