-- ===== src/Bundled/IpFilter/Kept.antt =====
-- Which addresses the filter leaves in an answer.
use python_smartdns.Prelude.{
  ◌≤◌, String, true, false, not, ◌&&◌, ◌==◌, Bool-cases, Option, none, some, List, [], ◌∷◌, length,
  any, elem, is_empty, ◌≡◌, refl, ap, sym, subst, ◌∙◌, ◌⊎◌, ◌↔◌, arith, inl, inr, if◌then◌else◌,
}
use python_smartdns.Tags.{Meets, any-Meets, Meets-any, empty_or_iff, &&_iff}
use python_smartdns.Outcome
use python_smartdns.Outcome.{Exn, Outcome, done, raised, >>=-eq-done}
use python_smartdns.Dns.{Rdata, address, other, RRset, Answer}
use python_smartdns.Bundled.IpFilter.{
  IpFilterPluginConfig, Lookup, should_keep_ip_tags, keep_record, kept_records, filtered,
  filter_answer,
}

-- The tags of an address that stays: one of the white list, if there is one, and none of the black list.
pub record IsKept (config : IpFilterPluginConfig) (ip_tags : List String) : Type 0 where
  pub listed : (config.whitelist_tags ≡ []) ⊎ Meets config.whitelist_tags ip_tags
  pub unlisted : ¬ Meets config.blacklist_tags ip_tags

any_iff : (xs ys : List String) → (not (any (λ x. elem x ys) xs) ≡ true) ↔ (¬ Meets xs ys)
any_iff xs ys = elim (Bool-cases (any (λ x. elem x ys) xs)) [
  | inl e ↦ (λ h. absurd (cc (rw e at h)), λ h. absurd (h (any-Meets xs ys e)))
  | inr e ↦ (λ h m. cc (Meets-any xs ys m, e), λ h. rw e refl)
]

should_keep-eq :
    (config : IpFilterPluginConfig) (tags : List String)
    → should_keep_ip_tags config tags ≡ (
        not (
          not (is_empty config.whitelist_tags)
          && not (any (λ x. elem x tags) config.whitelist_tags))
        && not (any (λ x. elem x tags) config.blacklist_tags))
unfolding should_keep_ip_tags
should_keep-eq config tags = ground arith

should_keep_ip_tags_iff :
    (config : IpFilterPluginConfig) (tags : List String)
    → (should_keep_ip_tags config tags ≡ true) ↔ IsKept config tags
should_keep_ip_tags_iff config tags =
    let (to, from) =
      &&_iff
        (not (
          not (is_empty config.whitelist_tags)
          && not (any (λ x. elem x tags) config.whitelist_tags)))
        (not (any (λ x. elem x tags) config.blacklist_tags))
        (empty_or_iff config.whitelist_tags (any (λ x. elem x tags) config.whitelist_tags)
          (any-Meets config.whitelist_tags tags, Meets-any config.whitelist_tags tags))
        (any_iff config.blacklist_tags tags) in
    (
      λ h.
          let (w, b) = to (sym (should_keep-eq config tags) ∙ h) in
          record { listed = w; unlisted = b },
      λ k. should_keep-eq config tags ∙ from (k.listed, k.unlisted),
    )

-- `kept` is what is left of `records`, in their order: of each address whose tags are kept, and of no
-- other.
pub data Leaves (config : IpFilterPluginConfig) (ipset_lookup : Lookup)
    : List Rdata → List Rdata → Type 0 where
  nothing : Leaves config ipset_lookup [] []
  keeps :
      {rest kept : List Rdata} (text : String) (ip_tags : List String)
      → ipset_lookup text ≡ done ip_tags
      → IsKept config ip_tags
      → Leaves config ipset_lookup rest kept
      → Leaves config ipset_lookup (address text ∷ rest) (address text ∷ kept)
  drops :
      {rest kept : List Rdata} (text : String) (ip_tags : List String)
      → ipset_lookup text ≡ done ip_tags
      → ¬ IsKept config ip_tags
      → Leaves config ipset_lookup rest kept
      → Leaves config ipset_lookup (address text ∷ rest) kept

-- The record set of what is left: it is the old one with its name, type, class and time to live, and
-- there is none if no record is left of some.
abbrev pub LeftOf : RRset → List Rdata → Option RRset → Type 0
LeftOf rrset (rdata ∷ kept) out = out ≡ some (record rrset { records = rdata ∷ kept })
LeftOf rrset [] out =
    ((rrset.records ≡ []) × (out ≡ some rrset)) ⊎ ((rrset.records ≡ [] → ⊥) × (out ≡ none))

abbrev pub LeavesSet : IpFilterPluginConfig → Lookup → Option RRset → Option RRset → Type 0
LeavesSet config ipset_lookup none out = out ≡ none
LeavesSet config ipset_lookup (some rrset) out =
    (kept : List Rdata) × Leaves config ipset_lookup rrset.records kept × LeftOf rrset kept out

module _ (config : IpFilterPluginConfig) (ipset_lookup : Lookup) where
  kept_records-Leaves :
      (records kept : List Rdata)
      → kept_records config ipset_lookup records ≡ done kept
      → Leaves config ipset_lookup records kept
  unfolding kept_records
  kept_records-Leaves [] kept h =
      let none_left : [] ≡ kept = cc h in subst (Leaves config ipset_lookup []) none_left nothing
  kept_records-Leaves (other text ∷ rest) kept h = absurd (cc h)
  kept_records-Leaves (address text ∷ rest) kept h =
      let (keep, first, more) =
        >>=-eq-done (keep_record config ipset_lookup (address text))
          (λ k.
            Outcome.◌>>=◌ (kept_records config ipset_lookup rest)
              (λ ks. done (if k then address text ∷ ks else ks)))
          h in
      let (ks, later, same) =
        >>=-eq-done (kept_records config ipset_lookup rest)
          (λ ks. done (if keep then address text ∷ ks else ks)) more in
      let (tags, found, tested) =
        >>=-eq-done (ipset_lookup text) (λ ip_tags. done (should_keep_ip_tags config ip_tags))
          first in
      let test : should_keep_ip_tags config tags ≡ keep = cc tested in
      let left : (if keep then address text ∷ ks else ks) ≡ kept = cc same in
      elim (Bool-cases keep) [
        | inl b ↦ subst (Leaves config ipset_lookup (address text ∷ rest)) (rw b at left) (
            keeps text tags found ((should_keep_ip_tags_iff config tags).0 (test ∙ b))
              (kept_records-Leaves rest ks later))
        | inr b ↦ subst (Leaves config ipset_lookup (address text ∷ rest)) (rw b at left) (
            drops text tags found
              (λ k. absurd (cc ((should_keep_ip_tags_iff config tags).1 k, test, b)))
              (kept_records-Leaves rest ks later))
      ]

  Leaves-length :
      {records kept : List Rdata}
      → Leaves config ipset_lookup records kept
      → length kept ≤ length records
  Leaves-length nothing = omega arith
  Leaves-length (keeps text tags f k l) = omega (arith, Leaves-length l)
  Leaves-length (drops text tags f k l) = omega (arith, Leaves-length l)

  Leaves-all :
      {records kept : List Rdata}
      → Leaves config ipset_lookup records kept
      → length kept ≡ length records
      → kept ≡ records
  Leaves-all nothing h = refl
  Leaves-all (keeps text tags f k l) h = ap (◌∷◌ (address text)) (Leaves-all l (omega (arith, h)))
  Leaves-all (drops text tags f k l) h = absurd (omega (arith, h, Leaves-length l))

  filtered-LeftOf :
      (rrset : RRset) (kept : List Rdata)
      → Leaves config ipset_lookup rrset.records kept
      → LeftOf rrset kept (filtered config ipset_lookup rrset kept)
  filtered-LeftOf rrset kept l = elim (Bool-cases (length kept == length rrset.records)) [
    | inl b ↦ rw b (whole kept (Leaves-all l (ground (arith, b))))
    | inr b ↦ rw b (unless_empty kept b)
  ]
    where
      whole : (ks : List Rdata) → ks ≡ rrset.records → LeftOf rrset ks (some rrset)
      whole [] e = inl (sym e, refl)
      whole (k ∷ ks) e = ap (λ rs. some (record rrset { records = rs })) (sym e)

      unless_empty :
          (ks : List Rdata)
          → (length ks == length rrset.records) ≡ false
          → LeftOf rrset ks (if is_empty ks then none else some (record rrset { records = ks }))
      unless_empty [] e = inr (
        λ empty.
            let no_records : length rrset.records ≡ 0 = ap length empty in
            absurd (ground (arith, no_records, e)),
        refl,
      )
      unless_empty (k ∷ ks) e = refl

-- Where the filter returns: of the records of the answer, those of the addresses whose tags are kept
-- stand in their order in a record set that is otherwise the same, there is no record set if none of
-- them is left, and nothing else of the answer changes.
pub filter_answer-Leaves :
    (config : IpFilterPluginConfig) (ipset_lookup : Lookup) (a a' : Answer)
    → filter_answer config ipset_lookup a ≡ done a'
    → LeavesSet config ipset_lookup a.rrset a'.rrset × (a ≡ record a' { rrset = a.rrset })
unfolding filter_answer
filter_answer-Leaves config ipset_lookup a a' h = go a.rrset refl h
  where
    go :
        (found : Option RRset)
        → a.rrset ≡ found
        → (elim found as (λ _. Outcome Answer) [
          | none ↦ done a
          | some rrset ↦
              Outcome.◌>>=◌
                (kept_records config ipset_lookup rrset.records)
                (λ kept. done (record a { rrset = filtered config ipset_lookup rrset kept }))
        ])
          ≡ done a'
        → LeavesSet config ipset_lookup found a'.rrset × (a ≡ record a' { rrset = a.rrset })
    go none e k = let same : a ≡ a' = cc k in rw (← same) (e, refl)
    go (some rrset) e k =
        let (kept, ran, made) =
          >>=-eq-done (kept_records config ipset_lookup rrset.records)
            (λ ks. done (record a { rrset = filtered config ipset_lookup rrset ks })) k in
        let same : record a { rrset = filtered config ipset_lookup rrset kept } ≡ a' = cc made in
        let left : Leaves config ipset_lookup rrset.records kept =
          kept_records-Leaves config ipset_lookup rrset.records kept ran in
        rw (← same) ((kept, left, filtered-LeftOf config ipset_lookup rrset kept left), refl)
