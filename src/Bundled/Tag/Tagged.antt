-- ===== src/Bundled/Tag/Tagged.antt =====
-- plugins/tag_plugin/plugin.py: which tags a result has after the hook.
use python_smartdns.Prelude.{
  String, str_eq, Bool, true, false, ◌==◌, ◌&&◌, ◌||◌, Bool-cases, Option, none, some, List, [],
  ◌∷◌, elem, elem-update, any, ◌≡◌, refl, sym, ap, ◌∙◌, inl, inr, arith, if◌then◌else◌,
}
use python_smartdns.Outcome.{Exn, Outcome, done, raised}
use python_smartdns.Exec.{Exec, continue}
use python_smartdns.Dns.{RRset, Answer}
use python_smartdns.Pipeline.Context.{UpstreamResult, RequestContext}
use python_smartdns.Bundled.Https.{type_https}
use python_smartdns.Bundled.Tag.Expected.{
  gives, is_found, failure_at, failure, or_first, first_failure, domains_give, answer_gives,
  rrset_gives, address_gives, hints_give, has_hints, domains_failure, answer_failure, rrset_failure,
  address_failure, hints_failure,
}
use python_smartdns.Bundled.Tag.Read.{
  domains-give, domains-failure, addresses-give, addresses-failure, hints-give, hints-failure,
  hints-has,
}
use python_smartdns.Bundled.Tag.{extract_address_record_ips}
use python_smartdns.Bundled.Tag.{
  TagSource, has_hint_tag, extract_https_hints, extract_cname_chain_domains, extract_answer_ips,
  update_tags, update_found, update_by, tag_by_hints, tag_by_rrset, tag_by_answer,
  tag_on_upstream_response,
}

-- A step on a result: it raises what is to be raised, or else it adds the tags that are given, and
-- changes nothing else.
abbrev pub Adds :
    UpstreamResult → (String → Bool) → Option Exn → Outcome (Unit {0}) × UpstreamResult → Type 0
Adds before added failing (raised exc, after) = failing ≡ some exc
Adds before added failing (done u, after) =
    (failing ≡ none)
    × ((t : String) → elem t after.tags ≡ (elem t before.tags || added t))
    × (after ≡ record before { entry = record before.entry { tags = after.tags } })

pub Adds-as :
    (before : UpstreamResult) (a b : String → Bool) (f g : Option Exn)
    (r : Outcome (Unit {0}) × UpstreamResult)
    → ((t : String) → a t ≡ b t)
    → f ≡ g
    → Adds before a f r
    → Adds before b g r
Adds-as before a b f g (raised exc, after) same e h = sym e ∙ h
Adds-as before a b f g (done u, after) same e (none_fails, adds, rest) =
    (sym e ∙ none_fails, λ t. ground (arith, adds t, same t), rest)

pub update_tags-Adds :
    (s : TagSource) (tags : List String) (r : UpstreamResult)
    → Adds r (λ t. elem t tags) none (update_tags s tags r)
update_tags-Adds s tags r = (refl, λ t. elem-update t r.tags tags, refl)

pub >>-Adds :
    (k : Exec UpstreamResult (Unit {0})) (before : UpstreamResult) (a b : String → Bool)
    (f g : Option Exn) (r : Outcome (Unit {0}) × UpstreamResult)
    → Adds before a f r
    → ((mid : UpstreamResult) → Adds mid b g (k mid))
    → Adds before (λ t. a t || b t) (or_first f g) (continue r.0 (λ u. k) r.1)
>>-Adds k before a b f g (raised exc, after) h step = ap (λ o. or_first o g) h
>>-Adds k before a b f g (done u, mid) (silent, adds, rest) step = go (k mid) (step mid)
  where
    go :
        (r : Outcome (Unit {0}) × UpstreamResult)
        → Adds mid b g r
        → Adds before (λ t. a t || b t) (or_first f g) r
    go (raised exc, after) h = ap (λ o. or_first o g) silent ∙ h
    go (done v, after) (none_too, more, kept) = (
      ap (λ o. or_first o g) silent ∙ none_too,
      λ t. ground (arith, adds t, more t),
      kept
          ∙ ap (λ (m : UpstreamResult). record m { entry = record m.entry { tags = after.tags } })
              rest,
    )

pub update_by-Adds :
    (s : TagSource) (lookup : String → Outcome (List String)) (keys : List String)
    (r : UpstreamResult)
    → Adds r (is_found lookup keys) (failure lookup keys) (update_by s lookup keys r)
unfolding update_by
update_by-Adds s lookup [] r = (refl, λ t. ground arith, refl)
update_by-Adds s lookup (key ∷ keys) r = go (lookup key) (λ mid. update_by-Adds s lookup keys mid)
  where
    go :
        (found : Outcome (List String))
        → ((mid : UpstreamResult)
            → Adds mid (is_found lookup keys) (failure lookup keys) (update_by s lookup keys mid))
        → Adds r
            (λ t. gives found t || is_found lookup keys t)
            (failure_at found (failure lookup keys))
            (update_found s found (update_by s lookup keys) r)
    go (raised exc) later = refl
    go (done tags) later =
        >>-Adds (update_by s lookup keys) r (λ t. elem t tags) (is_found lookup keys) none
          (failure lookup keys) (update_tags s tags r) (update_tags-Adds s tags r) later

abbrev hint_tags : Bool → List String
hint_tags b = if b then has_hint_tag ∷ [] else []

tag_by_hints-Adds :
    (s : TagSource) (ips : List String) (has_hints : Bool) (r : UpstreamResult)
    → Adds r
        (λ t. has_hints && str_eq has_hint_tag t || is_found s.ipset_lookup ips t)
        (failure s.ipset_lookup ips)
        (tag_by_hints s (ips, has_hints) r)
unfolding tag_by_hints
tag_by_hints-Adds s ips has_hints r =
    >>-Adds (update_by s s.ipset_lookup ips) r (λ t. has_hints && str_eq has_hint_tag t)
      (is_found s.ipset_lookup ips) none (failure s.ipset_lookup ips)
      (update_tags s (hint_tags has_hints) r) (hinted has_hints)
      (λ mid. update_by-Adds s s.ipset_lookup ips mid)
  where
    hinted :
        (b : Bool) → Adds r (λ t. b && str_eq has_hint_tag t) none (update_tags s (hint_tags b) r)
    hinted true = (refl, λ t. elem-update t r.tags (has_hint_tag ∷ []) ∙ ground arith, refl)
    hinted false = update_tags-Adds s [] r

tag_by_extracted-Adds :
    (s : TagSource) (rrset : RRset) (r : UpstreamResult)
    → Adds r
        (λ t.
          any (λ q. has_hints s (s.hints q)) rrset.records && str_eq "has_hint" t
          || any (λ q. hints_give s (s.hints q) t) rrset.records)
        (first_failure (λ q. hints_failure s (s.hints q)) rrset.records)
        (tag_by_hints s (extract_https_hints s rrset.records ([], false)) r)
tag_by_extracted-Adds s rrset r =
    let (ips, has) = extract_https_hints s rrset.records ([], false) in
    Adds-as r (λ t. has && str_eq has_hint_tag t || is_found s.ipset_lookup ips t)
      (λ t.
        any (λ q. has_hints s (s.hints q)) rrset.records && str_eq "has_hint" t
        || any (λ q. hints_give s (s.hints q) t) rrset.records)
      (failure s.ipset_lookup ips) (first_failure (λ q. hints_failure s (s.hints q)) rrset.records)
      (tag_by_hints s (ips, has) r)
      (λ t.
        ground
          (arith, hints-give s rrset.records ([], false) t, hints-has s rrset.records ([], false)))
      (hints-failure s rrset.records ([], false)) (tag_by_hints-Adds s ips has r)

tag_by_addresses-Adds :
    (s : TagSource) (answer : Answer) (rrset : RRset) (r : UpstreamResult)
    → (answer.rdtype == type_https) ≡ false
    → Adds r
        (λ t.
          if answer.rdtype == 1 || answer.rdtype == 28
          then any (λ q. address_gives s q t) rrset.records
          else false)
        (if answer.rdtype == 1 || answer.rdtype == 28
          then first_failure (address_failure s) rrset.records
          else none)
        (update_by s s.ipset_lookup (extract_answer_ips s answer rrset) r)
unfolding extract_answer_ips
tag_by_addresses-Adds s answer rrset r e =
    elim (Bool-cases (answer.rdtype == 1 || answer.rdtype == 28)) [
      | inl a ↦ rw a (
          Adds-as r (is_found s.ipset_lookup ips)
            (λ t. any (λ q. address_gives s q t) rrset.records) (failure s.ipset_lookup ips)
            (first_failure (address_failure s) rrset.records) (update_by s s.ipset_lookup ips r)
            (addresses-give s rrset.records) (addresses-failure s rrset.records)
            (update_by-Adds s s.ipset_lookup ips r))
      | inr a ↦ rw (a, e) (update_by-Adds s s.ipset_lookup [] r)
    ]
  where
    ips : List String
    ips = extract_address_record_ips rrset.records

tag_by_answer-Adds :
    (s : TagSource) (o : Option Answer) (r : UpstreamResult)
    → Adds r (answer_gives s o) (answer_failure s o) (tag_by_answer s o r)
tag_by_answer-Adds s none r = (refl, λ t. ground arith, refl)
tag_by_answer-Adds s (some answer) r = by_rrset answer.rrset
  where
    by_rrset :
        (o : Option RRset)
        → Adds r
            (λ t. elim o [ none ↦ false | some rrset ↦ rrset_gives s answer rrset t ])
            (elim o [ none ↦ none | some rrset ↦ rrset_failure s answer rrset ])
            (tag_by_rrset s answer o r)
    by_rrset none = (refl, λ t. ground arith, refl)
    by_rrset (some rrset) = elim (Bool-cases (answer.rdtype == type_https)) [
      | inl e ↦ rw e (tag_by_extracted-Adds s rrset r)
      | inr e ↦ rw e (tag_by_addresses-Adds s answer rrset r e)
    ]

-- The hook adds to the tags of the result those of the request, those of each name in the chain of the
-- answer, its canonical name included, and those of its addresses, which are those of all records for A
-- and AAAA, and of both hints of all records for HTTPS, where the tag for hints is added too if a record
-- has one; it changes nothing else. Where a lookup raises, the hook raises the exception of the first
-- one that does.
pub tag_on_upstream_response-Adds :
    (s : TagSource) (context : RequestContext) (r : UpstreamResult)
    → Adds r
        (λ t. elem t context.tags || (domains_give s r.answer t || answer_gives s r.answer t))
        (or_first (domains_failure s r.answer) (answer_failure s r.answer))
        (tag_on_upstream_response s context r)
unfolding tag_on_upstream_response
tag_on_upstream_response-Adds s context r =
    let domains = extract_cname_chain_domains s r.answer in
    >>-Adds
      (λ mid.
        continue (update_by s s.domainset_lookup domains mid).0 (λ u. tag_by_answer s r.answer)
          (update_by s s.domainset_lookup domains mid).1)
      r (λ t. elem t context.tags) (λ t. domains_give s r.answer t || answer_gives s r.answer t)
      none (or_first (domains_failure s r.answer) (answer_failure s r.answer))
      (update_tags s context.tags r) (update_tags-Adds s context.tags r)
      (λ mid.
        >>-Adds (tag_by_answer s r.answer) mid (domains_give s r.answer) (answer_gives s r.answer)
          (domains_failure s r.answer) (answer_failure s r.answer)
          (update_by s s.domainset_lookup domains mid)
          (Adds-as mid (is_found s.domainset_lookup domains) (domains_give s r.answer)
            (failure s.domainset_lookup domains) (domains_failure s r.answer)
            (update_by s s.domainset_lookup domains mid) (domains-give s r.answer)
            (domains-failure s r.answer) (update_by-Adds s s.domainset_lookup domains mid))
          (λ later. tag_by_answer-Adds s r.answer later))
