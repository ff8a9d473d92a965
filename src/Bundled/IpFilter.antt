-- ===== src/Bundled/IpFilter.antt =====
-- plugins/ip_filter_plugin/plugin.py: addresses that are taken out of an answer by their tags.
pub mod Kept
use python_smartdns.Prelude.{
  ℕ, String, Bool, true, false, not, ◌&&◌, ◌||◌, ◌==◌, Option, none, some, List, [], ◌∷◌, length,
  intersects, is_empty, if◌then◌else◌,
}
use python_smartdns.Outcome.{Exn, attribute_error, value_error, Outcome, done, raised, ◌>>=◌}
use python_smartdns.Dns.{Rdata, address, other, RRset, Answer, noerror, type_a, type_aaaa}
use python_smartdns.Pipeline.Context.{UpstreamResult, RequestContext}
use python_smartdns.Pipeline.Messages.{first_question}

pub record IpFilterPluginConfig : Type 0 where
  pub match_tags : List String
  pub exclude_tags : List String
  pub whitelist_tags : List String
  pub blacklist_tags : List String

-- `IPSet.lookup`, which reads an address
abbrev pub Lookup : Type 0
Lookup = String → Outcome (List String)

abbrev pub is_address_type : ℕ → Bool
is_address_type rdtype = rdtype == type_a || rdtype == type_aaaa

-- `_has_any_tag`
abbrev pub has_any_tag : List String → List String → Bool
has_any_tag current_tags configured_tags = intersects configured_tags current_tags

-- `_is_filterable_answer`
unfoldable pub is_filterable_answer : Option Answer → Bool
is_filterable_answer none = false
is_filterable_answer (some answer) = elim answer.rrset [
  | none ↦ false
  | some rrset ↦
      answer.response.rcode == noerror
      && is_address_type answer.rdtype
      && rrset.rdtype == answer.rdtype
]

module _ (config : IpFilterPluginConfig) where
  unfoldable pub setup : Outcome (Unit {0})
  setup =
      if is_empty config.whitelist_tags && is_empty config.blacklist_tags
      then raised value_error
      else done tt

  -- `_matches_request`, without the reason
  unfoldable pub matches_request : List String → Bool
  matches_request tags =
      if has_any_tag tags config.exclude_tags
      then false
      else if not (is_empty config.match_tags) && not (has_any_tag tags config.match_tags)
      then false
      else true

  -- `_should_keep_ip_tags`
  unfoldable pub should_keep_ip_tags : List String → Bool
  should_keep_ip_tags ip_tags =
      if not (is_empty config.whitelist_tags) && not (has_any_tag ip_tags config.whitelist_tags)
      then false
      else if has_any_tag ip_tags config.blacklist_tags
      then false
      else true

  module _ (ipset_lookup : Lookup) where
    abbrev pub keep_record : Rdata → Outcome Bool
    keep_record (other text) = raised attribute_error
    keep_record (address text) = do ip_tags ← ipset_lookup text; done (should_keep_ip_tags ip_tags)

    unfoldable pub kept_records : List Rdata → Outcome (List Rdata)
    kept_records [] = done []
    kept_records (rdata ∷ rest) = do
      keep ← keep_record rdata
      kept ← kept_records rest
      done (if keep then rdata ∷ kept else kept)

    -- The record set of the answer after the filter, over the records that are kept.
    abbrev pub filtered : RRset → List Rdata → Option RRset
    filtered rrset kept =
        if length kept == length rrset.records
        then some rrset
        else if is_empty kept
        then none
        else some (record rrset { records = kept })

    -- `_filter_answer`, without the counts
    unfoldable pub filter_answer : Answer → Outcome Answer
    filter_answer answer = elim answer.rrset [
      | none ↦ done answer
      | some rrset ↦ do
        kept ← kept_records rrset.records
        done (record answer { rrset = filtered rrset kept })
    ]

  -- What the hook makes of the result, once the request's type and tags are looked at.
  abbrev pub filter_result :
      Outcome Lookup → UpstreamResult → Option Answer → Outcome UpstreamResult
  filter_result ipset result none = done result
  filter_result ipset result (some answer) =
      if not (is_filterable_answer (some answer)) then done result else (do
        ipset_lookup ← ipset
        answer' ← filter_answer ipset_lookup answer
        done (record result { entry = record result.entry { answer = some answer' } }))

  -- `on_upstream_response`; `ipset` is what `get_ipset` gives for the context
  unfoldable pub filter_upstream_response :
      Outcome Lookup → RequestContext → UpstreamResult → Outcome UpstreamResult
  filter_upstream_response ipset context result = do
    question ← first_question context.request
    if not (is_address_type question.rdtype) || not (matches_request context.tags)
        then done result
        else filter_result ipset result result.answer
