-- ===== src/Bundled/Tag.antt =====
-- plugins/tag_plugin/plugin.py: the tags of requests and results, by the sets of domains and addresses.
pub mod Expected
pub mod Read
pub mod Tagged
use python_smartdns.Prelude.{
  ℕ, String, Bool, true, false, ◌==◌, ◌||◌, Option, none, some, List, [], ◌∷◌, ◌++◌, map, add,
  update, if◌then◌else◌,
}
use python_smartdns.Outcome.{Exn, Outcome, done, raised}
use python_smartdns.Exec.{Exec, pure, get, lift, modify, continue, ◌>>=◌, ◌>>◌}
use python_smartdns.Dns.{Rdata, address, other, RRset, Answer}
use python_smartdns.Pipeline.Context.{UpstreamResult, RequestContext}
use python_smartdns.Pipeline.Messages.{first_question}
use python_smartdns.Bundled.IpFilter.{Lookup, is_address_type}
use python_smartdns.Bundled.Https.{type_https}

-- The lookups of the context's two sets, and what the plugin reads of dnspython's objects: a name's
-- text, with `rstrip(".")`; the names of `chaining_result.cnames`, where there is a chain; and the
-- addresses of the two hints in the parameters of a record, where it has parameters.
pub record TagSource : Type 0 where
  pub domainset_lookup : String → Outcome (List String)
  pub ipset_lookup : Lookup
  pub to_text : String → String
  pub cnames : Answer → Option (List String)
  pub hints : Rdata → Option (Option (List String) × Option (List String))

abbrev pub has_hint_tag : String
has_hint_tag = "has_hint"

abbrev pub extract_address_record_ips : List Rdata → List String
extract_address_record_ips [] = []
extract_address_record_ips (address ip ∷ records) = ip ∷ extract_address_record_ips records
extract_address_record_ips (other text ∷ records) = extract_address_record_ips records

-- The addresses of a hint, and whether it is there.
abbrev pub add_hint : Option (List String) → List String × Bool → List String × Bool
add_hint none (addresses, has_hints) = (addresses, has_hints)
add_hint (some ips) (addresses, has_hints) = (addresses ++ ips, true)

abbrev pub add_hints :
    Option (Option (List String) × Option (List String)) → List String × Bool → List String × Bool
add_hints none found = found
add_hints (some (ipv4hint, ipv6hint)) found = add_hint ipv6hint (add_hint ipv4hint found)

module _ (s : TagSource) where
  unfoldable pub extract_https_hints : List Rdata → List String × Bool → List String × Bool
  extract_https_hints [] found = found
  extract_https_hints (rdata ∷ records) found =
      extract_https_hints records (add_hints (s.hints rdata) found)

  abbrev pub chain_domains : Answer → Option (List String) → List String
  chain_domains answer none = []
  chain_domains answer (some names) = map s.to_text names ++ s.to_text answer.canonical_name ∷ []

  unfoldable pub extract_cname_chain_domains : Option Answer → List String
  extract_cname_chain_domains none = []
  extract_cname_chain_domains (some answer) = chain_domains answer (s.cnames answer)

  unfoldable pub extract_answer_ips : Answer → RRset → List String
  extract_answer_ips answer rrset =
      if is_address_type answer.rdtype
      then extract_address_record_ips rrset.records
      else if answer.rdtype == type_https
      then (extract_https_hints rrset.records ([], false)).0
      else []

  -- `result.tags.update(...)`
  abbrev pub update_tags : List String → Exec UpstreamResult (Unit {0})
  update_tags tags = modify (λ r. record r { entry = record r.entry { tags = update r.tags tags } })

  abbrev pub update_found :
      Outcome (List String) → Exec UpstreamResult (Unit {0}) → Exec UpstreamResult (Unit {0})
  update_found found rest = do tags ← lift found; update_tags tags; rest

  -- The loops that look up each name or address in turn
  unfoldable pub update_by :
      (String → Outcome (List String)) → List String → Exec UpstreamResult (Unit {0})
  update_by lookup [] = pure tt
  update_by lookup (key ∷ keys) = update_found (lookup key) (update_by lookup keys)

  unfoldable pub tag_by_hints : List String × Bool → Exec UpstreamResult (Unit {0})
  tag_by_hints (ips, has_hints) = do
    update_tags (if has_hints then has_hint_tag ∷ [] else [])
    update_by s.ipset_lookup ips

  abbrev pub tag_by_rrset : Answer → Option RRset → Exec UpstreamResult (Unit {0})
  tag_by_rrset answer none = pure tt
  tag_by_rrset answer (some rrset) =
      if answer.rdtype == type_https
      then tag_by_hints (extract_https_hints rrset.records ([], false))
      else update_by s.ipset_lookup (extract_answer_ips answer rrset)

  abbrev pub tag_by_answer : Option Answer → Exec UpstreamResult (Unit {0})
  tag_by_answer none = pure tt
  tag_by_answer (some answer) = tag_by_rrset answer answer.rrset

  -- `TagPlugin.on_upstream_response`
  unfoldable pub tag_on_upstream_response : RequestContext → Exec UpstreamResult (Unit {0})
  tag_on_upstream_response context = do
    result ← get
    update_tags context.tags
    update_by s.domainset_lookup (extract_cname_chain_domains result.answer)
    tag_by_answer result.answer

  -- `TagPlugin.on_request`
  unfoldable pub tag_on_request : Exec RequestContext (Unit {0})
  tag_on_request = do
    c ← get
    question ← lift (first_question c.request)
    added_tags ← lift (s.domainset_lookup (s.to_text question.name))
    modify (λ t. record t { tags = update t.tags added_tags })
