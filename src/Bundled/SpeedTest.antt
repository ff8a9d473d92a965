-- ===== src/Bundled/SpeedTest.antt =====
-- plugins/speedtest_plugin: models.py, and the addresses that plugin.py collects. Milliseconds are
-- natural numbers in some small unit, or the infinity that marks an address that is not to be probed.
pub mod Selection
pub mod Hooks
pub mod Reserved
pub mod Service
use Prim.Native.String.{compare as compare_texts}
use text.Mathlib.Text.{is_le}
use python_smartdns.Prelude.{
  ℕ, String, Bool, true, false, not, ◌&&◌, ◌||◌, ◌==◌, ltb, Option, none, some, List, [], ◌∷◌, ◌++◌,
  elem, add, update, filterb, is_empty, if◌then◌else◌,
}
use python_smartdns.Prelude.Sorting.{sort_by}
use python_smartdns.Outcome.{Exn, Outcome, done, raised}
use python_smartdns.Dns.{Rdata, address, other, Answer, type_a}
use python_smartdns.Pipeline.Context.{Entry, UpstreamResult, RequestContext}
use python_smartdns.Bundled.IpFilter.{is_address_type, has_any_tag}

pub data Rtt : Type 0 where
  ms : ℕ → Rtt
  infinite : Rtt

pub record IpRttResult : Type 0 where
  pub ip : String
  pub ping_ms : Option Rtt
  pub tcp80_ms : Option Rtt
  pub tcp443_ms : Option Rtt
  pub best_ms : Option Rtt

pub record SpeedTestContext : Type 0 where
  pub ip_rtt_results : List IpRttResult
  pub seen_ips : List String

pub record SpeedTestFallbackRuleConfig : Type 0 where
  pub match_tags : List String
  pub exclude_tags : List String
  pub ipv4_addresses : List String
  pub ipv6_addresses : List String

pub record SpeedTestPluginConfig : Type 0 where
  pub response_ip_limit : ℕ
  pub response_ttl_seconds : ℕ
  pub rtt_tolerance_ms : ℕ
  pub rtt_gap_threshold_ms : ℕ
  pub skip_tags : List String
  pub no_speedtest_tags : List String
  pub fallback_rules : List SpeedTestFallbackRuleConfig

-- What a list makes of a text that comes after it, unless the text stands there already.
abbrev pub append_new : List String → String → List String
append_new ips ip = if elem ip ips then ips else ips ++ ip ∷ []

-- `list(dict.fromkeys(ips))`
abbrev pub unique_ips : List String → List String → List String
unique_ips seen [] = seen
unique_ips seen (ip ∷ ips) = unique_ips (append_new seen ip) ips

-- `reserve_ips`: the addresses that were not seen yet
unfoldable pub reserve_ips : List String → SpeedTestContext → List String × SpeedTestContext
reserve_ips ips context =
    let candidates = filterb (λ ip. not (elem ip context.seen_ips)) (unique_ips [] ips) in
    (candidates, record context { seen_ips = update context.seen_ips candidates })

unfoldable pub add_results : List IpRttResult → SpeedTestContext → SpeedTestContext
add_results results context = record context { ip_rtt_results = context.ip_rtt_results ++ results }

-- The addresses of the records in turn; `seen` has the members of `ips`
abbrev pub collect_addresses : List String → List Rdata → List String
collect_addresses ips [] = ips
collect_addresses ips (address ip ∷ rest) = collect_addresses (append_new ips ip) rest
collect_addresses ips (other text ∷ rest) = collect_addresses ips rest

unfoldable pub extract_unique_ips : Answer → List String
extract_unique_ips answer =
    if not (is_address_type answer.rdtype)
    then []
    else elim answer.rrset [ none ↦ [] | some rrset ↦ collect_addresses [] rrset.records ]

abbrev pub inf_result : String → IpRttResult
inf_result ip = record {
  ip = ip;
  ping_ms = none;
  tcp80_ms = none;
  tcp443_ms = none;
  best_ms = some infinite;
}

abbrev pub make_inf_results : List String → List IpRttResult
make_inf_results [] = []
make_inf_results (ip ∷ ips) = inf_result ip ∷ make_inf_results ips

-- The lists of `_collect_candidate_ips`; `seen` has the members of `candidates`
pub record Collected : Type 0 where
  pub candidates : List String
  pub inf_results : List IpRttResult

abbrev pub add_ip : Bool → String → Collected → Collected
add_ip mark_inf ip c = if elem ip c.candidates then c else record {
  candidates = c.candidates ++ ip ∷ [];
  inf_results = if mark_inf then c.inf_results ++ inf_result ip ∷ [] else c.inf_results;
}

abbrev pub add_ips : Bool → List String → Collected → Collected
add_ips mark_inf [] c = c
add_ips mark_inf (ip ∷ ips) c = add_ips mark_inf ips (add_ip mark_inf ip c)

unfoldable pub add_answer_ips : Bool → Option Answer → Collected → Collected
add_answer_ips mark_inf none c = c
add_answer_ips mark_inf (some item) c = add_ips mark_inf (extract_unique_ips item) c

unfoldable pub add_collected : List String → List Entry → Collected → Collected
add_collected no_speedtest_tags [] c = c
add_collected no_speedtest_tags (result ∷ results) c =
    add_collected no_speedtest_tags results
      (add_answer_ips (has_any_tag result.tags no_speedtest_tags) result.answer c)

-- The key `(duration_ms, upstream_name)`
abbrev pub entry_before : Entry → Entry → Bool
entry_before a b =
    ltb a.duration_ms b.duration_ms
    || a.duration_ms == b.duration_ms && is_le (compare_texts a.upstream_name b.upstream_name)

-- `upstream_results[-1]`
abbrev pub last_entries : UpstreamResult → List UpstreamResult → List Entry
last_entries result [] = result.collected_results
last_entries result (next ∷ rest) = last_entries next rest

abbrev pub collect_results : List String → List UpstreamResult → Collected → Collected
collect_results no_speedtest_tags [] c = c
collect_results no_speedtest_tags (result ∷ rest) c =
    add_collected no_speedtest_tags (sort_by entry_before (last_entries result rest)) c

unfoldable pub collect_candidate_ips :
    SpeedTestPluginConfig
    → RequestContext
    → Answer
    → SpeedTestContext
    → List String × SpeedTestContext
collect_candidate_ips config context answer speedtest_context =
    let first = add_answer_ips false (some answer) (record { candidates = []; inf_results = [] }) in
    let c = collect_results config.no_speedtest_tags context.upstream_results first in
    (c.candidates, add_results c.inf_results speedtest_context)

abbrev pub addresses_of : SpeedTestFallbackRuleConfig → ℕ → List String
addresses_of rule rdtype = if rdtype == type_a then rule.ipv4_addresses else rule.ipv6_addresses

abbrev pub rule_skipped : List String → ℕ → SpeedTestFallbackRuleConfig → Bool
rule_skipped tags rdtype rule =
    has_any_tag tags rule.exclude_tags
    || not (has_any_tag tags rule.match_tags)
    || is_empty (addresses_of rule rdtype)

unfoldable pub select_fallback_ips :
    List SpeedTestFallbackRuleConfig → List String → ℕ → List String
select_fallback_ips [] tags rdtype = []
select_fallback_ips (rule ∷ rules) tags rdtype =
    let rest = select_fallback_ips rules tags rdtype in
    if rule_skipped tags rdtype rule then rest else addresses_of rule rdtype
