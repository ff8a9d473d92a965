-- ===== src/Bundled/SpeedTest/Selection.antt =====
-- plugins/speedtest_plugin/plugin.py: the addresses that `on_response` chooses by their times.
pub mod Fastest
pub mod Tolerance
pub mod Chosen
use python_smartdns.Prelude.{
  ℕ, zero, suc, ◌-◌, String, str_eq, Bool, true, false, ◌&&◌, ◌||◌, ◌==◌, ltb, leb, Option, none,
  some, List, [], ◌∷◌, ◌++◌, elem, map, take, filterb, if◌then◌else◌,
}
use python_smartdns.Prelude.Sorting.{sort_by}
use python_smartdns.Bundled.SpeedTest.{Rtt, ms, infinite, IpRttResult, SpeedTestPluginConfig}

-- `{item.ip: item for ...}`: a later item takes the place of an earlier one.
abbrev pub put_item : IpRttResult → List IpRttResult → List IpRttResult
put_item item [] = item ∷ []
put_item item (other ∷ items) =
    if str_eq other.ip item.ip then item ∷ items else other ∷ put_item item items

abbrev pub put_items : List IpRttResult → List IpRttResult → List IpRttResult
put_items [] items = items
put_items (item ∷ rest) items = put_items rest (put_item item items)

abbrev pub has_time : Option Rtt → Bool
has_time none = false
has_time (some rtt) = true

abbrev pub is_measured : List String → IpRttResult → Bool
is_measured candidate_ips item = has_time item.best_ms && elem item.ip candidate_ips

unfoldable pub measured_results : List String → List IpRttResult → List IpRttResult
measured_results candidate_ips results = put_items (filterb (is_measured candidate_ips) results) []

-- The key: the time, which is infinite where there is none, and the place among the candidates.
abbrev pub time_of : Option Rtt → Rtt
time_of none = infinite
time_of (some rtt) = rtt

abbrev pub original_order : String → List String → ℕ
original_order ip [] = zero
original_order ip (other ∷ ips) = if str_eq other ip then zero else suc (original_order ip ips)

abbrev pub rtt_before : Rtt → Rtt → Bool → Bool
rtt_before (ms a) (ms b) tie = ltb a b || a == b && tie
rtt_before (ms a) infinite tie = true
rtt_before infinite (ms b) tie = false
rtt_before infinite infinite tie = tie

abbrev pub item_before : List String → IpRttResult → IpRttResult → Bool
item_before candidate_ips a b =
    rtt_before (time_of a.best_ms) (time_of b.best_ms)
      (leb (original_order a.ip candidate_ips) (original_order b.ip candidate_ips))

unfoldable pub sorted_items : List String → List IpRttResult → List IpRttResult
sorted_items candidate_ips measured = sort_by (item_before candidate_ips) measured

-- `item - best <= tolerance`: the difference of two infinities is no number, and not below any.
abbrev pub within_tolerance : ℕ → Rtt → Rtt → Bool
within_tolerance tolerance (ms a) (ms b) = leb (a - b) tolerance
within_tolerance tolerance (ms a) infinite = true
within_tolerance tolerance infinite b = false

-- `item - previous > threshold`
abbrev pub gap_exceeds : ℕ → Rtt → Rtt → Bool
gap_exceeds threshold (ms a) (ms b) = ltb threshold (a - b)
gap_exceeds threshold (ms a) infinite = false
gap_exceeds threshold infinite (ms b) = true
gap_exceeds threshold infinite infinite = false

abbrev pub or_else : Option Rtt → Rtt → Rtt
or_else none rtt = rtt
or_else (some best) rtt = best

abbrev pub filter_step :
    ℕ → Option Rtt → IpRttResult → Option Rtt → (Option Rtt → List IpRttResult) → List IpRttResult
filter_step tolerance best item none rest = rest best
filter_step tolerance best item (some rtt) rest =
    if within_tolerance tolerance rtt (or_else best rtt)
    then item ∷ rest (some (or_else best rtt))
    else []

-- The loop for the tolerance, with `best_ms`
unfoldable pub filter_items : ℕ → Option Rtt → List IpRttResult → List IpRttResult
filter_items tolerance best [] = []
filter_items tolerance best (item ∷ items) =
    filter_step tolerance best item item.best_ms (λ best'. filter_items tolerance best' items)

abbrev pub exceeds : ℕ → Option Rtt → Option Rtt → Bool
exceeds threshold none previous = false
exceeds threshold (some rtt) none = false
exceeds threshold (some rtt) (some previous) = gap_exceeds threshold rtt previous

-- The loop for the gaps, from the second item on
abbrev pub truncate_from : ℕ → IpRttResult → List IpRttResult → List IpRttResult
truncate_from threshold previous [] = []
truncate_from threshold previous (item ∷ items) =
    let rest = truncate_from threshold item items in
    if exceeds threshold item.best_ms previous.best_ms then [] else item ∷ rest

unfoldable pub truncate_items : ℕ → List IpRttResult → List IpRttResult
truncate_items threshold [] = []
truncate_items threshold (item ∷ items) = item ∷ truncate_from threshold item items

-- `if not filtered_items: filtered_items = sorted_items`
abbrev pub or_sorted : List IpRttResult → List IpRttResult → List IpRttResult
or_sorted [] items = items
or_sorted (item ∷ filtered) items = item ∷ filtered

abbrev pub ip_of : IpRttResult → String
ip_of item = item.ip

unfoldable pub select_ips : SpeedTestPluginConfig → List String → List IpRttResult → List String
unfolding sorted_items
select_ips config candidate_ips measured =
    let items = sorted_items candidate_ips measured in
    take config.response_ip_limit (
      map ip_of (
        truncate_items config.rtt_gap_threshold_ms
          (or_sorted (filter_items config.rtt_tolerance_ms none items) items)))
