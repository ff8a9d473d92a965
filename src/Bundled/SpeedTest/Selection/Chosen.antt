-- ===== src/Bundled/SpeedTest/Selection/Chosen.antt =====
-- plugins/speedtest_plugin/plugin.py: the addresses that are chosen, from the results on.
use mathlib.Core.List.{Perm}
use python_smartdns.Prelude.{none, List, [], ◌∷◌, String, map, take, ◌≡◌}
use python_smartdns.Prelude.Sorting.{IsAscending}
use python_smartdns.Bundled.SpeedTest.{Rtt, infinite, IpRttResult, SpeedTestPluginConfig}
use python_smartdns.Bundled.SpeedTest.Selection.{
  time_of, item_before, filter_items, truncate_items, or_sorted, ip_of,
}
use python_smartdns.Bundled.SpeedTest.Selection.Fastest.{IsFastest}

module _ (config : SpeedTestPluginConfig) where
  abbrev best_of : List IpRttResult → Rtt
  best_of [] = infinite
  best_of (first ∷ others) = time_of first.best_ms

  abbrev chosen_of : List IpRttResult → List IpRttResult
  chosen_of items = take config.response_ip_limit (
      truncate_items config.rtt_gap_threshold_ms
        (or_sorted (filter_items config.rtt_tolerance_ms none items) items))

-- The choice: the results with a time, one for each address, in the order of their times and then of
-- the candidates, and the fastest of these.
pub record IsChoice (config : SpeedTestPluginConfig) (candidate_ips : List String)
    (measured : List IpRttResult) (ips : List String) : Type 0 where
  pub sorted : List IpRttResult
  pub same : Perm sorted measured
  pub ascending : IsAscending (item_before candidate_ips) sorted
  pub chosen : List IpRttResult
  pub fastest : IsFastest config (best_of config sorted) sorted chosen
  pub ips_of : ips ≡ map ip_of chosen
