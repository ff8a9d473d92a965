-- ===== src/Examples/SpeedTest.antt =====
-- Times of five addresses, of which two are too slow.
use python_smartdns.Prelude.{ℕ, String, not, ◌&&◌, none, some, List, [], ◌∷◌, elem, ◌≡◌, refl}
use python_smartdns.Config.References.Names.{Distinct}
use python_smartdns.Bundled.SpeedTest.{
  ms, IpRttResult, SpeedTestPluginConfig, SpeedTestContext, inf_result,
}
use python_smartdns.Bundled.SpeedTest.Selection.{
  measured_results, filter_items, truncate_items, select_ips,
}
use python_smartdns.Bundled.SpeedTest.Reserved.{reserve_all, is_asked, reserve_all-Distinct}

abbrev config : SpeedTestPluginConfig
config = record {
  response_ip_limit = 2;
  response_ttl_seconds = 60;
  rtt_tolerance_ms = 50;
  rtt_gap_threshold_ms = 20;
  skip_tags = [];
  no_speedtest_tags = [];
  fallback_rules = [];
}

abbrev timed : String → ℕ → IpRttResult
timed ip n = record {
  ip = ip;
  ping_ms = some (ms n);
  tcp80_ms = none;
  tcp443_ms = none;
  best_ms = some (ms n);
}

abbrev candidates : List String
candidates = "192.0.2.1" ∷ "192.0.2.2" ∷ "192.0.2.3" ∷ "192.0.2.4" ∷ []

abbrev results : List IpRttResult
results =
    timed "192.0.2.1" 90
    ∷ timed "192.0.2.2" 12
    ∷ inf_result "192.0.2.3"
    ∷ timed "192.0.2.4" 30
    ∷ timed "192.0.2.9" 1
    ∷ []

two_fastest :
    select_ips config candidates (measured_results candidates results)
    ≡ "192.0.2.2" ∷ "192.0.2.4" ∷ []
unfolding select_ips measured_results filter_items truncate_items
two_fastest = refl

-- Where all times are infinite, none is left out but by the limit.
all_infinite :
    select_ips config candidates
      (measured_results candidates (inf_result "192.0.2.3" ∷ inf_result "192.0.2.1" ∷ []))
    ≡ "192.0.2.1" ∷ "192.0.2.3" ∷ []
unfolding select_ips measured_results filter_items truncate_items
all_infinite = refl

abbrev fresh : SpeedTestContext
fresh = record { ip_rtt_results = []; seen_ips = "192.0.2.4" ∷ [] }

abbrev calls : List (List String)
calls = ("192.0.2.1" ∷ "192.0.2.4" ∷ []) ∷ ("192.0.2.2" ∷ "192.0.2.1" ∷ []) ∷ []

given_once : reserve_all calls fresh ≡ "192.0.2.1" ∷ "192.0.2.2" ∷ []
unfolding reserve_all
given_once = refl

reserve_all-Distinct_example :
    Distinct (reserve_all calls fresh)
    × ((x : String)
        → elem x (reserve_all calls fresh) ≡ (is_asked x calls && not (elem x ("192.0.2.4" ∷ []))))
reserve_all-Distinct_example = reserve_all-Distinct calls fresh
