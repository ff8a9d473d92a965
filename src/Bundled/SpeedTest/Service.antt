-- ===== src/Bundled/SpeedTest/Service.antt =====
-- plugins/speedtest_plugin/service.py: what the probes of an address give. The probes stand in the
-- order in which they end; the cache in front of them is async_lru's.
use python_smartdns.Prelude.{
  ℕ, String, Bool, true, false, not, ◌||◌, Option, none, some, List, [], ◌∷◌, is_empty,
  if◌then◌else◌,
}
use python_smartdns.Outcome.{value_error, Outcome, done, raised}
use python_smartdns.Bundled.SpeedTest.{Rtt, ms, IpRttResult}

pub data Probe : Type 0 where
  ping tcp80 tcp443 : Probe

abbrev pub probe_result : String → Probe → Option Rtt → IpRttResult
probe_result ip ping result = record {
  ip = ip;
  ping_ms = result;
  tcp80_ms = none;
  tcp443_ms = none;
  best_ms = result;
}
probe_result ip tcp80 result = record {
  ip = ip;
  ping_ms = none;
  tcp80_ms = result;
  tcp443_ms = none;
  best_ms = result;
}
probe_result ip tcp443 result = record {
  ip = ip;
  ping_ms = none;
  tcp80_ms = none;
  tcp443_ms = result;
  best_ms = result;
}

-- `_measure_ip_uncached`: the first probe that gives a time ends the others.
unfoldable pub measure_ip_uncached : String → List (Probe × Option Rtt) → IpRttResult
measure_ip_uncached ip [] = record {
  ip = ip;
  ping_ms = none;
  tcp80_ms = none;
  tcp443_ms = none;
  best_ms = none;
}
measure_ip_uncached ip ((probe, none) ∷ rest) = measure_ip_uncached ip rest
measure_ip_uncached ip ((probe, some result) ∷ rest) = probe_result ip probe (some result)

-- What icmplib says of a host, with the average where it has one.
pub record Host : Type 0 where
  pub is_alive : Bool
  pub rtts : List ℕ
  pub avg_rtt : Option ℕ

-- `_probe_icmp`, over what `async_ping` gave and the time since then
unfoldable pub probe_icmp : ℕ → Outcome Host → Option Rtt
probe_icmp elapsed (raised exc) = none
probe_icmp elapsed (done host) =
    if not host.is_alive || is_empty host.rtts
    then none
    else elim host.avg_rtt [ none ↦ some (ms elapsed) | some avg ↦ some (ms avg) ]

-- How `sock_connect` ends within the timeout.
pub data Connect : Type 0 where
  connected refused failed : Connect

-- `_build_socket_target`, over whether the text is an address and of version 6: its family and
-- whether it has a scope
unfoldable pub build_socket_target : Bool → Outcome Bool → Outcome Bool
build_socket_target has_ipv6 (raised exc) = raised exc
build_socket_target has_ipv6 (done false) = done false
build_socket_target has_ipv6 (done true) = if not has_ipv6 then raised value_error else done true

abbrev pub time_to : ℕ → Connect → Option Rtt
time_to elapsed connected = some (ms elapsed)
time_to elapsed refused = some (ms elapsed)
time_to elapsed failed = none

-- `_probe_tcp`: a connection that is refused is an answer too.
unfoldable pub probe_tcp : ℕ → Outcome Bool → Connect → Option Rtt
probe_tcp elapsed (raised exc) ending = none
probe_tcp elapsed (done is_v6) ending = time_to elapsed ending
