-- ===== src/Dispatcher/Base.antt =====
-- dns_forwarder/dispatcher/base.py
use python_smartdns.Prelude.{
  String, Bool, true, false, Option, none, some, List, [], ◌∷◌, if◌then◌else◌,
}
use python_smartdns.Outcome.{Exn, nxdomain, runtime_error}
use python_smartdns.Pipeline.Context.{UpstreamResult, has_answer}

unfoldable pub default_result : String → UpstreamResult
default_result message = record {
  entry = record {
    upstream_name = "unknown";
    duration_ms = 0;
    answer = none;
    error = some (runtime_error message);
    tags = [];
  };
  collected_results = [];
}

-- `isinstance(error, dns.resolver.NXDOMAIN)`
abbrev pub is_nxdomain : Option Exn → Bool
is_nxdomain (some nxdomain) = true
is_nxdomain _ = false

abbrev pub or_first {ℓ} : {A : Type ℓ} → Option A → A → Option A
or_first none a = some a
or_first (some b) a = some b

-- The loop, over `first_error` and `first_nxdomain`.
unfoldable pub scan_failures :
    List UpstreamResult
    → Option UpstreamResult
    → Option UpstreamResult
    → Option UpstreamResult × Option UpstreamResult
scan_failures [] first_error first_nxdomain = (first_error, first_nxdomain)
scan_failures (result ∷ results) first_error first_nxdomain =
    if has_answer result
    then scan_failures results first_error first_nxdomain
    else if is_nxdomain result.error
    then scan_failures results first_error (or_first first_nxdomain result)
    else scan_failures results (or_first first_error result) first_nxdomain

-- `first_nxdomain or first_error or cls.default_result(message)`
abbrev pub or_default :
    Option UpstreamResult → Option UpstreamResult → UpstreamResult → UpstreamResult
or_default (some n) e d = n
or_default none (some e) d = e
or_default none none d = d

unfoldable pub pick_failure_result : List UpstreamResult → String → UpstreamResult
pick_failure_result results message =
    let (first_error, first_nxdomain) = scan_failures results none none in
    or_default first_nxdomain first_error (default_result message)
