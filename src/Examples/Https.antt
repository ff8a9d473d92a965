-- ===== src/Examples/Https.antt =====
-- A record with h3 alone, a hint, and both among its mandatory parameters.
use python_smartdns.Prelude.{
  ℕ, true, false, str_eq, none, some, [], ◌∷◌, ◌≡◌, refl, arith, if◌then◌else◌,
}
use python_smartdns.Dns.{Rdata, address, other}
use python_smartdns.Workers.{has_id}
use python_smartdns.Bundled.Https.{Params, HttpsRdata, sanitize_params, sanitize_https_rdata}
use python_smartdns.Bundled.Https.Steps.{IsConsistent, has_param}
use python_smartdns.Bundled.Https.Cleaned.{IsCleaned, sanitize_https_rdata-IsCleaned}

abbrev given : Params
given = record {
  mandatory = some (1 ∷ 4 ∷ []);
  alpn = some ("h3" ∷ []);
  no_default_alpn = true;
  ipv4hint = some ("192.0.2.1" ∷ []);
  ipv6hint = none;
  others = (3, "8443") ∷ [];
}

abbrev cleaned : Params
cleaned = record {
  mandatory = none;
  alpn = none;
  no_default_alpn = false;
  ipv4hint = none;
  ipv6hint = none;
  others = (3, "8443") ∷ [];
}

cleaned_well : (sanitize_params given).params ≡ cleaned
unfolding sanitize_params
cleaned_well = refl

abbrev params_of : Rdata → Params
params_of (other s) = if str_eq s "given" then given else cleaned
params_of (address s) = cleaned

abbrev small_https : HttpsRdata
small_https = record {
  params = params_of;
  replace = λ r p. other "cleaned";
  from_rdata_list =
      λ name ttl rs. record { name = name; rdtype = 65; rdclass = 1; ttl = ttl; records = rs };
}

given_there : (k : ℕ) → has_id k (1 ∷ 4 ∷ []) ≡ true → has_param k given ≡ true
given_there k h = ground (arith, h)

given-IsConsistent : IsConsistent given
given-IsConsistent = record { there = given_there; some_mandatory = λ e. cc e; default = λ e. refl }

read_back : let q = (sanitize_params given).params in params_of (other "cleaned") ≡ q
unfolding sanitize_params
read_back = refl

sanitize_https_rdata-IsCleaned_example :
    IsCleaned given (small_https.params (sanitize_https_rdata small_https (other "given")))
sanitize_https_rdata-IsCleaned_example =
    sanitize_https_rdata-IsCleaned small_https (other "given") read_back given-IsConsistent
