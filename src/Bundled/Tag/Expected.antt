-- ===== src/Bundled/Tag/Expected.antt =====
-- plugins/tag_plugin/plugin.py: the tags that a result is to have, and what is to be raised, in terms of
-- the records of its answer and of the names of its chain.
use python_smartdns.Prelude.{
  String, str_eq, Bool, true, false, ◌==◌, ◌&&◌, ◌||◌, Option, none, some, List, [], ◌∷◌, elem, any,
  if◌then◌else◌,
}
use python_smartdns.Outcome.{Exn, Outcome, done, raised}
use python_smartdns.Dns.{Rdata, address, other, RRset, Answer}
use python_smartdns.Bundled.Https.{type_https}
use python_smartdns.Bundled.Tag.{TagSource}

-- A lookup gives the tag for the key.
abbrev pub gives : Outcome (List String) → String → Bool
gives (done tags) t = elem t tags
gives (raised exc) t = false

abbrev pub is_found : (String → Outcome (List String)) → List String → String → Bool
is_found lookup keys t = any (λ key. gives (lookup key) t) keys

module _ (s : TagSource) where
  -- What the names of the chain give, and the last name of it, where there is a chain.
  abbrev pub chain_gives : Answer → Option (List String) → String → Bool
  chain_gives answer none t = false
  chain_gives answer (some names) t =
      is_found (λ name. s.domainset_lookup (s.to_text name)) names t
      || gives (s.domainset_lookup (s.to_text answer.canonical_name)) t

  abbrev pub domains_give : Option Answer → String → Bool
  domains_give none t = false
  domains_give (some answer) t = chain_gives answer (s.cnames answer) t

  -- What the address of a record gives.
  abbrev pub address_gives : Rdata → String → Bool
  address_gives (address ip) t = gives (s.ipset_lookup ip) t
  address_gives (other text) t = false

  abbrev pub hint_gives : Option (List String) → String → Bool
  hint_gives none t = false
  hint_gives (some ips) t = is_found s.ipset_lookup ips t

  -- What the hints of a record give, and whether it has one.
  abbrev pub hints_give : Option (Option (List String) × Option (List String)) → String → Bool
  hints_give none t = false
  hints_give (some (ipv4hint, ipv6hint)) t = hint_gives ipv4hint t || hint_gives ipv6hint t

  abbrev pub has_hint : Option (List String) → Bool
  has_hint none = false
  has_hint (some ips) = true

  abbrev pub has_hints : Option (Option (List String) × Option (List String)) → Bool
  has_hints none = false
  has_hints (some (ipv4hint, ipv6hint)) = has_hint ipv4hint || has_hint ipv6hint

  -- The tags of the record set of an answer.
  abbrev pub rrset_gives : Answer → RRset → String → Bool
  rrset_gives answer rrset t =
      if answer.rdtype == type_https
      then any (λ r. has_hints (s.hints r)) rrset.records && str_eq "has_hint" t
        || any (λ r. hints_give (s.hints r) t) rrset.records
      else if answer.rdtype == 1 || answer.rdtype == 28
      then any (λ r. address_gives r t) rrset.records
      else false

  abbrev pub answer_gives : Option Answer → String → Bool
  answer_gives none t = false
  answer_gives (some answer) t = elim answer.rrset [
    | none ↦ false
    | some rrset ↦ rrset_gives answer rrset t
  ]

abbrev pub failure_at : Outcome (List String) → Option Exn → Option Exn
failure_at (done tags) later = later
failure_at (raised exc) later = some exc

-- The first lookup that raises.
abbrev pub failure : (String → Outcome (List String)) → List String → Option Exn
failure lookup [] = none
failure lookup (key ∷ keys) = failure_at (lookup key) (failure lookup keys)

abbrev pub or_first : Option Exn → Option Exn → Option Exn
or_first none later = later
or_first (some exc) later = some exc

-- The first that raises of all.
abbrev pub first_failure {ℓ} : {A : Type ℓ} → (A → Option Exn) → List A → Option Exn
first_failure fails [] = none
first_failure fails (x ∷ xs) = or_first (fails x) (first_failure fails xs)

module _ (s : TagSource) where
  abbrev pub chain_failure : Answer → Option (List String) → Option Exn
  chain_failure answer none = none
  chain_failure answer (some names) =
      or_first (failure (λ name. s.domainset_lookup (s.to_text name)) names)
        (failure_at (s.domainset_lookup (s.to_text answer.canonical_name)) none)

  abbrev pub domains_failure : Option Answer → Option Exn
  domains_failure none = none
  domains_failure (some answer) = chain_failure answer (s.cnames answer)

  abbrev pub address_failure : Rdata → Option Exn
  address_failure (address ip) = failure_at (s.ipset_lookup ip) none
  address_failure (other text) = none

  abbrev pub hint_failure : Option (List String) → Option Exn
  hint_failure none = none
  hint_failure (some ips) = failure s.ipset_lookup ips

  abbrev pub hints_failure : Option (Option (List String) × Option (List String)) → Option Exn
  hints_failure none = none
  hints_failure (some (ipv4hint, ipv6hint)) =
      or_first (hint_failure ipv4hint) (hint_failure ipv6hint)

  abbrev pub rrset_failure : Answer → RRset → Option Exn
  rrset_failure answer rrset =
      if answer.rdtype == type_https
      then first_failure (λ r. hints_failure (s.hints r)) rrset.records
      else if answer.rdtype == 1 || answer.rdtype == 28
      then first_failure address_failure rrset.records
      else none

  abbrev pub answer_failure : Option Answer → Option Exn
  answer_failure none = none
  answer_failure (some answer) = elim answer.rrset [
    | none ↦ none
    | some rrset ↦ rrset_failure answer rrset
  ]
