-- ===== src/Examples/IpFilter.antt =====
-- An answer with an address that is black-listed.
use python_smartdns.Prelude.{some, List, [], ◌∷◌, str_eq, ◌≡◌, refl, if◌then◌else◌}
use python_smartdns.Outcome.{done}
use python_smartdns.Dns.{Rdata, address, Answer, noerror}
use python_smartdns.Bundled.IpFilter.{
  IpFilterPluginConfig, Lookup, should_keep_ip_tags, kept_records, filter_answer,
}
use python_smartdns.Bundled.IpFilter.Kept.{LeavesSet, filter_answer-Leaves}
use python_smartdns.Examples.Data.{reply, answer_to}

abbrev config : IpFilterPluginConfig
config = record {
  match_tags = [];
  exclude_tags = [];
  whitelist_tags = [];
  blacklist_tags = "bad" ∷ [];
}

abbrev tags_of : Lookup
tags_of text = done (if str_eq text "192.0.2.6" then "bad" ∷ [] else [])

abbrev with_records : List Rdata → Answer
with_records records = record (answer_to (reply 7 noerror)) {
  rrset =
      some (record { name = "example.org."; rdtype = 1; rdclass = 1; ttl = 60; records = records });
}

run :
    filter_answer config tags_of (with_records (address "192.0.2.6" ∷ address "192.0.2.1" ∷ []))
    ≡ done (with_records (address "192.0.2.1" ∷ []))
unfolding filter_answer kept_records should_keep_ip_tags
run = refl

filter_answer-Leaves_example :
    LeavesSet config tags_of
      (with_records (address "192.0.2.6" ∷ address "192.0.2.1" ∷ [])).rrset
      (with_records (address "192.0.2.1" ∷ [])).rrset
    × (with_records (address "192.0.2.6" ∷ address "192.0.2.1" ∷ [])
        ≡ record (with_records (address "192.0.2.1" ∷ [])) {
          rrset = (with_records (address "192.0.2.6" ∷ address "192.0.2.1" ∷ [])).rrset;
        })
filter_answer-Leaves_example =
    filter_answer-Leaves config tags_of
      (with_records (address "192.0.2.6" ∷ address "192.0.2.1" ∷ []))
      (with_records (address "192.0.2.1" ∷ [])) run
