-- ===== src/Examples/Tag.antt =====
-- A result whose answer has a chain of one alias and one address.
use python_smartdns.Prelude.{
  String, false, str_eq, ◌||◌, none, some, List, [], ◌∷◌, elem, ◌≡◌, refl, if◌then◌else◌,
}
use python_smartdns.Outcome.{key_error, Outcome, done, raised}
use python_smartdns.Dns.{address, Message, Answer}
use python_smartdns.Pipeline.Context.{UpstreamResult, RequestContext}
use python_smartdns.Pipeline.Requests.{build_context}
use python_smartdns.Bundled.Tag.{
  TagSource, extract_cname_chain_domains, tag_on_upstream_response, update_by, extract_answer_ips,
}
use python_smartdns.Bundled.Tag.Expected.{
  domains_give, answer_gives, or_first, domains_failure, answer_failure,
}
use python_smartdns.Bundled.Tag.Tagged.{Adds, tag_on_upstream_response-Adds}

abbrev domains_of : String → Outcome (List String)
domains_of name = if str_eq name "ads.example" then done ("ads" ∷ []) else done []

abbrev tags_of_address : String → Outcome (List String)
tags_of_address ip = if str_eq ip "192.0.2.1" then done ("lan" ∷ []) else raised key_error

abbrev source : TagSource
source = record {
  domainset_lookup = domains_of;
  ipset_lookup = tags_of_address;
  to_text = λ name. name;
  cnames = λ answer. some ("www.example" ∷ []);
  hints = λ r. none;
}

abbrev request : Message
request = record {
  id = 7;
  response = false;
  opcode = 0;
  rcode = 0;
  question = [];
  answer = [];
  authority = [];
  additional = [];
}

abbrev addressed : Answer
addressed = record {
  qname = "www.example";
  rdtype = 1;
  rdclass = 1;
  response = request;
  rrset = some (record {
    name = "ads.example";
    rdtype = 1;
    rdclass = 1;
    ttl = 60;
    records = address "192.0.2.1" ∷ [];
  });
  canonical_name = "ads.example";
  expiration = 0;
}

abbrev given : UpstreamResult
given = record {
  entry = record {
    upstream_name = "up";
    duration_ms = 3;
    answer = some addressed;
    error = none;
    tags = [];
  };
  collected_results = [];
}

abbrev asked : RequestContext
asked = record (build_context request "127.0.0.1" "udp" []) { tags = "home" ∷ [] }

tagged :
    (tag_on_upstream_response source asked given).1
    ≡ record given { entry = record given.entry { tags = "lan" ∷ "ads" ∷ "home" ∷ [] } }
unfolding tag_on_upstream_response update_by extract_cname_chain_domains extract_answer_ips
tagged = refl

tag_on_upstream_response-Adds_example :
    Adds given
      (λ t.
        elem t ("home" ∷ [])
        || (domains_give source (some addressed) t || answer_gives source (some addressed) t))
      (or_first (domains_failure source (some addressed)) (answer_failure source (some addressed)))
      (tag_on_upstream_response source asked given)
tag_on_upstream_response-Adds_example = tag_on_upstream_response-Adds source asked given
