-- ===== src/Examples/Data.antt =====
-- The data of the examples: two groups, one inside the other, and a query over them.
use python_smartdns.Prelude.{
  ℕ, String, Bool, true, false, Option, none, some, List, [], ◌∷◌, str_eq, if◌then◌else◌,
}
use python_smartdns.Prelude.Int.{ℤ, pos}
use python_smartdns.Outcome.{Exn, form_error, timeout_error, value_error, Outcome, done, raised}
use python_smartdns.Exec.{Exec, pure, raise}
use python_smartdns.Config.Model.{race, wait_all, RuleConfig, AppConfig}
use python_smartdns.Dns.{Question, Message, Answer, Wire, Dnspython}
use python_smartdns.Pipeline.Context.{UpstreamResult, RequestContext}
use python_smartdns.Pipeline.Engine.{Engine, build_context}
use python_smartdns.Dispatcher.Registry.{ResolverManager, Schedule}
use python_smartdns.Plugins.{Plugin}

abbrev pub ads_rule : RuleConfig
ads_rule = record {
  name = "ads";
  enabled = true;
  match = record { match_tags = "ads" ∷ []; exclude_tags = "trusted" ∷ []; qtypes = "A" ∷ [] };
  action = record { upstream_group = some "inner"; dispatcher = some race };
}

abbrev pub home : AppConfig
home = record {
  default_upstream_group = "main";
  default_upstream_policy = wait_all;
  listeners = "udp" ∷ [];
  nameservers = "ns" ∷ [];
  upstreams =
      record { name = "slow"; nameservers = "ns" ∷ [] }
      ∷ record { name = "quick"; nameservers = "ns" ∷ [] }
      ∷ [];
  groups =
      record { name = "main"; upstreams = "slow" ∷ "inner" ∷ [] }
      ∷ record { name = "inner"; upstreams = "quick" ∷ "slow" ∷ [] }
      ∷ [];
  rules = ads_rule ∷ [];
  plugins = [];
  webui_enabled = false;
  doh_enabled = false;
}

abbrev pub asked : Question
asked = record { name = "example.org."; rdtype = 1; rdclass = 1 }

abbrev pub query : Message
query = record {
  id = 7;
  response = false;
  opcode = 0;
  rcode = 0;
  question = asked ∷ [];
  answer = [];
  authority = [];
  additional = [];
}

abbrev pub two_questions : Message
two_questions = record query { question = asked ∷ asked ∷ [] }

abbrev pub reply : ℕ → ℕ → Message
reply id rcode = record query { id = id; response = true; rcode = rcode }

abbrev pub answer_to : Message → Answer
answer_to m = record {
  qname = "example.org.";
  rdtype = 1;
  rdclass = 1;
  response = m;
  rrset = none;
  canonical_name = "example.org.";
  expiration = 60;
}

-- A dnspython that renders the identifier and the code.
abbrev pub read_wire : Wire → Outcome Message
read_wire (i ∷ r ∷ []) = done (reply i r)
read_wire _ = raised form_error

abbrev pub small_dns : Dnspython
small_dns = record {
  make_response =
      λ m. if m.response then raised form_error else done (record m { response = true });
  to_wire = λ m. done (m.id ∷ m.rcode ∷ []);
  from_wire = read_wire;
  make_answer = λ name rdtype rdclass m. done (answer_to m);
  make_query = λ name rdtype. done query;
  type_text = λ t. "A";
  now = 0;
}

abbrev pub result_from : String → ℕ → Option Answer → Option Exn → UpstreamResult
result_from name duration answer error = record {
  entry = record {
    upstream_name = name;
    duration_ms = duration;
    answer = answer;
    error = error;
    tags = [];
  };
  collected_results = [];
}

abbrev pub slow_result : UpstreamResult
slow_result = result_from "slow" 30 (some (answer_to (reply 9 0))) none

abbrev pub quick_result : UpstreamResult
quick_result = result_from "quick" 5 (some (answer_to (reply 9 0))) none

abbrev pub failed_result : UpstreamResult
failed_result = result_from "down" 1 none (some timeout_error)

-- A resolver of each name: two that answer, and all others, which time out.
abbrev pub answering : Bool → Bool → Exec RequestContext UpstreamResult
answering true quick = pure slow_result
answering false true = pure quick_result
answering false false = raise timeout_error

abbrev pub resolver_of : String → Exec RequestContext UpstreamResult
resolver_of name = answering (str_eq name "slow") (str_eq name "quick")

abbrev pub manager : ResolverManager
manager = record {
  groups = home.groups;
  resolver_registry = λ name. none;
  resolvers = λ name. some (resolver_of name);
}

abbrev pub in_order : Schedule
in_order = record { order = λ c group ts. ts; late = λ c group. 0 }

-- A plugin that does nothing, and one whose `on_request` raises.
abbrev pub idle : String → ℤ → Plugin
idle name order = record {
  name = name;
  request_order = order;
  upstream_response_order = order;
  response_order = order;
  observe_order = order;
  on_request = pure tt;
  on_upstream_response = λ result c. (done tt, result, c);
  on_response = pure tt;
  on_observe = pure tt;
  on_finish = pure tt;
}

abbrev pub faulty : Plugin
faulty = record (idle "faulty" (pos 3)) {
  on_request = raise value_error;
  on_finish = raise value_error;
}

abbrev pub engine_of : List Plugin → Engine
engine_of plugins = record {
  dns = small_dns;
  rules = home.rules;
  default_upstream_group = home.default_upstream_group;
  default_dispatcher = home.default_upstream_policy;
  resolver_manager = manager;
  schedule = in_order;
  plugins = plugins;
}

abbrev pub context : RequestContext
context = build_context query "10.0.0.1" "udp" []
