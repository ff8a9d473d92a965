-- ===== src/Examples/Block.antt =====
-- A request that is answered statically.
use python_smartdns.Prelude.{true, false, some, [], ◌∷◌, All, ◌≡◌, ◌⊎◌, refl}
use python_smartdns.Outcome.{done}
use python_smartdns.Dns.{address, noerror}
use python_smartdns.Pipeline.Context.{RequestContext}
use python_smartdns.Pipeline.Messages.{
  first_question, clone_response_for_request, build_answer_from_response, adopt_first,
}
use python_smartdns.Pipeline.Requests.{build_context}
use python_smartdns.Bundled.Block.{
  BlockPluginRuleConfig, resolve_rule, static_records, apply_static_response,
}
use python_smartdns.Bundled.Block.Served.{Serves, Chooses, Answered, apply_static_response-Answered}
use python_smartdns.Examples.Data.{asked, reply, answer_to, small_dns, context}

abbrev sinkhole : BlockPluginRuleConfig
sinkhole = record {
  match_tags = "ads" ∷ [];
  exclude_tags = "trusted" ∷ [];
  ipv4_addresses = "0.0.0.0" ∷ [];
  ipv6_addresses = [];
  block_other = false;
  response_ttl_seconds = 60;
}

first : first_question context.request ≡ done asked
unfolding first_question build_context
first = refl

abbrev blocked : RequestContext
blocked = record context {
  final_response = some (record (reply 7 noerror) {
    answer =
        record {
          name = "example.org.";
          rdtype = 1;
          rdclass = 1;
          ttl = 60;
          records = address "0.0.0.0" ∷ [];
        }
        ∷ [];
  });
  final_answer = some (answer_to (reply 7 noerror));
  stop_processing = true;
}

run :
    apply_static_response small_dns (sinkhole ∷ []) ("ads" ∷ []) context ≡ (done (tt {0}), blocked)
unfolding apply_static_response first_question build_context resolve_rule static_records
    build_answer_from_response clone_response_for_request adopt_first
run = refl

apply_static_response-Answered_example :
    (All (λ r. ¬ Serves r ("ads" ∷ []) asked.rdtype) (sinkhole ∷ []) × (blocked ≡ context))
    ⊎ ((rule : BlockPluginRuleConfig) × Chooses
          ("ads" ∷ [])
          asked.rdtype
          (sinkhole ∷ [])
          (some rule)
        × Answered small_dns asked rule context blocked)
apply_static_response-Answered_example =
    apply_static_response-Answered small_dns (sinkhole ∷ []) ("ads" ∷ []) asked context blocked
      first run
