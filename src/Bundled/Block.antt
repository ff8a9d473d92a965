-- ===== src/Bundled/Block.antt =====
-- plugins/block_plugin/plugin.py: static answers to requests by their tags.
pub mod Supplied
pub mod Served
use python_smartdns.Prelude.{
  ℕ, Bool, true, false, not, ◌&&◌, ◌||◌, ◌==◌, String, Option, none, some, List, [], ◌∷◌, ◌++◌, map,
  intersects, is_empty, update, if◌then◌else◌,
}
use python_smartdns.Outcome.{Outcome, done, raised}
use python_smartdns.Exec.{Exec, pure, lift, get, modify, ◌>>=◌, ◌>>◌}
use python_smartdns.Dns.{
  Question, Rdata, address, RRset, Message, Dnspython, class_in, type_a, type_aaaa,
}
use python_smartdns.Pipeline.Context.{UpstreamResult, RequestContext}
use python_smartdns.Pipeline.Messages.{first_question, build_answer_from_response}

pub record BlockPluginRuleConfig : Type 0 where
  pub match_tags : List String
  pub exclude_tags : List String
  pub ipv4_addresses : List String
  pub ipv6_addresses : List String
  pub block_other : Bool
  pub response_ttl_seconds : ℕ

-- The three tests at the end of the loop of `_resolve_rule`.
abbrev pub serves : BlockPluginRuleConfig → ℕ → Bool
serves rule rdtype =
    if rdtype == type_a && not (is_empty rule.ipv4_addresses)
    then true
    else if rdtype == type_aaaa && not (is_empty rule.ipv6_addresses)
    then true
    else not (rdtype == type_a || rdtype == type_aaaa) && rule.block_other

-- `_resolve_rule`
unfoldable pub resolve_rule :
    List BlockPluginRuleConfig → List String → ℕ → Option BlockPluginRuleConfig
resolve_rule [] tags rdtype = none
resolve_rule (rule ∷ rules) tags rdtype =
    let later = resolve_rule rules tags rdtype in
    if intersects rule.exclude_tags tags
    then later
    else if not (intersects rule.match_tags tags)
    then later
    else if serves rule rdtype
    then some rule
    else later

-- `_build_record`
abbrev pub build_record : String → ℕ → BlockPluginRuleConfig → RRset
build_record qname rdtype rule = record {
  name = qname;
  rdtype = rdtype;
  rdclass = class_in;
  ttl = rule.response_ttl_seconds;
  records = map address (if rdtype == type_a then rule.ipv4_addresses else rule.ipv6_addresses);
}

-- The record sets that are appended to the response.
unfoldable pub static_records : Question → BlockPluginRuleConfig → List RRset
static_records question rule =
    if question.rdtype == type_a
    then (if is_empty rule.ipv4_addresses
        then []
        else build_record question.name question.rdtype rule ∷ [])
    else if question.rdtype == type_aaaa
    then (if is_empty rule.ipv6_addresses
        then []
        else build_record question.name question.rdtype rule ∷ [])
    else []

module _ (d : Dnspython) (rules : List BlockPluginRuleConfig) where
  -- The part of `_apply_static_response` after the choice of the rule.
  abbrev pub answer_statically : Question → BlockPluginRuleConfig → Exec RequestContext (Unit {0})
  answer_statically question rule = do
    c ← get
    made ← lift (d.make_response c.request)
    let response = record made { answer = made.answer ++ static_records question rule }
    modify (λ s. record s { final_response = some response })
    answer ← lift (build_answer_from_response d c.request response)
    modify (λ s. record s { final_answer = some answer; stop_processing = true })

  abbrev pub apply_rule : Question → Option BlockPluginRuleConfig → Exec RequestContext (Unit {0})
  apply_rule question none = pure tt
  apply_rule question (some rule) = answer_statically question rule

  -- `_apply_static_response`
  unfoldable pub apply_static_response : List String → Exec RequestContext (Unit {0})
  apply_static_response tags = do
    c ← get
    question ← lift (first_question c.request)
    apply_rule question (resolve_rule rules tags question.rdtype)

  abbrev pub last_tags : List UpstreamResult → List String
  last_tags [] = []
  last_tags (r ∷ []) = r.tags
  last_tags (r ∷ s ∷ rs) = last_tags (s ∷ rs)

  unfoldable pub block_on_request : Exec RequestContext (Unit {0})
  block_on_request = do c ← get; apply_static_response c.tags

  unfoldable pub block_on_response : Exec RequestContext (Unit {0})
  block_on_response = do
    c ← get
    apply_static_response (update c.tags (last_tags c.upstream_results))
