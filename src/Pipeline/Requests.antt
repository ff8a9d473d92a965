-- ===== src/Pipeline/Requests.antt =====
-- dns_forwarder/pipeline/engine.py: the engine's parts, the check of a request, its context, and its way
-- to a group of upstreams.
use python_smartdns.Prelude.{
  ℕ, suc, String, Bool, true, false, not, ◌||◌, ◌==◌, Option, none, some, List, [], ◌∷◌, ◌++◌,
  length, if◌then◌else◌,
}
use python_smartdns.Outcome.{Outcome, done, raised}
use python_smartdns.Exec.{Exec, pure, lift, get, modify, ◌>>=◌, ◌>>◌}
use python_smartdns.Config.Model.{
  DispatchStrategyType, race, wait_all, UpstreamGroupConfig, RuleConfig,
}
use python_smartdns.Rules.{RuleSelection, select}
use python_smartdns.Dns.{Question, Message, Dnspython, opcode_query, class_in, formerr}
use python_smartdns.Pipeline.Context.{UpstreamResult, RequestContext, Notify}
use python_smartdns.Pipeline.Messages.{make_error_response, first_question}
use python_smartdns.Dispatcher.Registry.{
  ResolverManager, get_group, Schedule, dispatch_group, dispatch_target,
}
use python_smartdns.Plugins.{Plugin}

-- `PipelineEngine`, with what it calls.
pub record Engine : Type 0 where
  pub dns : Dnspython
  pub rules : List RuleConfig
  pub default_upstream_group : String
  pub default_dispatcher : DispatchStrategyType
  pub resolver_manager : ResolverManager
  pub schedule : Schedule
  pub plugins : List Plugin

abbrev pub max_nested_resolve_depth : ℕ
max_nested_resolve_depth = 8

-- The `value` of the enumeration.
abbrev pub strategy_name : DispatchStrategyType → String
strategy_name race = "race"
strategy_name wait_all = "wait_all"

abbrev pub is_none {ℓ} : {A : Type ℓ} → Option A → Bool
is_none none = true
is_none (some a) = false

abbrev pub as_reply : Outcome Message → Outcome (Option Message)
as_reply (done m) = done (some m)
as_reply (raised x) = raised x

abbrev pub formerr_reply : Engine → Message → Outcome (Option Message)
formerr_reply e request = as_reply (make_error_response e.dns request formerr)

abbrev pub check_class : Engine → Message → List Question → Outcome (Option Message)
check_class e request [] = formerr_reply e request
check_class e request (question ∷ rest) =
    if not (question.rdclass == class_in) then formerr_reply e request else done none

-- `_validate_request_or_error`: none where the request is valid
unfoldable pub validate_request_or_error : Engine → Message → Outcome (Option Message)
validate_request_or_error e request =
    if not (request.opcode == opcode_query) || not (length request.question == 1)
    then formerr_reply e request
    else check_class e request request.question

unfoldable pub build_context : Message → String → String → List (String × String) → RequestContext
build_context request clientaddr listener_name chain = record {
  request = request;
  clientaddr = clientaddr;
  listener_name = listener_name;
  request_id = request.id;
  selected_rule = none;
  selected_group = none;
  selected_dispatcher = none;
  final_answer = none;
  final_response = none;
  drop_request = false;
  stop_processing = false;
  plugin_order = [];
  pipeline_error = none;
  task_error = none;
  tags = [];
  upstream_results = [];
  nested_resolve_chain = chain;
  nested_resolve_max_depth = max_nested_resolve_depth;
}

abbrev pub or_strategy : Option DispatchStrategyType → DispatchStrategyType → DispatchStrategyType
or_strategy none d = d
or_strategy (some s) d = s

-- One call of `dispatch_target` more than there can be groups inside one another.
abbrev pub dispatch_depth : ResolverManager → ℕ
dispatch_depth m = suc (suc (length m.groups))

module _ (e : Engine) where
  -- The last part of `_dispatch_context`, on the group
  abbrev pub ask_selected :
      Notify → DispatchStrategyType → UpstreamGroupConfig → Exec RequestContext UpstreamResult
  ask_selected on_result strategy group = do
    modify (λ s. record s { selected_dispatcher = some (strategy_name strategy) })
    result ←
        dispatch_group e.resolver_manager e.schedule on_result
          (dispatch_target e.resolver_manager e.schedule on_result
            (dispatch_depth e.resolver_manager) strategy)
          strategy group
    modify (λ s. record s { upstream_results = s.upstream_results ++ result ∷ [] })
    pure result

  abbrev pub dispatch_selected : Notify → RuleSelection → Exec RequestContext UpstreamResult
  dispatch_selected on_result selection = do
    modify (λ s. record s {
      selected_rule = selection.rule_name;
      selected_group = some selection.upstream_group;
    })
    group ← lift (get_group e.resolver_manager selection.upstream_group)
    ask_selected on_result (or_strategy selection.dispatcher e.default_dispatcher) group

  -- `_dispatch_context`
  unfoldable pub dispatch_context : Notify → Exec RequestContext UpstreamResult
  dispatch_context on_result = do
    c ← get
    question ← lift (first_question c.request)
    dispatch_selected on_result
        (select e.rules e.default_upstream_group c.tags (e.dns.type_text question.rdtype))
