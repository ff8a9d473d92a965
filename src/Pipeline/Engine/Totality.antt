-- ===== src/Pipeline/Engine/Totality.antt =====
-- dns_forwarder/pipeline/engine.py: that every request ends.
use python_smartdns.Prelude.{
  suc, length, String, Option-cases, some, [], ◌∷◌, ◌++◌, All, All-intro, ◌≡◌, refl, ap, ◌∙◌, sym,
  subst, inl, inr,
}
use python_smartdns.Outcome.{done}
use python_smartdns.Exec.{Exec, pure, lift, modify, ◌>>◌}
use python_smartdns.Exec.Ensures.{Post, Always, OnlyCancelled}
use python_smartdns.Dns.{Question, Message, formerr}
use python_smartdns.Config.Model.{DispatchStrategyType, UpstreamGroupConfig, AppConfig}
use python_smartdns.Config.References.Validity.{IsValid}
use python_smartdns.Rules.{RuleSelection, select}
use python_smartdns.Pipeline.Context.{UpstreamResult, RequestContext, Notify}
use python_smartdns.Pipeline.Messages.{first_question}
use python_smartdns.Pipeline.Engine.Replies.{first_question-Returns, make_error_response-done}
use python_smartdns.Pipeline.Engine.Validation.{
  IsQuery, validate_request_or_error-accepts_iff, validate_request_or_error-cases,
}
use python_smartdns.Pipeline.Engine.Settles.{run_pipeline-Settles}
use python_smartdns.Pipeline.Engine.Ends.{
  Ends, Returns, IsPython, IsDnspython, Responds, Ends-bind, Settles-Ends,
}
use python_smartdns.Dispatcher.Registry.{find_group, get_group, dispatch_group, dispatch_target}
use python_smartdns.Dispatcher.Endings.{RunSettles}
use python_smartdns.Dispatcher.Termination.{IsOrder, Resolves, dispatch_group-Settles}
use python_smartdns.Dispatcher.Configured.{dispatch_target-settles}
use python_smartdns.Pipeline.Engine.{
  Engine, strategy_name, or_strategy, dispatch_depth, ask_selected, dispatch_selected, as_reply,
  validate_request_or_error, build_context, dispatch_context, answer_valid, handle_message,
}

module _ (c : AppConfig) (e : Engine) (v : IsValid c) (same : e.resolver_manager.groups ≡ c.groups)
    (d : IsDnspython e.dns) (o : IsOrder e.schedule) (r : Resolves e.resolver_manager) where
  abbrev run_target : Notify → DispatchStrategyType → String → Exec RequestContext UpstreamResult
  run_target on_result strategy =
      dispatch_target e.resolver_manager e.schedule on_result (dispatch_depth e.resolver_manager)
        strategy

  run_target-Settles :
      (on_result : Notify) (strategy : DispatchStrategyType) (t : String)
      → RunSettles (run_target on_result strategy) t
  run_target-Settles on_result strategy t = record {
    at = λ s.
        subst
          (λ gs.
            Post Always OnlyCancelled
              (dispatch_target e.resolver_manager e.schedule on_result (suc (suc (length gs)))
                strategy t s).0)
          (sym same)
          (dispatch_target-settles c e.resolver_manager e.schedule on_result strategy t s v same o
            r);
  }

  dispatched-Ends :
      (on_result : Notify) (strategy : DispatchStrategyType) (g : UpstreamGroupConfig)
      → Ends (
          dispatch_group e.resolver_manager e.schedule on_result
            (run_target on_result strategy)
            strategy
            g)
  dispatched-Ends on_result strategy g =
      Settles-Ends
        (dispatch_group e.resolver_manager e.schedule on_result (run_target on_result strategy)
          strategy g)
        (dispatch_group-Settles e.resolver_manager e.schedule on_result
          (run_target on_result strategy) strategy g o
          (All-intro (RunSettles (run_target on_result strategy)) g.upstreams
            (λ t _. run_target-Settles on_result strategy t)))

  get_group-Returns : (name : String) → Returns (get_group e.resolver_manager name)
  unfolding get_group
  get_group-Returns name = elim (Option-cases (find_group e.resolver_manager.groups name)) [
    | inl k ↦ rw (k, get_group) tt
    | inr (g, k) ↦ rw (k, get_group) tt
  ]

  ask_selected-Ends :
      (on_result : Notify) (strategy : DispatchStrategyType) (g : UpstreamGroupConfig)
      → Ends (ask_selected e on_result strategy g)
  ask_selected-Ends on_result strategy g = record {
    at = λ s.
        (Ends-bind
            (dispatch_group e.resolver_manager e.schedule on_result (run_target on_result strategy)
              strategy g)
            (λ result. do
              modify (λ s. record s { upstream_results = s.upstream_results ++ result ∷ [] })
              pure result)
            (dispatched-Ends on_result strategy g) (λ result. record { at = λ _. tt })).at
          (record s { selected_dispatcher = some (strategy_name strategy) });
  }

  dispatch_selected-Ends :
      (on_result : Notify) (selection : RuleSelection)
      → Ends (dispatch_selected e on_result selection)
  dispatch_selected-Ends on_result selection = record {
    at = λ s.
        (Ends-bind (lift (get_group e.resolver_manager selection.upstream_group))
            (ask_selected e on_result (or_strategy selection.dispatcher e.default_dispatcher))
            (record { at = λ _. get_group-Returns selection.upstream_group })
            (ask_selected-Ends on_result
              (or_strategy selection.dispatcher e.default_dispatcher))).at
          (record s {
            selected_rule = selection.rule_name;
            selected_group = some selection.upstream_group;
          });
  }

  dispatch_context-Ends : (on_result : Notify) → Ends (dispatch_context e on_result)
  unfolding dispatch_context
  dispatch_context-Ends on_result = record {
    at = λ s.
        (Ends-bind (lift (first_question s.request))
            (λ q.
              dispatch_selected e on_result
                (select e.rules e.default_upstream_group s.tags (e.dns.type_text q.rdtype)))
            (record { at = λ _. first_question-Returns e d s.request })
            (λ q.
              dispatch_selected-Ends on_result
                (select e.rules e.default_upstream_group s.tags (e.dns.type_text q.rdtype)))).at
          s;
  }

  accepted :
      (request : Message) → IsQuery request → (q : Question) × (first_question request ≡ done q)
  unfolding first_question
  accepted request h = (h.asked, rw h.single refl)

  module _ (request : Message) (clientaddr listener_name : String) (ps : All IsPython e.plugins)
      (x : Responds e.dns request) where
    outcome :
        Post Always OnlyCancelled
          (answer_valid e request clientaddr listener_name (validate_request_or_error e request)).0
    outcome = elim (validate_request_or_error-cases e request) [
      | inl k ↦
          let (q, first) =
            accepted request ((validate_request_or_error-accepts_iff e request).0 k) in
          subst
            (λ v. Post Always OnlyCancelled (answer_valid e request clientaddr listener_name v).0)
            (sym k)
            ((run_pipeline-Settles e d ps dispatch_context-Ends request x q first).at
              (build_context request clientaddr listener_name []))
      | inr k ↦
          subst
            (λ v. Post Always OnlyCancelled (answer_valid e request clientaddr listener_name v).0)
            (sym (k ∙ ap as_reply (make_error_response-done e.dns request x formerr))) tt
    ]

-- Over a valid configuration every request comes to an end: `handle_message` returns a reply or none,
-- or is cancelled, and no exception of a plugin, of a resolver, of
-- dnspython or of a missing group comes out. The server failure of the request can be made, and the
-- hooks, the resolvers and dnspython's calls end, each with a value or with some exception.
pub handle_message-settles :
    (c : AppConfig) (e : Engine) (request : Message) (clientaddr listener_name : String)
    → IsValid c
    → e.resolver_manager.groups ≡ c.groups
    → IsOrder e.schedule
    → Resolves e.resolver_manager
    → All IsPython e.plugins
    → IsDnspython e.dns
    → Responds e.dns request
    → Post Always OnlyCancelled (handle_message e request clientaddr listener_name).0
unfolding handle_message
handle_message-settles c e request clientaddr listener_name v same o r ps d x =
    outcome c e v same d o r request clientaddr listener_name ps x
