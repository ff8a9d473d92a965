-- ===== src/Pipeline/Context.antt =====
-- dns_forwarder/pipeline/context.py: the objects that a request carries through the pipeline.
use python_smartdns.Prelude.{
  ℕ, String, Bool, true, false, Option, none, some, List, is_empty, update, if◌then◌else◌,
}
use python_smartdns.Outcome.{Exn}
use python_smartdns.Dns.{Message, Answer}

-- The fields of `UpstreamResult` that are read from the members of `collected_results`. Durations
-- are only compared, and stand as natural numbers.
pub record Entry : Type 0 where
  pub upstream_name : String
  pub duration_ms : ℕ
  pub answer : Option Answer
  pub error : Option Exn
  pub tags : List String

pub record UpstreamResult : Type 0 where
  pub entry : Entry
  pub open entry use *
  pub collected_results : List Entry

abbrev pub has_answer : UpstreamResult → Bool
has_answer r = elim r.answer [ none ↦ false | some a ↦ true ]

-- `inherit_request_tags`. The copy that it makes where the two sets are one object has the same
-- members.
unfoldable pub inherit_request_tags : UpstreamResult → List String → UpstreamResult
inherit_request_tags result request_tags =
    if is_empty request_tags
    then result
    else record result { entry = record result.entry { tags = update result.tags request_tags } }

-- `RequestContext`. Of `metadata`, the two keys that the pipeline itself writes. `task_error` is what
-- a callback of the request's task group has raised, which the group raises when it closes.
pub record RequestContext : Type 0 where
  pub request : Message
  pub clientaddr : String
  pub listener_name : String
  pub request_id : ℕ
  pub selected_rule : Option String
  pub selected_group : Option String
  pub selected_dispatcher : Option String
  pub final_answer : Option Answer
  pub final_response : Option Message
  pub drop_request : Bool
  pub stop_processing : Bool
  pub plugin_order : List String
  pub pipeline_error : Option Exn
  pub task_error : Option Exn
  pub tags : List String
  pub upstream_results : List UpstreamResult
  pub nested_resolve_chain : List (String × String)
  pub nested_resolve_max_depth : ℕ

-- `on_result`: it starts a task on the result, which never raises into the dispatcher. The task is
-- run to its end where it is started; it may change the result and the context.
abbrev pub Notify : Type 0
Notify = UpstreamResult → RequestContext → UpstreamResult × RequestContext

-- `on_result=None`
abbrev pub silent : Notify
silent result context = (result, context)
