-- ===== src/Bundled/SpeedTest/Hooks.antt =====
-- plugins/speedtest_plugin/plugin.py: the hooks. `measure` is the service's, which answers a result or
-- an exception for an address; the service and the object that it fills are there after `setup`.
use python_smartdns.Prelude.{
  ℕ, String, Bool, true, false, not, ◌&&◌, ◌==◌, ltb, ◌+◌, Option, none, some, List, [], ◌∷◌, elem,
  if◌then◌else◌,
}
use python_smartdns.Outcome.{Outcome, done, raised}
use python_smartdns.Exec.{Exec, pure, get, lift, modify, ◌>>=◌, ◌>>◌}
use python_smartdns.Dns.{RRset, Answer, Dnspython, noerror}
use python_smartdns.Pipeline.Context.{UpstreamResult, RequestContext}
use python_smartdns.Pipeline.Messages.{first_question, sync_answer_rrset_to_response}
use python_smartdns.Bundled.IpFilter.{is_address_type, has_any_tag}
use python_smartdns.Bundled.SpeedTest.{
  IpRttResult, SpeedTestContext, SpeedTestPluginConfig, reserve_ips, add_results, make_inf_results,
  extract_unique_ips, collect_candidate_ips, select_fallback_ips,
}
use python_smartdns.Bundled.SpeedTest.Selection.{measured_results, select_ips}

abbrev pub Measure : Type 0
Measure = String → Outcome IpRttResult

-- `gather(..., return_exceptions=True)` without the exceptions
unfoldable pub successful_results : Measure → List String → List IpRttResult
successful_results measure [] = []
successful_results measure (ip ∷ ips) = elim (measure ip) [
  | done result ↦ result ∷ successful_results measure ips
  | raised exc ↦ successful_results measure ips
]

-- `_measure_new_ips`. Where nothing is new, nothing is measured, and no result added.
unfoldable pub measure_new_ips : Measure → List String → SpeedTestContext → SpeedTestContext
measure_new_ips measure ips context =
    let (candidates, reserved) = reserve_ips ips context in
    add_results (successful_results measure candidates) reserved

abbrev pub mark_new_ips : List String → SpeedTestContext → SpeedTestContext
mark_new_ips [] context = context
mark_new_ips (ip ∷ ips) context =
    let (candidates, reserved) = reserve_ips (ip ∷ ips) context in
    add_results (make_inf_results (ip ∷ ips)) reserved

module _ (config : SpeedTestPluginConfig) (measure : Measure) where
  abbrev pub take_response_ips : UpstreamResult → Answer → SpeedTestContext → SpeedTestContext
  take_response_ips result answer context =
      if has_any_tag result.tags config.no_speedtest_tags
      then mark_new_ips (extract_unique_ips answer) context
      else measure_new_ips measure (extract_unique_ips answer) context

  abbrev pub take_upstream :
      RequestContext → UpstreamResult → Option Answer → SpeedTestContext → SpeedTestContext
  take_upstream context result none speedtest_context = speedtest_context
  take_upstream context result (some answer) speedtest_context =
      if has_any_tag context.tags config.skip_tags
      then speedtest_context
      else take_response_ips result answer speedtest_context

  -- `SpeedTestPlugin.on_upstream_response`, which changes neither the result nor the request's context
  unfoldable pub speedtest_on_upstream_response :
      RequestContext → UpstreamResult → Exec SpeedTestContext (Unit {0})
  speedtest_on_upstream_response context result = do
    question ← lift (first_question context.request)
    if is_address_type question.rdtype
        then modify (take_upstream context result result.answer)
        else pure tt

  abbrev pub same_ips : List String → List String → Bool
  same_ips [] [] = true
  same_ips [] (ip ∷ ips) = false
  same_ips (ip ∷ ips) [] = false
  same_ips (ip ∷ ips) (other ∷ others) = elem ip (other ∷ []) && same_ips ips others

  -- The request's context and the object under the plugin's key.
  pub record Serving : Type 0 where
    pub context : RequestContext
    pub speedtest : SpeedTestContext

  module _ (d : Dnspython) (from_text_list : String → ℕ → ℕ → ℕ → List String → Outcome RRset) where
    abbrev pub set_answer : Answer → Exec Serving (Unit {0})
    set_answer answer =
        modify (λ s. record s { context = record s.context { final_answer = some answer } })

    -- `max(answer.rrset.ttl, ttl)`
    abbrev pub replaced_ttl : Option RRset → ℕ
    replaced_ttl none = config.response_ttl_seconds
    replaced_ttl (some rrset) =
        if ltb rrset.ttl config.response_ttl_seconds then config.response_ttl_seconds else rrset.ttl

    abbrev pub replaced_name : String → Option RRset → String
    replaced_name canonical_name none = canonical_name
    replaced_name canonical_name (some rrset) = rrset.name

    -- `_replace_answer_ips`, of the final answer
    unfoldable pub replace_answer_ips : Answer → List String → Exec Serving (Unit {0})
    replace_answer_ips answer ips = do
      rrset ← lift (
          from_text_list (replaced_name answer.canonical_name answer.rrset)
            (replaced_ttl answer.rrset) answer.rdclass answer.rdtype ips)
      set_answer (record answer { rrset = some rrset })
      synced ← lift (sync_answer_rrset_to_response (record answer { rrset = some rrset }))
      set_answer (record synced { expiration = d.now + replaced_ttl answer.rrset })

    abbrev pub replace_if_any : Answer → List String → Exec Serving (Unit {0})
    replace_if_any answer [] = pure tt
    replace_if_any answer (ip ∷ ips) = replace_answer_ips answer (ip ∷ ips)

    -- What the measured results make of the answer
    abbrev pub apply_measured :
        RequestContext → Answer → List String → List IpRttResult → Exec Serving (Unit {0})
    apply_measured context answer candidate_ips [] =
        replace_if_any answer (select_fallback_ips config.fallback_rules context.tags answer.rdtype)
    apply_measured context answer candidate_ips (item ∷ measured) =
        let sorted_ips = select_ips config candidate_ips (item ∷ measured) in
        if same_ips sorted_ips (extract_unique_ips answer)
        then pure tt
        else replace_answer_ips answer sorted_ips

    abbrev pub collect_and_measure :
        RequestContext → Answer → SpeedTestContext → List String × SpeedTestContext
    collect_and_measure context answer speedtest =
        let (candidate_ips, marked) = collect_candidate_ips config context answer speedtest in
        (candidate_ips, measure_new_ips measure candidate_ips marked)

    unfoldable pub respond_by_times : RequestContext → Answer → Exec Serving (Unit {0})
    respond_by_times context answer = do
      s ← get
      let (candidate_ips, speedtest) = collect_and_measure context answer s.speedtest in
          (do
            modify (λ t. record t { speedtest = speedtest })
            apply_measured context answer candidate_ips
                (measured_results candidate_ips speedtest.ip_rtt_results))

    abbrev pub respond_if_address : RequestContext → Option Answer → Exec Serving (Unit {0})
    respond_if_address context none = pure tt
    respond_if_address context (some answer) =
        if is_address_type answer.rdtype && answer.response.rcode == noerror
        then respond_by_times context answer
        else pure tt

    -- `SpeedTestPlugin.on_response`
    unfoldable pub speedtest_on_response : Exec Serving (Unit {0})
    speedtest_on_response = do
      s ← get
      question ← lift (first_question s.context.request)
      if is_address_type question.rdtype && not (has_any_tag s.context.tags config.skip_tags)
          then respond_if_address s.context s.context.final_answer
          else pure tt
