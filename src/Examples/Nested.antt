-- ===== src/Examples/Nested.antt =====
-- Queries inside queries.
use python_smartdns.Prelude.{◌≤◌, some, [], ◌∷◌, ◌≡◌, refl}
use python_smartdns.Outcome.{done, raised, recursion_error}
use python_smartdns.Dns.{noerror}
use python_smartdns.Pipeline.Context.{UpstreamResult, RequestContext, silent, inherit_request_tags}
use python_smartdns.Pipeline.Messages.{first_question}
use python_smartdns.Rules.{matches, select}
use python_smartdns.Dispatcher.Strategies.{worker, collect, fastest, settle, wait_all}
use python_smartdns.Dispatcher.Registry.{
  find_group, get_group, resolve, dispatch_group, target_step, dispatch_target,
}
use python_smartdns.Pipeline.Requests.{max_nested_resolve_depth, build_context, dispatch_context}
use python_smartdns.Pipeline.Nested.{
  nested_context, answer_from_nested_result, dispatch_nested, resolve_nested,
}
use python_smartdns.Pipeline.Nested.Depth.{
  Passes, IsUnrepeated, Nests, outermost, within, Nests-bounded, resolve_nested-done,
}
use python_smartdns.Examples.Data.{query, reply, answer_to, engine_of, context}

abbrev inner_context : RequestContext
inner_context = build_context query "10.0.0.1" "udp" (("example.net", "A") ∷ [])

inner_made : nested_context (engine_of []) context "example.net" "A" ≡ done inner_context
unfolding nested_context build_context
inner_made = refl

one_deep : Nests (engine_of []) 1 (build_context query "10.0.0.1" "udp" []) inner_context
one_deep =
    within context inner_context "example.net" "A" (outermost context)
      (record { chain = refl; max_depth = refl }) inner_made

Nests-bounded_example :
    (1 ≤ max_nested_resolve_depth) × IsUnrepeated inner_context.nested_resolve_chain
Nests-bounded_example = Nests-bounded (engine_of []) 1 query "10.0.0.1" "udp" inner_context one_deep

repeated_refused :
    nested_context (engine_of []) inner_context "example.net" "A" ≡ raised recursion_error
unfolding nested_context build_context
repeated_refused = refl

nested_answered :
    resolve_nested (engine_of []) context "example.net" "A" ≡ done (answer_to (reply 9 noerror))
unfolding resolve_nested nested_context build_context dispatch_nested dispatch_context
    first_question select matches get_group find_group dispatch_group wait_all collect worker
    dispatch_target target_step resolve settle fastest answer_from_nested_result
    inherit_request_tags
nested_answered = refl

resolve_nested-done_example :
    (inner : RequestContext) × (after : RequestContext) × (result : UpstreamResult) × Passes
      (engine_of [])
      context
      "example.net"
      "A"
      inner
    × (dispatch_context (engine_of []) silent inner ≡ (done result, after))
    × (result.answer ≡ some (answer_to (reply 9 noerror)))
resolve_nested-done_example =
    resolve_nested-done (engine_of []) context "example.net" "A" (answer_to (reply 9 noerror))
      nested_answered
