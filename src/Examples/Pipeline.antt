-- ===== src/Examples/Pipeline.antt =====
-- Requests that run through the pipeline: answered, refused, and failing in a plugin.
use python_smartdns.Prelude.{
  ℕ, String, Bool, true, false, none, some, List, [], ◌∷◌, ◌++◌, ◌≡◌, refl, ◌↔◌, if◌then◌else◌,
}
use python_smartdns.Outcome.{form_error, done, raised}
use python_smartdns.Exec.Ensures.{Post, Always, OnlyCancelled, AnyPython}
use python_smartdns.Dns.{Message, RRset, Answer, address, noerror, servfail}
use python_smartdns.Pipeline.Context.{RequestContext}
use python_smartdns.Pipeline.Messages.{
  make_error_response, clone_response_for_request, first_question, build_answer_from_response,
  adopt_first, target_index, set, place, sync_answer_rrset_to_response,
}
use python_smartdns.Pipeline.Messages.Sync.{
  of_type, others, drop_last, option_list, sync_answer_rrset_to_response-places,
}
use python_smartdns.Plugins.{
  insert_by, ordered_plugins, request_loop, manager_on_request, manager_on_finish,
}
use python_smartdns.Pipeline.Engine.{
  validate_request_or_error, run_request_phase, rescue, process, finish_context, finally_finish,
  run_pipeline, finalize_context, build_context, handle_message,
}
use python_smartdns.Pipeline.Engine.Ends.{IsPython, IsDnspython, Responds}
use python_smartdns.Pipeline.Engine.Identity.{handle_message-id}
use python_smartdns.Pipeline.Engine.Validation.{
  IsQuery, validate_request_or_error-accepts_iff, format_error, handle_message-rejects,
}
use python_smartdns.Pipeline.Engine.Final.{IsFinal, finalize_context-IsFinal}
use python_smartdns.Pipeline.Engine.Totality.{handle_message-settles}
use python_smartdns.Examples.Data.{
  home, query, two_questions, reply, answer_to, read_wire, small_dns, faulty, engine_of, context,
}
use python_smartdns.Examples.Config.{home-IsValid}
use python_smartdns.Examples.Dispatcher.{in_order-IsOrder, manager-Resolves}

small_dns-IsDnspython : IsDnspython small_dns
small_dns-IsDnspython = record {
  make_response = λ m. made m m.response;
  to_wire = λ m. tt;
  from_wire = read;
  make_answer = λ name rdtype rdclass m. tt;
}
  where
    made :
        (m : Message) (b : Bool)
        → Post Always AnyPython
            (if b then raised form_error else done (record m { response = true }))
    made m true = tt
    made m false = tt

    read : (w : List ℕ) → Post Always AnyPython (read_wire w)
    read [] = tt
    read (i ∷ []) = tt
    read (i ∷ r ∷ []) = tt
    read (i ∷ r ∷ x ∷ w) = tt

query-Responds : Responds small_dns query
query-Responds = record {
  response = reply 7 noerror;
  made = refl;
  wire = 7 ∷ servfail ∷ [];
  rendered = refl;
  copy = reply 7 servfail;
  read = refl;
  answer = λ q. answer_to (reply 7 servfail);
  wrapped = λ q. refl;
}

faulty-IsPython : IsPython faulty
faulty-IsPython = record {
  on_request = record { at = λ s. tt };
  on_response = record { at = λ s. tt };
  on_observe = record { at = λ s. tt };
  on_finish = record { at = λ s. tt };
}

handle_message-settles_example :
    Post Always OnlyCancelled (handle_message (engine_of (faulty ∷ [])) query "10.0.0.1" "udp").0
handle_message-settles_example =
    handle_message-settles home (engine_of (faulty ∷ [])) query "10.0.0.1" "udp" home-IsValid refl
      in_order-IsOrder manager-Resolves (faulty-IsPython, tt) small_dns-IsDnspython query-Responds

-- The plugin's exception becomes a server failure.
faulty_answered :
    (handle_message (engine_of (faulty ∷ [])) query "10.0.0.1" "udp").0
    ≡ done (some (reply 7 servfail))
unfolding handle_message validate_request_or_error run_pipeline process run_request_phase
    manager_on_request ordered_plugins insert_by request_loop rescue finally_finish finish_context
    manager_on_finish make_error_response build_answer_from_response first_question
    clone_response_for_request
faulty_answered = refl

handle_message-id_example : (reply 7 servfail).id ≡ query.id
handle_message-id_example =
    handle_message-id (engine_of (faulty ∷ [])) query "10.0.0.1" "udp" (reply 7 servfail)
      faulty_answered

validate_request_or_error-accepts_iff_example :
    validate_request_or_error (engine_of []) query ≡ done none ↔ IsQuery query
validate_request_or_error-accepts_iff_example =
    validate_request_or_error-accepts_iff (engine_of []) query

two_questions-not-IsQuery : IsQuery two_questions → ⊥
two_questions-not-IsQuery q = cc q.single

handle_message-rejects_example :
    handle_message (engine_of []) two_questions "10.0.0.1" "udp"
    ≡ (format_error two_questions (small_dns.make_response two_questions), none)
handle_message-rejects_example =
    handle_message-rejects (engine_of []) two_questions "10.0.0.1" "udp" two_questions-not-IsQuery

-- A context to which a plugin gave a response of its own.
abbrev answered : RequestContext
answered = record context { final_response = some (reply 9 noerror) }

finalized :
    finalize_context (engine_of []) answered
    ≡ (done tt, record answered { final_answer = some (answer_to (reply 7 noerror)) })
unfolding finalize_context build_answer_from_response first_question clone_response_for_request
    adopt_first build_context
finalized = refl

finalize_context-IsFinal_example :
    IsFinal (record answered { final_answer = some (answer_to (reply 7 noerror)) })
finalize_context-IsFinal_example =
    finalize_context-IsFinal (engine_of []) answered
      (record answered { final_answer = some (answer_to (reply 7 noerror)) }) finalized

abbrev rrset_of : ℕ → String → RRset
rrset_of rdtype text = record {
  name = "example.org.";
  rdtype = rdtype;
  rdclass = 1;
  ttl = 60;
  records = address text ∷ [];
}

-- An alias before the addresses, which a plugin has replaced.
abbrev replaced : Answer
replaced =
    record (answer_to
      (record (reply 7 noerror) { answer = rrset_of 5 "alias" ∷ rrset_of 1 "192.0.2.1" ∷ [] })) {
        rrset = some (rrset_of 1 "192.0.2.9");
      }

abbrev replaced_synced : Answer
replaced_synced = record replaced {
  response = record replaced.response { answer = rrset_of 5 "alias" ∷ rrset_of 1 "192.0.2.9" ∷ [] };
}

replaced_run : sync_answer_rrset_to_response replaced ≡ done replaced_synced
unfolding sync_answer_rrset_to_response place target_index set
replaced_run = refl

sync_answer_rrset_to_response-places_example :
    (of_type 1 1 replaced_synced.response.answer
      ≡ drop_last (of_type 1 1 replaced.response.answer) ++ option_list replaced.rrset)
    × ((others 1 1 replaced_synced.response.answer ≡ others 1 1 replaced.response.answer)
        × (replaced ≡ record replaced_synced {
          response = record replaced_synced.response { answer = replaced.response.answer };
        }))
sync_answer_rrset_to_response-places_example =
    sync_answer_rrset_to_response-places replaced replaced_synced replaced_run
