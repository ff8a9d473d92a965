-- ===== src/Resolver.antt =====
-- dns_forwarder/resolver/upstream.py: one upstream, asked through dnspython's resolver.
pub mod Checked
use python_smartdns.Prelude.{
  ℕ, String, Bool, true, false, not, ◌==◌, str_eq, Option, none, some, List, [], if◌then◌else◌,
}
use python_smartdns.Outcome.{
  Exn, cancelled, out_of_fuel, value_error, Outcome, done, raised, ◌>>=◌, ◌>>◌,
}
use python_smartdns.Exec
use python_smartdns.Exec.{Exec, pure, raise, lift, get}
use python_smartdns.Dns.{Question, Answer, class_in}
use python_smartdns.Pipeline.Context.{UpstreamResult, RequestContext}
use python_smartdns.Pipeline.Messages.{first_question}

-- `UpstreamResolver`: its name, dnspython's `resolver.resolve` on a question, and the time that it takes.
pub record UpstreamResolver : Type 0 where
  pub name : String
  pub ask : Question → Outcome Answer
  pub duration_ms : Question → ℕ

-- `_validate_answer`. Names are compared as dnspython compares them, without regard to case: they
-- stand here in lower case.
unfoldable pub validate_answer : Answer → Question → Outcome (Unit {0})
validate_answer answer question =
    if not (answer.rdclass == class_in)
    then raised value_error
    else if not (str_eq answer.qname question.name)
    then raised value_error
    else if not (answer.rdtype == question.rdtype)
    then raised value_error
    else done tt

-- The result that every branch of `resolve` makes.
abbrev pub result_of :
    UpstreamResolver → Question → List String → Option Answer → Option Exn → UpstreamResult
result_of u question tags answer error = record {
  entry = record {
    upstream_name = u.name;
    duration_ms = u.duration_ms question;
    answer = answer;
    error = error;
    tags = tags;
  };
  collected_results = [];
}

-- The `except` clauses: that of NXDOMAIN and that of `Exception` make the same result.
unfoldable pub outcome_of :
    UpstreamResolver → Question → Outcome Answer → Exec RequestContext UpstreamResult
outcome_of u question (done answer) c = (done (result_of u question c.tags (some answer) none), c)
outcome_of u question (raised cancelled) c = (raised cancelled, c)
outcome_of u question (raised out_of_fuel) c = (raised out_of_fuel, c)
outcome_of u question (raised exc) c = (done (result_of u question c.tags none (some exc)), c)

-- The body of the `try` block.
unfoldable pub asked_of : UpstreamResolver → Question → Outcome Answer
asked_of u question = do answer ← u.ask question; validate_answer answer question; done answer

unfoldable pub resolve_upstream : UpstreamResolver → Exec RequestContext UpstreamResult
resolve_upstream u = Exec.◌>>=◌ get (λ c.
    Exec.◌>>=◌ (lift (first_question c.request))
      (λ question. outcome_of u question (asked_of u question)))
