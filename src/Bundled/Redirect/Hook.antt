-- ===== src/Bundled/Redirect/Hook.antt =====
-- plugins/redirect_plugin/plugin.py: `on_request`. Both `except` clauses leave the request as it is.
use python_smartdns.Prelude.{ℕ, String, Option, none, some}
use python_smartdns.Outcome.{Outcome}
use python_smartdns.Exec.{Exec, pure, get, lift, modify, try_except, ◌>>=◌}
use python_smartdns.Dns.{RRset, Message, Answer, Dnspython}
use python_smartdns.Pipeline.Context.{RequestContext}
use python_smartdns.Pipeline.Messages.{first_question, build_answer_from_response}
use python_smartdns.Bundled.Redirect.{Redirects, get_redirect, build_redirect_response}

module _ (d : Dnspython) (cname : String → ℕ → String → Outcome RRset)
    (normalize_domain : String → Outcome String)
    (resolve : RequestContext → String → String → Outcome Answer) (redirects : Redirects) where
  abbrev pub try_resolve : String → String → Exec RequestContext (Option Answer)
  try_resolve target_domain qtype =
      try_except (do c ← get; answer ← lift (resolve c target_domain qtype); pure (some answer))
        (λ exc. pure none)

  abbrev pub apply_redirect : String → Answer → Option RRset → Exec RequestContext (Unit {0})
  apply_redirect target_domain redirected none = pure tt
  apply_redirect target_domain redirected (some rrset) = do
    c ← get
    response ← lift (build_redirect_response d cname c.request target_domain redirected rrset)
    answer ← lift (build_answer_from_response d c.request response)
    modify (λ t. record t { final_answer = some answer })

  abbrev pub apply_resolved : String → Option Answer → Exec RequestContext (Unit {0})
  apply_resolved target_domain none = pure tt
  apply_resolved target_domain (some redirected) =
      apply_redirect target_domain redirected redirected.rrset

  abbrev pub redirect_to : String → Option String → Exec RequestContext (Unit {0})
  redirect_to qtype none = pure tt
  redirect_to qtype (some target_domain) = do
    redirected ← try_resolve target_domain qtype
    apply_resolved target_domain redirected

  abbrev pub redirect_request : Exec RequestContext (Unit {0})
  redirect_request = do
    c ← get
    question ← lift (first_question c.request)
    source_domain ← lift (normalize_domain question.name)
    redirect_to (d.type_text question.rdtype) (get_redirect source_domain redirects)

  abbrev pub unless_answered : Option Answer → Option Message → Exec RequestContext (Unit {0})
  unless_answered none none = redirect_request
  unless_answered (some answer) response = pure tt
  unless_answered none (some response) = pure tt

  -- `RedirectPlugin.on_request`
  unfoldable pub redirect_on_request : Exec RequestContext (Unit {0})
  redirect_on_request = do c ← get; unless_answered c.final_answer c.final_response
