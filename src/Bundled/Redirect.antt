-- ===== src/Bundled/Redirect.antt =====
-- plugins/redirect_plugin: requests that are answered with the records of another domain. `resolve` is
-- `RequestContext.resolve`, which leaves the context as it is, and `normalize_domain` is that of the
-- domain sets, on texts.
pub mod Normalized
pub mod Hook
use python_smartdns.Prelude.{
  ℕ, String, Bool, true, false, ltb, Option, none, some, List, [], ◌∷◌, ◌++◌, str_eq, if◌then◌else◌,
}
use python_smartdns.Outcome.{Exn, value_error, Outcome, done, raised, ◌>>=◌}
use python_smartdns.Dns.{Question, RRset, Message, Answer, Dnspython}
use python_smartdns.Pipeline.Messages.{first_question}

-- The dict `redirects`, by its items.
abbrev pub Redirects : Type 0
Redirects = List (String × String)

abbrev pub get_redirect : String → Redirects → Option String
get_redirect source [] = none
get_redirect source ((key, target) ∷ redirects) =
    if str_eq key source then some target else get_redirect source redirects

abbrev pub put_redirect : String → String → Redirects → Redirects
put_redirect source target [] = (source, target) ∷ []
put_redirect source target ((key, old) ∷ redirects) =
    if str_eq key source
    then (key, target) ∷ redirects
    else (key, old) ∷ put_redirect source target redirects

module _ (normalize_domain : String → Outcome String) where
  -- The body of the loop of `normalize_redirects`, over the normalised names
  abbrev pub add_redirect : Outcome String → Outcome String → Redirects → Outcome Redirects
  add_redirect (raised exc) target normalized = raised exc
  add_redirect (done source) (raised exc) normalized = raised exc
  add_redirect (done source) (done target) normalized =
      if str_eq source target
      then raised value_error
      else done (put_redirect source target normalized)

  unfoldable pub normalize_redirects : List (String × String) → Redirects → Outcome Redirects
  normalize_redirects [] normalized = done normalized
  normalize_redirects ((source, target) ∷ items) normalized =
      add_redirect (normalize_domain source) (normalize_domain target) normalized
      >>= (λ next. normalize_redirects items next)

module _ (d : Dnspython) (cname : String → ℕ → String → Outcome RRset) where
  -- `_build_redirect_response`; the flags hold QR, the opcode and the code of the response. `cname` is
  -- dnspython's `from_text` for one record of type CNAME.
  unfoldable pub build_redirect_response : Message → String → Answer → RRset → Outcome Message
  build_redirect_response request target_domain redirected rrset = do
    response ← d.make_response request
    question ← first_question request
    alias ← cname question.name (if ltb rrset.ttl 1 then 1 else rrset.ttl) target_domain
    done (record response {
      response = redirected.response.response;
      opcode = redirected.response.opcode;
      rcode = redirected.response.rcode;
      answer = (response.answer ++ alias ∷ []) ++ redirected.response.answer;
      authority = response.authority ++ redirected.response.authority;
      additional = response.additional ++ redirected.response.additional;
    })
