-- ===== src/Bundled/Block/Served.antt =====
-- Which rule answers a request, and what it leaves in the context.
use python_smartdns.Prelude.{
  ℕ, true, intersects, Bool-cases, String, Option, none, some, List, [], ◌∷◌, ◌++◌, All, ◌≡◌, refl,
  ap, sym, ◌⊎◌, inl, inr,
}
use python_smartdns.Tags.{Meets, any-Meets, Meets-any}
use python_smartdns.Outcome.{Outcome, done, raised}
use python_smartdns.Exec.{lift, modify, ◌>>=◌, ◌>>◌}
use python_smartdns.Dns.{Question, RRset, Message, Answer, Dnspython}
use python_smartdns.Pipeline.Context.{RequestContext}
use python_smartdns.Pipeline.Messages.{first_question, build_answer_from_response}
use python_smartdns.Bundled.Block.Supplied.{
  Supplies, serves-Supplies, Supplies-serves, Holds, static_records-Holds,
}
use python_smartdns.Bundled.Block.{
  BlockPluginRuleConfig, serves, resolve_rule, static_records, answer_statically, apply_rule,
  apply_static_response,
}

-- A rule that has none of its excluded tags there, one of its wanted ones, and something for the type.
pub record Serves (rule : BlockPluginRuleConfig) (tags : List String) (rdtype : ℕ) : Type 0 where
  pub not_excluded : ¬ Meets rule.exclude_tags tags
  pub wanted : Meets rule.match_tags tags
  pub of_type : Supplies rule rdtype

module _ (tags : List String) (rdtype : ℕ) where
  -- No rule serves the request, or the rules split at the first that does.
  abbrev pub Chooses : List BlockPluginRuleConfig → Option BlockPluginRuleConfig → Type 0
  Chooses rules none = All (λ r. ¬ Serves r tags rdtype) rules
  Chooses rules (some rule) =
      (pre : List BlockPluginRuleConfig) × (post : List BlockPluginRuleConfig) × (rules
        ≡ pre ++ rule ∷ post)
      × All (λ r. ¬ Serves r tags rdtype) pre
      × Serves rule tags rdtype

  Chooses-skip :
      (rule : BlockPluginRuleConfig) (rules : List BlockPluginRuleConfig)
      (o : Option BlockPluginRuleConfig)
      → ¬ Serves rule tags rdtype
      → Chooses rules o
      → Chooses (rule ∷ rules) o
  Chooses-skip rule rules none n c = (n, c)
  Chooses-skip rule rules (some r) n (pre, post, split, before, s) =
      (rule ∷ pre, post, ap (◌∷◌ rule) split, (n, before), s)

  resolve_rule-Chooses :
      (rules : List BlockPluginRuleConfig) → Chooses rules (resolve_rule rules tags rdtype)
  unfolding resolve_rule
  resolve_rule-Chooses [] = tt
  resolve_rule-Chooses (rule ∷ rules) = elim (Bool-cases (intersects rule.exclude_tags tags)) [
    | inl a ↦ rw a (
        Chooses-skip rule rules (resolve_rule rules tags rdtype)
          (λ s. s.not_excluded (any-Meets rule.exclude_tags tags a)) (resolve_rule-Chooses rules))
    | inr a ↦ elim (Bool-cases (intersects rule.match_tags tags)) [
      | inr b ↦
          rw (a, b)
            (Chooses-skip rule rules (resolve_rule rules tags rdtype)
              (λ s. cc (Meets-any rule.match_tags tags s.wanted, b)) (resolve_rule-Chooses rules))
      | inl b ↦ elim (Bool-cases (serves rule rdtype)) [
        | inr e ↦
            rw (a, b, e)
              (Chooses-skip rule rules (resolve_rule rules tags rdtype)
                (λ s. cc (Supplies-serves rule rdtype s.of_type, e)) (resolve_rule-Chooses rules))
        | inl e ↦
            rw (a, b, e)
              (
                [],
                rules,
                refl,
                tt,
                record {
                  not_excluded = λ m. cc (Meets-any rule.exclude_tags tags m, a);
                  wanted = any-Meets rule.match_tags tags b;
                  of_type = serves-Supplies rule rdtype e;
                },
              )
      ]
    ]
  ]

-- The context after a static answer: the response to the request with the rule's records, the answer
-- that is built from it, from which the reply is made, and the mark that the processing stops.
pub record Answered (d : Dnspython) (q : Question) (rule : BlockPluginRuleConfig)
    (c after : RequestContext) : Type 0 where
  pub made : Message
  pub responds : d.make_response c.request ≡ done made
  pub sets : List RRset
  pub holds : Holds q rule sets
  pub final : after.final_response ≡ some (record made { answer = made.answer ++ sets })
  pub answer : Answer
  pub built :
      build_answer_from_response d c.request (record made { answer = made.answer ++ sets })
      ≡ done answer
  pub answered : after.final_answer ≡ some answer
  pub stopped : after.stop_processing ≡ true
  pub undropped : after.drop_request ≡ c.drop_request

module _ (d : Dnspython) (rules : List BlockPluginRuleConfig) (q : Question) where
  answer_statically-Answered :
      (rule : BlockPluginRuleConfig) (c after : RequestContext)
      → Supplies rule q.rdtype
      → answer_statically d rules q rule c ≡ (done (tt {0}), after)
      → Answered d q rule c after
  answer_statically-Answered rule c after supplies h = go (d.make_response c.request) refl h
    where
      end :
          (made : Message)
          → d.make_response c.request ≡ done made
          → (r : Outcome Answer)
          → build_answer_from_response d c.request
              (record made { answer = made.answer ++ static_records q rule })
            ≡ r
          → ((do
            answer ← lift r
            modify (λ s. record s { final_answer = some answer; stop_processing = true }))
              (record c {
                final_response =
                    some (record made { answer = made.answer ++ static_records q rule });
              }))
            ≡ (done (tt {0}), after)
          → Answered d q rule c after
      end made e (done answer) b k =
          let left : record c {
            final_response = some (record made { answer = made.answer ++ static_records q rule });
            final_answer = some answer;
            stop_processing = true;
          }
              ≡ after =
            cc k in
          record {
            made = made;
            responds = e;
            sets = static_records q rule;
            holds = static_records-Holds q rule supplies;
            final = ap (λ (s : RequestContext). s.final_response) (sym left);
            answer = answer;
            built = b;
            answered = ap (λ (s : RequestContext). s.final_answer) (sym left);
            stopped = ap (λ (s : RequestContext). s.stop_processing) (sym left);
            undropped = ap (λ (s : RequestContext). s.drop_request) (sym left);
          }
      end made e (raised x) b k = absurd (cc k)

      go :
          (r : Outcome Message)
          → d.make_response c.request ≡ r
          → ((do
            made ← lift r
            let response = record made { answer = made.answer ++ static_records q rule }
            modify (λ s. record s { final_response = some response })
            answer ← lift (build_answer_from_response d c.request response)
            modify (λ s. record s { final_answer = some answer; stop_processing = true }))
              c)
            ≡ (done (tt {0}), after)
          → Answered d q rule c after
      go (done made) e k =
          end made e
            (build_answer_from_response d c.request
              (record made { answer = made.answer ++ static_records q rule }))
            refl k
      go (raised x) e k = absurd (cc k)

-- Where the static answers of the plugin return, for a request with a question: if no rule serves the
-- request the context is left as it is; else the first rule in order that does gives the response, with
-- all its addresses of the type asked for, or no record for another type, after what `make_response`
-- put there, the answer is the one that is built from this response, and the processing stops.
pub apply_static_response-Answered :
    (d : Dnspython) (rules : List BlockPluginRuleConfig) (tags : List String) (q : Question)
    (c after : RequestContext)
    → first_question c.request ≡ done q
    → apply_static_response d rules tags c ≡ (done tt, after)
    → (All (λ r. ¬ Serves r tags q.rdtype) rules × (after ≡ c))
      ⊎ ((rule : BlockPluginRuleConfig) × Chooses tags q.rdtype rules (some rule)
          × Answered d q rule c after)
unfolding apply_static_response
apply_static_response-Answered d rules tags q c after asked h =
    go (resolve_rule rules tags q.rdtype) (resolve_rule-Chooses tags q.rdtype rules) (rw asked at h)
  where
    go :
        (o : Option BlockPluginRuleConfig)
        → Chooses tags q.rdtype rules o
        → apply_rule d rules q o c ≡ (done (tt {0}), after)
        → (All (λ r. ¬ Serves r tags q.rdtype) rules × (after ≡ c))
          ⊎ ((rule : BlockPluginRuleConfig) × Chooses tags q.rdtype rules (some rule)
              × Answered d q rule c after)
    go none n k = inl (n, cc k)
    go (some rule) chosen k =
        let (pre, post, split, before, serving) = chosen in
        inr (rule, chosen, answer_statically-Answered d rules q rule c after serving.of_type k)
