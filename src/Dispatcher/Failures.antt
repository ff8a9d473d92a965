-- ===== src/Dispatcher/Failures.antt =====
-- Which failure a strategy reports, and which of several answers it takes.
use python_smartdns.Prelude.{
  String, not, ◌&&◌, ◌<◌, ◌≤◌, Option, none, some, List, [], ◌∷◌, ◌++◌, filterb, All, ◌≡◌, refl, ap,
  ◌∙◌, inl, inr, Bool-cases,
}
use python_smartdns.Pipeline.Context.{UpstreamResult, has_answer}
use python_smartdns.Dispatcher.Base.{
  default_result, is_nxdomain, or_first, scan_failures, or_default, pick_failure_result,
}

abbrev pub first_of_list {ℓ} : {A : Type ℓ} → List A → A → A
first_of_list [] d = d
first_of_list (x ∷ xs) d = x

-- The failures that say that the name does not exist, and the other failures.
abbrev pub denials : List UpstreamResult → List UpstreamResult
denials = filterb (λ r. not (has_answer r) && is_nxdomain r.error)

abbrev pub errors : List UpstreamResult → List UpstreamResult
errors = filterb (λ r. not (has_answer r) && not (is_nxdomain r.error))

abbrev or_head : Option UpstreamResult → List UpstreamResult → Option UpstreamResult
or_head (some r) rs = some r
or_head none [] = none
or_head none (r ∷ rs) = some r

or_first-or_head :
    (o : Option UpstreamResult) (r : UpstreamResult) (rs : List UpstreamResult)
    → or_head (or_first o r) rs ≡ or_head o (r ∷ rs)
or_first-or_head none r rs = refl
or_first-or_head (some x) r rs = refl

scan_failures-eq :
    (rs : List UpstreamResult) (e n : Option UpstreamResult)
    → scan_failures rs e n ≡ (or_head e (errors rs), or_head n (denials rs))
unfolding scan_failures
scan_failures-eq [] none none = refl
scan_failures-eq [] none (some n) = refl
scan_failures-eq [] (some e) none = refl
scan_failures-eq [] (some e) (some n) = refl
scan_failures-eq (r ∷ rs) e n = elim (Bool-cases (has_answer r)) [
  | inl a ↦ rw a (scan_failures-eq rs e n)
  | inr a ↦ elim (Bool-cases (is_nxdomain r.error)) [
    | inl x ↦ rw (a, x) (scan_failures-eq rs e (or_first n r) ∙ rw (or_first-or_head n r))
    | inr x ↦ rw (a, x) (scan_failures-eq rs (or_first e r) n ∙ rw (or_first-or_head e r))
  ]
]

or_default-heads :
    (ns es : List UpstreamResult) (d : UpstreamResult)
    → or_default (or_head none ns) (or_head none es) d ≡ first_of_list (ns ++ es) d
or_default-heads [] [] d = refl
or_default-heads [] (e ∷ es) d = refl
or_default-heads (n ∷ ns) es d = refl

-- The failure reported is the first NXDOMAIN among the results without an answer; if there is none,
-- the first of the other failures; if there is none of these either, the default result.
pub pick_failure_result-eq :
    (rs : List UpstreamResult) (message : String)
    → pick_failure_result rs message
      ≡ first_of_list (denials rs ++ errors rs) (default_result message)
unfolding pick_failure_result
pick_failure_result-eq rs message =
    ap
      (λ (p : Option UpstreamResult × Option UpstreamResult).
        or_default p.1 p.0 (default_result message))
      (scan_failures-eq rs none none)
    ∙ or_default-heads (denials rs) (errors rs) (default_result message)

-- `w` is the first of the least durations of a list.
pub record IsFastest (w : UpstreamResult) (rs : List UpstreamResult) : Type 0 where
  pub before : List UpstreamResult
  pub after : List UpstreamResult
  pub split : rs ≡ before ++ w ∷ after
  pub slower : All (λ r. w.duration_ms < r.duration_ms) before
  pub not_faster : All (λ r. w.duration_ms ≤ r.duration_ms) after

-- The answered results.
abbrev pub successes : List UpstreamResult → List UpstreamResult
successes = filterb has_answer
