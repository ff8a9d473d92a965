-- ===== src/Dispatcher/Racing.antt =====
-- A race takes the first answer to come in, and asks no more than waiting for all would.
use mathlib.Core.List.{append-nil, append_assoc}
use python_smartdns.Prelude.{
  ℕ, zero, suc, String, Option, none, some, List, [], ◌∷◌, ◌++◌, ◌≡◌, refl, ap, ◌∙◌, ◌⊎◌, inl, inr,
  Bool-cases,
}
use python_smartdns.Outcome.{Outcome, done}
use python_smartdns.Exec.{Exec, pure, ◌>>=◌, ◌>>◌, >>=-eq-done}
use python_smartdns.Pipeline.Context.{UpstreamResult, RequestContext, has_answer}
use python_smartdns.Dispatcher.Base.{pick_failure_result}
use python_smartdns.Dispatcher.Failures.{successes, first_of_list}
use python_smartdns.Dispatcher.Strategies.{
  Run, Race, worker, coordinate, run_late, race, cons_sent, collect, failure_message,
}

-- The result of a race to which the results come in this order.
abbrev pub race_of : List UpstreamResult → UpstreamResult
race_of rs = first_of_list (successes rs) (pick_failure_result rs failure_message)

module _ (run : Run) where
  -- Every task of the list ends, with these results.
  abbrev Collects : List String → RequestContext → List UpstreamResult → RequestContext → Type 0
  Collects ts c rs c' = collect run ts c ≡ (done rs, c')

  record Cons (t : String) (ts : List String) (c : RequestContext) (rs : List UpstreamResult)
      (c' : RequestContext) : Type 0 where
    sent : Option UpstreamResult
    mid : RequestContext
    rest : List UpstreamResult
    works : worker run t c ≡ (done sent, mid)
    collects : Collects ts mid rest c'
    whole : rs ≡ cons_sent sent rest

  Collects-Cons :
      (t : String) (ts : List String) (c c' : RequestContext) (rs : List UpstreamResult)
      → Collects (t ∷ ts) c rs c'
      → Cons t ts c rs c'
  unfolding collect
  Collects-Cons t ts c c' rs h =
      let (sent, mid, first, more) =
        >>=-eq-done (worker run t) (λ s. do rest ← collect run ts; pure (cons_sent s rest)) c c' rs
          h in
      let (rest, last, second, e) =
        >>=-eq-done (collect run ts) (λ r. pure (cons_sent sent r)) mid c' rs more in
      let same : last ≡ c' = ap (λ (p : Outcome (List UpstreamResult) × RequestContext). p.1) e in
      record {
        sent = sent;
        mid = mid;
        rest = rest;
        works = first;
        collects = second ∙ ap (λ (x : RequestContext). (done rest, x)) same;
        whole = cc (ap (λ (p : Outcome (List UpstreamResult) × RequestContext). p.0) e);
      }

  run_late-done :
      (n : ℕ) (ts : List String) (c c' : RequestContext) (rs : List UpstreamResult)
      → Collects ts c rs c'
      → (c'' : RequestContext) × (run_late run n ts c ≡ (done tt, c''))
  unfolding run_late
  run_late-done zero ts c c' rs h = (c, refl)
  run_late-done (suc n) [] c c' rs h = (c, refl)
  run_late-done (suc n) (t ∷ ts) c c' rs h =
      let k = Collects-Cons t ts c c' rs h in
      let (c'', e) = run_late-done n ts k.mid c' k.rest k.collects in (c'', rw k.works e)

  -- What the race does after its coordinator.
  abbrev race_end : ℕ → Race → Exec RequestContext UpstreamResult
  race_end late r = elim r.winner [
    | none ↦ pure (pick_failure_result r.failures failure_message)
    | some winner ↦ do run_late run late r.rest; pure winner
  ]

  -- How the coordinator ends, given what all the tasks would send.
  record Ends (ts : List String) (fs : List UpstreamResult) (c : RequestContext)
      (rs : List UpstreamResult) : Type 0 where
    result : Race
    state : RequestContext
    ends : coordinate run ts fs c ≡ (done result, state)
    outcome :
        ((result.winner ≡ none) × ((result.failures ≡ fs ++ rs) × (successes rs ≡ [])))
        ⊎ ((w : UpstreamResult) × (others post : List UpstreamResult) × (last : RequestContext)
            × (result.winner ≡ some w)
            × (successes rs ≡ w ∷ others)
            × Collects result.rest state post last)

  Collects-nil : (c c' : RequestContext) (rs : List UpstreamResult) → Collects [] c rs c' → rs ≡ []
  unfolding collect
  Collects-nil c c' rs h = cc (ap (λ (p : Outcome (List UpstreamResult) × RequestContext). p.0) h)

  -- One more result for the coordinator, given how it goes on after it.
  after_worker :
      (t : String) (ts : List String) (fs : List UpstreamResult) (c c' mid : RequestContext)
      (rest : List UpstreamResult) (sent : Option UpstreamResult)
      → worker run t c ≡ (done sent, mid)
      → Collects ts mid rest c'
      → ((gs : List UpstreamResult) → Ends ts gs mid rest)
      → Ends (t ∷ ts) fs c (cons_sent sent rest)
  unfolding coordinate
  after_worker t ts fs c c' mid rest none works h go =
      let e = go fs in
      record { result = e.result; state = e.state; ends = rw works e.ends; outcome = e.outcome }
  after_worker t ts fs c c' mid rest (some r) works h go = elim (Bool-cases (has_answer r)) [
    | inl a ↦ record {
      result = record { winner = some r; failures = fs; rest = ts };
      state = mid;
      ends = rw (works, a);
      outcome = inr (r, successes rest, rest, c', refl, rw a, h);
    }
    | inr a ↦
        let e = go (fs ++ r ∷ []) in
        record {
          result = e.result;
          state = e.state;
          ends = rw (works, a) e.ends;
          outcome = elim e.outcome [
            | inl (w, (f, n)) ↦ inl (w, (f ∙ append_assoc fs (r ∷ []) rest, rw a n))
            | inr (w, os, post, last, won, first, more) ↦
                inr (w, os, post, last, won, rw a first, more)
          ];
        }
  ]

  coordinate-Ends :
      (ts : List String) (fs rs : List UpstreamResult) (c c' : RequestContext)
      → Collects ts c rs c'
      → Ends ts fs c rs
  unfolding coordinate
  coordinate-Ends [] fs rs c c' h =
      let nil : rs ≡ [] = Collects-nil c c' rs h in
      record {
        result = record { winner = none; failures = fs; rest = [] };
        state = c;
        ends = refl;
        outcome = inl (refl, (rw (nil, append-nil), rw nil));
      }
  coordinate-Ends (t ∷ ts) fs rs c c' h =
      let k = Collects-Cons t ts c c' rs h in
      rw k.whole (
        after_worker t ts fs c c' k.mid k.rest k.sent k.works k.collects
          (λ gs. coordinate-Ends ts gs k.rest k.mid c' k.collects))

  decide :
      (late : ℕ) (r : Race) (state : RequestContext) (rs : List UpstreamResult)
      → ((r.winner ≡ none) × ((r.failures ≡ rs) × (successes rs ≡ [])))
        ⊎ ((w : UpstreamResult) × (others post : List UpstreamResult) × (last : RequestContext)
            × (r.winner ≡ some w)
            × (successes rs ≡ w ∷ others)
            × Collects r.rest state post last)
      → (race_end late r state).0 ≡ done (race_of rs)
  decide late r state rs (inl (w, (f, n))) = rw (w, n, f)
  decide late r state rs (inr (w, os, post, last, won, first, more)) =
      let (c'', e) = run_late-done late r.rest state last post more in rw (won, first, e)

  -- Where every task of the group would end, a race returns the first answer that comes in, and else the failure
  -- that `pick_failure_result` chooses.
  pub race-eq :
      (late : ℕ) (ts : List String) (c c' : RequestContext) (rs : List UpstreamResult)
      → collect run ts c ≡ (done rs, c')
      → (race run late ts c).0 ≡ done (race_of rs)
  unfolding race
  race-eq late ts c c' rs h =
      let k = coordinate-Ends ts [] rs c c' h in
      rw k.ends (decide late k.result k.state rs k.outcome)
