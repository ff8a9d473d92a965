-- ===== src/Dispatcher/Endings.antt =====
-- Strategies end if the tasks that they start do.
use python_smartdns.Prelude.{
  ℕ, zero, suc, String, Option, none, some, List, [], ◌∷◌, All, inl, inr, ◌++◌, Bool-cases,
}
use python_smartdns.Exec.{Exec, pure, ◌>>=◌, ◌>>◌}
use python_smartdns.Exec.Ensures.{
  OnlyCancelled, AnyPython, Always, Ensures, Ensures-map, Ensures-try, Ensures-bind,
  OnlyCancelled-AnyPython,
}
use python_smartdns.Pipeline.Context.{UpstreamResult, RequestContext, has_answer}
use python_smartdns.Dispatcher.Base.{pick_failure_result}
use python_smartdns.Dispatcher.Strategies.{
  Run, Race, worker, received, coordinate, run_late, race, collect, wait_all, cons_sent, settle,
  failure_message,
}

abbrev pub Settles {ℓ} : {A : Type ℓ} → Exec RequestContext A → Type 0
Settles m = Ensures Always OnlyCancelled m

module _ (run : Run) where
  abbrev pub RunSettles : String → Type 0
  RunSettles t = Settles (run t)

  worker-Settles : (t : String) → RunSettles t → Settles (worker run t)
  unfolding worker
  worker-Settles t h =
      Ensures-try Always (do res ← run t; pure (some res)) (λ exc. pure none)
        (Ensures-bind Always Always AnyPython (run t) (λ res. pure (some res))
          (Ensures-map Always OnlyCancelled AnyPython (run t) OnlyCancelled-AnyPython h)
          (λ r _. record { at = λ s. tt }))
        (λ e. record { at = λ s. tt })

  -- The tasks that a race leaves are tasks of the group.
  abbrev RestSettles : Race → Type 0
  RestSettles r = All RunSettles r.rest

  received-Settles :
      (ts : List String) (fs : List UpstreamResult) (sent : Option UpstreamResult)
      (skip : Exec RequestContext Race) (go : List UpstreamResult → Exec RequestContext Race)
      → All RunSettles ts
      → Ensures RestSettles OnlyCancelled skip
      → ((gs : List UpstreamResult) → Ensures RestSettles OnlyCancelled (go gs))
      → Ensures RestSettles OnlyCancelled (received run ts fs sent skip go)
  received-Settles ts fs none skip go h s g = s
  received-Settles ts fs (some r) skip go h s g = elim (Bool-cases (has_answer r)) [
    | inl a ↦ rw a (record { at = λ c. h })
    | inr a ↦ rw a (g (fs ++ r ∷ []))
  ]

  coordinate-Settles :
      (ts : List String) (fs : List UpstreamResult)
      → All RunSettles ts
      → Ensures RestSettles OnlyCancelled (coordinate run ts fs)
  unfolding coordinate
  coordinate-Settles [] fs h = record { at = λ c. tt }
  coordinate-Settles (t ∷ ts) fs h =
      Ensures-bind Always RestSettles OnlyCancelled (worker run t)
        (λ sent. received run ts fs sent (coordinate run ts fs) (coordinate run ts))
        (worker-Settles t h.0)
        (λ sent _.
          received-Settles ts fs sent (coordinate run ts fs) (coordinate run ts) h.1
            (coordinate-Settles ts fs h.1) (λ gs. coordinate-Settles ts gs h.1))

  run_late-Settles : (n : ℕ) (ts : List String) → All RunSettles ts → Settles (run_late run n ts)
  unfolding run_late
  run_late-Settles zero ts h = record { at = λ c. tt }
  run_late-Settles (suc n) [] h = record { at = λ c. tt }
  run_late-Settles (suc n) (t ∷ ts) h =
      Ensures-bind Always Always OnlyCancelled (worker run t) (λ _. run_late run n ts)
        (worker-Settles t h.0) (λ _ _. run_late-Settles n ts h.1)

  race_end-Settles :
      (late : ℕ) (ts : List String) (w : Option UpstreamResult) (failure : UpstreamResult)
      → All RunSettles ts
      → Settles
          (elim w [ none ↦ pure failure | some winner ↦ do run_late run late ts; pure winner ])
  race_end-Settles late ts none failure h = record { at = λ c. tt }
  race_end-Settles late ts (some winner) failure h =
      Ensures-bind Always Always OnlyCancelled (run_late run late ts) (λ _. pure winner)
        (run_late-Settles late ts h) (λ _ _. record { at = λ c. tt })

  pub race-Settles : (late : ℕ) (ts : List String) → All RunSettles ts → Settles (race run late ts)
  unfolding race
  race-Settles late ts h =
      Ensures-bind RestSettles Always OnlyCancelled (coordinate run ts [])
        (λ r. elim r.winner [
          | none ↦ pure (pick_failure_result r.failures failure_message)
          | some winner ↦ do run_late run late r.rest; pure winner
        ])
        (coordinate-Settles ts [] h)
        (λ r k.
          race_end-Settles late r.rest r.winner (pick_failure_result r.failures failure_message) k)

  collect-Settles : (ts : List String) → All RunSettles ts → Settles (collect run ts)
  unfolding collect
  collect-Settles [] h = record { at = λ c. tt }
  collect-Settles (t ∷ ts) h =
      Ensures-bind Always Always OnlyCancelled (worker run t)
        (λ sent. do rest ← collect run ts; pure (cons_sent sent rest)) (worker-Settles t h.0)
        (λ sent _.
          Ensures-bind Always Always OnlyCancelled (collect run ts)
            (λ rest. pure (cons_sent sent rest)) (collect-Settles ts h.1)
            (λ rs _. record { at = λ c. tt }))

  pub wait_all-Settles : (ts : List String) → All RunSettles ts → Settles (wait_all run ts)
  unfolding wait_all
  wait_all-Settles ts h =
      Ensures-bind Always Always OnlyCancelled (collect run ts) (λ results. pure (settle results))
        (collect-Settles ts h) (λ rs _. record { at = λ c. tt })
