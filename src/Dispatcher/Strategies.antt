-- ===== src/Dispatcher/Strategies.antt =====
-- dns_forwarder/dispatcher/race.py and wait_all.py. The targets are given in the order in which
-- their tasks end; `run` is `registry.dispatch_target` on one of them.
use python_smartdns.Prelude.{
  ℕ, zero, suc, String, Option, none, some, List, [], ◌∷◌, ◌++◌, map, filterb, ltb, if◌then◌else◌,
}
use python_smartdns.Exec.{Exec, pure, try_except, ◌>>=◌, ◌>>◌}
use python_smartdns.Pipeline.Context.{UpstreamResult, RequestContext, has_answer}
use python_smartdns.Dispatcher.Base.{pick_failure_result}

abbrev pub failure_message : String
failure_message = "所有上游均失败"

abbrev pub Run : Type 0
Run = String → Exec RequestContext UpstreamResult

-- `worker`: what it sends, if it sends anything.
unfoldable pub worker : Run → String → Exec RequestContext (Option UpstreamResult)
worker run target = try_except (do res ← run target; pure (some res)) (λ exc. pure none)

-- What the coordinator of a race ends with: the winner, the failures before it, and the targets
-- whose tasks had not ended.
pub record Race : Type 0 where
  pub winner : Option UpstreamResult
  pub failures : List UpstreamResult
  pub rest : List String

abbrev pub received :
    Run
    → List String
    → List UpstreamResult
    → Option UpstreamResult
    → Exec RequestContext Race
    → (List UpstreamResult → Exec RequestContext Race)
    → Exec RequestContext Race
received run ts failures none skip go = skip
received run ts failures (some res) skip go =
    if has_answer res
    then pure (record { winner = some res; failures = failures; rest = ts })
    else go (failures ++ res ∷ [])

-- `coordinator`, with the workers that it hears from
unfoldable pub coordinate : Run → List String → List UpstreamResult → Exec RequestContext Race
coordinate run [] failures = pure (record { winner = none; failures = failures; rest = [] })
coordinate run (t ∷ ts) failures = do
  sent ← worker run t
  received run ts failures sent (coordinate run ts failures) (coordinate run ts)

-- The tasks that ended before the cancellation reached them.
unfoldable pub run_late : Run → ℕ → List String → Exec RequestContext (Unit {0})
run_late run zero ts = pure tt
run_late run (suc n) [] = pure tt
run_late run (suc n) (t ∷ ts) = do _ ← worker run t; run_late run n ts

-- `RaceDispatchStrategy.dispatch`
unfoldable pub race : Run → ℕ → List String → Exec RequestContext UpstreamResult
race run late targets = do
  r ← coordinate run targets []
  elim r.winner [
    | none ↦ pure (pick_failure_result r.failures failure_message)
    | some winner ↦ do run_late run late r.rest; pure winner
  ]

abbrev pub cons_sent : Option UpstreamResult → List UpstreamResult → List UpstreamResult
cons_sent none rs = rs
cons_sent (some r) rs = r ∷ rs

-- `async for res in receive_stream: results.append(res)`
unfoldable pub collect : Run → List String → Exec RequestContext (List UpstreamResult)
collect run [] = pure []
collect run (t ∷ ts) = do sent ← worker run t; rest ← collect run ts; pure (cons_sent sent rest)

-- `min(successes, key=lambda item: item.duration_ms)`: the first of the least
unfoldable pub fastest : UpstreamResult → List UpstreamResult → UpstreamResult
fastest best [] = best
fastest best (r ∷ rs) = fastest (if ltb r.duration_ms best.duration_ms then r else best) rs

abbrev pub with_collected : List UpstreamResult → UpstreamResult → UpstreamResult
with_collected results r = record r { collected_results = map (λ x. x.entry) results }

-- What `WaitAllDispatchStrategy.dispatch` makes of the results.
unfoldable pub settle : List UpstreamResult → UpstreamResult
settle results = with_collected results (elim (filterb has_answer results) [
  | [] ↦ pick_failure_result results failure_message
  | r ∷ rs ↦ fastest r rs
])

unfoldable pub wait_all : Run → List String → Exec RequestContext UpstreamResult
wait_all run targets = do results ← collect run targets; pure (settle results)
