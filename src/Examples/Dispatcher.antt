-- ===== src/Examples/Dispatcher.antt =====
-- Runs of the dispatcher.
use python_smartdns.Prelude.{Bool, true, false, str_eq, suc, length, [], ◌∷◌, ◌++◌, ◌≡◌, refl}
use python_smartdns.Outcome.{done}
use python_smartdns.Exec.Ensures.{Post, Always, OnlyCancelled, AnyPython, Ensures}
use python_smartdns.Config.Model.{DispatchStrategyType}
use python_smartdns.Pipeline.Context.{silent}
use python_smartdns.Dispatcher.Base.{default_result, pick_failure_result}
use python_smartdns.Dispatcher.Strategies.{worker, race, collect}
use python_smartdns.Dispatcher.Registry.{resolve, dispatch_target}
use python_smartdns.Dispatcher.Failures.{first_of_list, denials, errors, pick_failure_result-eq}
use python_smartdns.Dispatcher.Racing.{race_of, race-eq}
use python_smartdns.Dispatcher.Termination.{IsOrder, Resolves}
use python_smartdns.Dispatcher.Configured.{dispatch_target-settles}
use python_smartdns.Examples.Data.{
  home, manager, in_order, context, slow_result, quick_result, failed_result, answering,
  resolver_of,
}
use python_smartdns.Examples.Config.{home-IsValid}

pub in_order-IsOrder : IsOrder in_order
in_order-IsOrder = record { of_group = λ c g ts t h. h }

pub manager-Resolves : Resolves manager
unfolding resolve
manager-Resolves name = answering-Returns (str_eq name "slow") (str_eq name "quick")
  where
    answering-Returns : (a b : Bool) → Ensures Always AnyPython (answering a b)
    answering-Returns true b = record { at = λ s. tt }
    answering-Returns false true = record { at = λ s. tt }
    answering-Returns false false = record { at = λ s. tt }

dispatch_target-settles_example :
    Post Always OnlyCancelled
      (dispatch_target manager in_order silent
        (suc (suc (length home.groups)))
        DispatchStrategyType.race
        "main"
        context).0
dispatch_target-settles_example =
    dispatch_target-settles home manager in_order silent DispatchStrategyType.race "main" context
      home-IsValid refl in_order-IsOrder manager-Resolves

pick_failure_result-eq_example :
    pick_failure_result (quick_result ∷ failed_result ∷ []) "none"
    ≡ first_of_list
        (denials (quick_result ∷ failed_result ∷ []) ++ errors (quick_result ∷ failed_result ∷ []))
        (default_result "none")
pick_failure_result-eq_example = pick_failure_result-eq (quick_result ∷ failed_result ∷ []) "none"

collected :
    collect resolver_of ("down" ∷ "slow" ∷ "quick" ∷ []) context
    ≡ (done (slow_result ∷ quick_result ∷ []), context)
unfolding collect worker
collected = refl

race-eq_example :
    (race resolver_of 1 ("down" ∷ "slow" ∷ "quick" ∷ []) context).0
    ≡ done (race_of (slow_result ∷ quick_result ∷ []))
race-eq_example =
    race-eq resolver_of 1 ("down" ∷ "slow" ∷ "quick" ∷ []) context context
      (slow_result ∷ quick_result ∷ []) collected
