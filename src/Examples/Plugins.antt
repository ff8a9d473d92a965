-- ===== src/Examples/Plugins.antt =====
-- Plugins in order, and at the end of a request.
use python_smartdns.Prelude.{List, [], ◌∷◌, map, All, ◌≡◌, refl}
use python_smartdns.Prelude.Int.{pos, negsuc}
use python_smartdns.Outcome.{done}
use python_smartdns.Exec.Ensures.{Ensures, Always}
use python_smartdns.Plugins.{
  Plugin, insert_by, ordered_plugins, manager_on_request, manager_on_response, manager_on_observe,
  manager_on_upstream_response, manager_on_finish,
}
use python_smartdns.Plugins.Order.{Follows}
use python_smartdns.Plugins.Runs.{Runs, Hears, is_over, never, named_request, managers-Runs}
use python_smartdns.Plugins.Finish.{IsCaught, all_finished, manager_on_finish-eq}
use python_smartdns.Examples.Data.{idle, faulty, context, quick_result}

abbrev several : List Plugin
several = faulty ∷ idle "late" (pos 9) ∷ idle "twin" (pos 3) ∷ idle "early" (negsuc 0) ∷ []

several_ordered :
    map (λ (p : Plugin). p.name) (ordered_plugins (λ p. p.request_order) several)
    ≡ "early" ∷ "faulty" ∷ "twin" ∷ "late" ∷ []
unfolding ordered_plugins insert_by
several_ordered = refl

managers-Runs_example :
    ((qs : List Plugin) × Follows (λ p. p.request_order) several qs
      × Runs is_over named_request qs context (manager_on_request several context))
    × ((qs : List Plugin) × Follows (λ p. p.response_order) several qs
        × Runs is_over (λ p. p.on_response) qs context (manager_on_response several context))
    × ((qs : List Plugin) × Follows (λ p. p.observe_order) several qs
        × Runs never (λ p. p.on_observe) qs context (manager_on_observe several context))
    × (qs : List Plugin) × Follows (λ p. p.upstream_response_order) several qs
    × Hears qs quick_result context (manager_on_upstream_response several quick_result context)
managers-Runs_example = managers-Runs several context quick_result

several-IsCaught : All (λ (p : Plugin). Ensures Always IsCaught p.on_finish) several
several-IsCaught = (
  record { at = λ s. tt },
  (record { at = λ s. tt }, (record { at = λ s. tt }, (record { at = λ s. tt }, tt))),
)

manager_on_finish-eq_example :
    manager_on_finish several context ≡ (done tt, all_finished several context)
manager_on_finish-eq_example = manager_on_finish-eq several context several-IsCaught
