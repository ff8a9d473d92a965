-- ===== src/Plugins/Finish.antt =====
-- dns_forwarder/plugin_api/base.py: the end of a request, for every plugin.
use python_smartdns.Prelude.{List, [], ◌∷◌, All, ◌≡◌, refl, ap, ◌∙◌}
use python_smartdns.Outcome.{Exn, cancelled, out_of_fuel, Outcome, done, raised}
use python_smartdns.Exec.{pure, handle, continue}
use python_smartdns.Exec.Ensures.{Post, Always, Ensures}
use python_smartdns.Pipeline.Context.{RequestContext}
use python_smartdns.Plugins.{Plugin, manager_on_finish}

-- What an `except Exception` catches.
abbrev pub IsCaught : Exn → Type 0
IsCaught cancelled = ⊥
IsCaught out_of_fuel = ⊥
IsCaught _ = Unit

-- The context after the hooks of all the plugins, one after the other.
abbrev pub all_finished : List Plugin → RequestContext → RequestContext
all_finished [] c = c
all_finished (p ∷ ps) c = all_finished ps (p.on_finish c).1

swallowed :
    (r : Outcome (Unit {0})) (c : RequestContext)
    → Post Always IsCaught r
    → handle (λ exc. pure tt) r c ≡ (done (tt {0}), c)
swallowed (done tt) c h = refl
swallowed (raised cancelled) c h = absurd h
swallowed (raised out_of_fuel) c h = absurd h
swallowed (raised e) c h = refl

-- At the end of a request every plugin's `on_finish` has run, in the order of loading, on the context
-- that the one before it left, whichever of them raised an `Exception`; none comes out.
pub manager_on_finish-eq :
    (ps : List Plugin) (c : RequestContext)
    → All (λ p. Ensures Always IsCaught p.on_finish) ps
    → manager_on_finish ps c ≡ (done tt, all_finished ps c)
unfolding manager_on_finish
manager_on_finish-eq [] c h = refl
manager_on_finish-eq (p ∷ ps) c h =
    ap (λ (x : Outcome (Unit {0}) × RequestContext). continue x.0 (λ _. manager_on_finish ps) x.1)
      (swallowed (p.on_finish c).0 (p.on_finish c).1 (h.0.at c))
    ∙ manager_on_finish-eq ps (p.on_finish c).1 h.1
