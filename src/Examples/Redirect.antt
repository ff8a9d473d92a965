-- ===== src/Examples/Redirect.antt =====
-- A configuration with one redirect given twice.
use python_smartdns.Prelude.{String, List, [], ◌∷◌, ◌≡◌, refl}
use python_smartdns.Outcome.{value_error, done, raised}
use python_smartdns.Bundled.Redirect.{normalize_redirects}
use python_smartdns.Bundled.Redirect.Normalized.{Judged, Proper, normalize_redirects-Judged}

abbrev wanted : List (String × String)
wanted = ("a.example", "b.example") ∷ ("c.example", "b.example") ∷ ("a.example", "d.example") ∷ []

last_holds :
    normalize_redirects done wanted []
    ≡ done (("a.example", "d.example") ∷ ("c.example", "b.example") ∷ [])
unfolding normalize_redirects
last_holds = refl

to_itself : normalize_redirects done (("a.example", "a.example") ∷ []) [] ≡ raised value_error
unfolding normalize_redirects
to_itself = refl

normalize_redirects-Judged_example :
    Judged (Proper done wanted) (normalize_redirects done wanted [])
normalize_redirects-Judged_example = normalize_redirects-Judged done wanted
