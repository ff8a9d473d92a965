-- ===== src/Bundled/Redirect/Normalized.antt =====
-- plugins/redirect_plugin/models.py: which redirects the configuration accepts, and what it holds then.
use python_smartdns.Prelude.{
  String, str_eq, eq_iff, false, ◌||◌, Bool-cases, List, [], ◌∷◌, elem, All, ◌≡◌, refl, sym, ap,
  ◌∙◌, inl, inr, arith,
}
use python_smartdns.Outcome.{Outcome, done, raised, ◌>>=◌}
use python_smartdns.Config.References.Names.{Distinct}
use python_smartdns.Plugins.Registrations.{keys}
use python_smartdns.Bundled.Redirect.{Redirects, put_redirect, add_redirect, normalize_redirects}

abbrev pub DiffersAs : Outcome String → Outcome String → Type 0
DiffersAs (done source) (done target) = str_eq source target ≡ false
DiffersAs (done source) (raised exc) = ⊥
DiffersAs (raised exc) target = ⊥

-- Both names of each item are domains, and not the same one.
abbrev pub Proper : (String → Outcome String) → List (String × String) → Type 0
Proper normalize items = All (λ item. DiffersAs (normalize item.0) (normalize item.1)) items

-- No key stands twice, and no domain goes to itself.
abbrev pub IsNormalized : Redirects → Type 0
IsNormalized redirects =
    Distinct (keys redirects) × All (λ item. str_eq item.0 item.1 ≡ false) redirects

-- What is accepted, with what it is made to, is as it should be; what is refused, is not.
abbrev pub Judged : Type 0 → Outcome Redirects → Type 0
Judged P (done redirects) = P × IsNormalized redirects
Judged P (raised exc) = ¬ P

elem-put :
    (x k v : String) (rs : Redirects)
    → elem x (keys (put_redirect k v rs)) ≡ (elem x (keys rs) || str_eq k x)
elem-put x k v [] = ground arith
elem-put x k v ((key, old) ∷ rs) = elim (Bool-cases (str_eq key k)) [
  | inl e ↦
      let same : str_eq key x ≡ str_eq k x = ap (λ z. str_eq z x) ((eq_iff key k).0 e) in
      ground (arith, e, same)
  | inr e ↦ ground (arith, e, elem-put x k v rs)
]

put_redirect-IsNormalized :
    (k v : String) (rs : Redirects)
    → str_eq k v ≡ false
    → IsNormalized rs
    → IsNormalized (put_redirect k v rs)
put_redirect-IsNormalized k v [] h n = ((refl, tt), (h, tt))
put_redirect-IsNormalized k v ((key, old) ∷ rs) h ((new, distinct), (differs, rest)) =
    elim (Bool-cases (str_eq key k)) [
      | inl e ↦
          let same : str_eq key v ≡ str_eq k v = ap (λ z. str_eq z v) ((eq_iff key k).0 e) in
          rw e ((new, distinct), (same ∙ h, rest))
      | inr e ↦
          let (d, r) = put_redirect-IsNormalized k v rs h (distinct, rest) in
          let apart : str_eq k key ≡ false = swapped k key e in
          rw e ((elem-put key k v rs ∙ ground (arith, new, apart), d), (differs, r))
    ]
  where
    swapped : (a b : String) → str_eq b a ≡ false → str_eq a b ≡ false
    swapped a b g = elim (Bool-cases (str_eq a b)) [
      | inl f ↦ absurd (cc (g, (eq_iff b a).1 (sym ((eq_iff a b).0 f))))
      | inr f ↦ f
    ]

Judged-and : {D : Type 0} (P : Type 0) (r : Outcome Redirects) → D → Judged P r → Judged (D × P) r
Judged-and P (done redirects) d (p, n) = ((d, p), n)
Judged-and P (raised exc) d no_p = λ both. no_p both.1

normalize_from-Judged :
    (normalize : String → Outcome String) (items : List (String × String)) (acc : Redirects)
    → IsNormalized acc
    → Judged (Proper normalize items) (normalize_redirects normalize items acc)
unfolding normalize_redirects
normalize_from-Judged normalize [] acc h = (tt, h)
normalize_from-Judged normalize ((source, target) ∷ items) acc h =
    step (normalize source) (normalize target)
      (λ next n. normalize_from-Judged normalize items next n)
  where
    step :
        (a b : Outcome String)
        → ((next : Redirects)
            → IsNormalized next
            → Judged (Proper normalize items) (normalize_redirects normalize items next))
        → Judged
            (DiffersAs a b × Proper normalize items)
            (add_redirect normalize a b acc >>= (λ next. normalize_redirects normalize items next))
    step (raised exc) b ih = λ both. both.0
    step (done x) (raised exc) ih = λ both. both.0
    step (done x) (done y) ih = elim (Bool-cases (str_eq x y)) [
      | inl e ↦ rw e (λ both. cc both.0)
      | inr e ↦ rw e (
          Judged-and (Proper normalize items)
            (normalize_redirects normalize items (put_redirect x y acc)) refl
            (ih (put_redirect x y acc) (put_redirect-IsNormalized x y acc e h)))
    ]

-- The redirects of a configuration are accepted exactly if both names of each item are domains that
-- differ after they are normalised; then no name stands twice among the keys, and none goes to itself.
pub normalize_redirects-Judged :
    (normalize : String → Outcome String) (items : List (String × String))
    → Judged (Proper normalize items) (normalize_redirects normalize items [])
normalize_redirects-Judged normalize items = normalize_from-Judged normalize items [] (tt, tt)
