-- ===== src/Config/References/Names.antt =====
-- What the loops of the checks establish, one check at a time.
use python_smartdns.Prelude.{
  String, Bool, true, false, List, [], ◌∷◌, elem, All, All-intro, sym, ◌∙◌, is_empty, ◌≡◌, ◌↔◌,
  refl, inl, inr, arith, eq_iff, Bool-cases,
}
use python_smartdns.Config.Model.{
  UpstreamConfig, UpstreamGroupConfig, RuleConfig, Result, ok, err, ConfigError, missing_nameserver,
  missing_target, missing_rule_group, guard, ◌>>◌,
}
use python_smartdns.Config.References.{
  unique_names, missing, validate_upstream_nameserver_refs, validate_group_target_refs,
  validate_rule_refs, names_group,
}

pub >>-ok_iff : (m k : Result (Unit {0})) → ((m >> k) ≡ ok tt) ↔ ((m ≡ ok tt) × (k ≡ ok tt))
>>-ok_iff (ok tt) k = (λ h. (refl, h), λ h. h.1)
>>-ok_iff (err e) k = (λ h. absurd (cc), λ h. absurd (cc (h.0)))

pub guard-ok_iff : (b : Bool) (e : ConfigError) → (guard b e ≡ ok tt) ↔ (b ≡ true)
guard-ok_iff true e = (λ h. refl, λ h. refl)
guard-ok_iff false e = (λ h. absurd (cc), λ h. absurd (cc))

-- No name twice.
abbrev pub Distinct : List String → Type 0
Distinct [] = Unit
Distinct (x ∷ xs) = (elem x xs ≡ false) × Distinct xs

abbrev Avoids : List String → List String → Type 0
Avoids seen = All (λ x. elem x seen ≡ false)

Avoids-cons :
    (x : String) (seen xs : List String)
    → elem x seen ≡ false
    → Avoids (x ∷ seen) xs ↔ (Avoids seen xs × (elem x xs ≡ false))
Avoids-cons x seen [] h = (λ a. (tt, refl), λ a. tt)
Avoids-cons x seen (y ∷ ys) h =
    let (to, from) = Avoids-cons x seen ys h in
    (
      λ a.
          let (b, e) = to a.1 in
          ((ground (arith, a.0), b), ground (arith, a.0, e, h, eq_iff x y, eq_iff y x)),
      λ a. (ground (arith, a.0.0, a.1, eq_iff x y, eq_iff y x), from (a.0.1, ground (arith, a.1))),
    )

unique_names_iff_avoiding :
    (seen xs : List String) → (unique_names seen xs ≡ ok tt) ↔ (Avoids seen xs × Distinct xs)
unfolding unique_names
unique_names_iff_avoiding seen [] = (λ h. (tt, tt), λ h. refl)
unique_names_iff_avoiding seen (x ∷ xs) = elim (Bool-cases (elem x seen)) [
  | inl e ↦ (λ h. absurd (ground (arith, e, h)), λ h. absurd (cc (e, h.0.0)))
  | inr e ↦
      let (to, from) = unique_names_iff_avoiding (x ∷ seen) xs in
      let (apart, join) = Avoids-cons x seen xs e in
      (
        λ h. let (a, d) = to (rw e at h) in let (b, n) = apart a in ((e, b), (n, d)),
        λ h. rw e (from (join (h.0.1, h.1.0), h.1.1)),
      )
]

pub unique_names-ok_iff : (xs : List String) → (unique_names [] xs ≡ ok tt) ↔ Distinct xs
unique_names-ok_iff xs =
    let (to, from) = unique_names_iff_avoiding [] xs in
    (λ h. (to h).1, λ h. from (All-intro (λ x. elem x [] ≡ false) xs (λ t e. refl), h))

-- Every name is known.
abbrev pub AllIn : List String → List String → Type 0
AllIn known = All (λ n. elem n known ≡ true)

missing_iff :
    (known names : List String) → (is_empty (missing names known) ≡ true) ↔ AllIn known names
missing_iff known [] = (λ h. tt, λ h. refl)
missing_iff known (n ∷ ns) = elim (Bool-cases (elem n known)) [
  | inl e ↦
      let (to, from) = missing_iff known ns in (λ h. (e, to (rw e at h)), λ h. rw e (from h.1))
  | inr e ↦ (λ h. absurd (ground (arith, e, h)), λ h. absurd (cc (e, h.0)))
]

-- A check that goes through a list holds exactly if its test holds at every item.
module _ {A : Type 0} (run : List A → Result (Unit {0})) (test : A → Bool)
    (e : A → ConfigError) where
  pub loop-ok_iff :
      (P : A → Type 0)
      → (run [] ≡ ok tt)
      → ((x : A) (xs : List A) → run (x ∷ xs) ≡ (guard (test x) (e x) >> run xs))
      → ((x : A) → (test x ≡ true) ↔ P x)
      → (xs : List A) → (run xs ≡ ok tt) ↔ All P xs
  loop-ok_iff P nil cons test_iff [] = (λ h. tt, λ h. nil)
  loop-ok_iff P nil cons test_iff (x ∷ xs) =
      let (split, join) = >>-ok_iff (guard (test x) (e x)) (run xs) in
      let (gt, gf) = guard-ok_iff (test x) (e x) in
      let (to, from) = loop-ok_iff P nil cons test_iff xs in
      (
        λ h. let (g, r) = split (sym (cons x xs) ∙ h) in ((test_iff x).0 (gt g), to r),
        λ h. cons x xs ∙ join (gf ((test_iff x).1 h.0), from h.1),
      )

pub validate_upstream_nameserver_refs-ok_iff :
    (known : List String) (us : List UpstreamConfig)
    → (validate_upstream_nameserver_refs known us ≡ ok tt) ↔ All (λ u. AllIn known u.nameservers) us
unfolding validate_upstream_nameserver_refs
validate_upstream_nameserver_refs-ok_iff known =
    loop-ok_iff (validate_upstream_nameserver_refs known)
      (λ u. is_empty (missing u.nameservers known)) (λ u. missing_nameserver u.name)
      (λ u. AllIn known u.nameservers) refl (λ x xs. refl) (λ u. missing_iff known u.nameservers)

pub validate_group_target_refs-ok_iff :
    (known : List String) (gs : List UpstreamGroupConfig)
    → (validate_group_target_refs known gs ≡ ok tt) ↔ All (λ g. AllIn known g.upstreams) gs
unfolding validate_group_target_refs
validate_group_target_refs-ok_iff known =
    loop-ok_iff (validate_group_target_refs known) (λ g. is_empty (missing g.upstreams known))
      (λ g. missing_target g.name) (λ g. AllIn known g.upstreams) refl (λ x xs. refl)
      (λ g. missing_iff known g.upstreams)

pub validate_rule_refs-ok_iff :
    (known : List String) (rs : List RuleConfig)
    → (validate_rule_refs known rs ≡ ok tt)
      ↔ All (λ r. names_group known r.action.upstream_group ≡ true) rs
unfolding validate_rule_refs
validate_rule_refs-ok_iff known =
    loop-ok_iff (validate_rule_refs known) (λ r. names_group known r.action.upstream_group)
      (λ r. missing_rule_group r.name) (λ r. names_group known r.action.upstream_group ≡ true) refl
      (λ x xs. refl) (λ r. (λ h. h, λ h. h))
