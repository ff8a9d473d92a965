-- ===== src/Config/References/Validity.antt =====
-- What a configuration must be for `validate_references` to accept it, stated without the checks.
use python_smartdns.Prelude.{
  String, Bool, true, false, not, ◌&&◌, List, [], ◌∷◌, ◌++◌, map, elem, intersects, All, is_empty,
  ◌≡◌, ◌≢◌, ◌↔◌, ◌⊎◌, refl, inl, inr, arith, Bool-cases,
}
use python_smartdns.Config.Model.{AppConfig, Result, ok, ConfigError, guard, ◌>>◌}
use python_smartdns.Config.References.{
  upstream_names, group_names, names_group, validate_unique_names, validate_required_config,
  validate_references,
}
use python_smartdns.Config.References.Names.{
  >>-ok_iff, guard-ok_iff, Distinct, AllIn, unique_names-ok_iff,
  validate_upstream_nameserver_refs-ok_iff, validate_group_target_refs-ok_iff,
  validate_rule_refs-ok_iff,
}
use python_smartdns.Config.References.GroupCycles.{IsAcyclic, validate_group_cycles-ok_iff}

pub record IsValid (c : AppConfig) : Type 0 where
  pub listeners : Distinct c.listeners
  pub nameservers : Distinct c.nameservers
  pub upstreams : Distinct (upstream_names c)
  pub groups : Distinct (group_names c)
  pub rules : Distinct (map (λ r. r.name) c.rules)
  pub plugins : Distinct (map (λ p. p.name) c.plugins)
  pub serves : (c.listeners ≢ []) ⊎ ((c.webui_enabled ≡ true) ⊎ (c.doh_enabled ≡ true))
  pub has_nameserver : c.nameservers ≢ []
  pub has_upstream : c.upstreams ≢ []
  pub has_group : c.groups ≢ []
  pub default_known : elem c.default_upstream_group (group_names c) ≡ true
  pub apart : All (λ u. elem u (group_names c) ≡ false) (upstream_names c)
  pub upstream_refs : All (λ u. AllIn c.nameservers u.nameservers) c.upstreams
  pub group_refs : All (λ g. AllIn (upstream_names c ++ group_names c) g.upstreams) c.groups
  pub acyclic : IsAcyclic c
  pub rule_refs : All (λ r. names_group (group_names c) r.action.upstream_group ≡ true) c.rules

not-empty_iff {ℓ} : {A : Type ℓ} (xs : List A) → (not (is_empty xs) ≡ true) ↔ (xs ≢ [])
not-empty_iff [] = (λ h. absurd (cc), λ h. absurd (h refl))
not-empty_iff (x ∷ xs) = (λ h e. absurd (cc), λ h. refl)

apart_iff :
    (us gs : List String) → (not (intersects us gs) ≡ true) ↔ All (λ u. elem u gs ≡ false) us
apart_iff [] gs = (λ h. tt, λ h. refl)
apart_iff (u ∷ us) gs = elim (Bool-cases (elem u gs)) [
  | inl e ↦ (λ h. absurd (ground (arith, e, h)), λ h. absurd (cc (e, h.0)))
  | inr e ↦ let (to, from) = apart_iff us gs in (λ h. (e, to (rw e at h)), λ h. rw e (from h.1))
]

serves_none :
    {P : Type 0} → ((◌≡◌ {A = List String} [] [] → ⊥) ⊎ ((false ≡ true) ⊎ (false ≡ true))) → P
serves_none (inl h) = absurd (h refl)
serves_none (inr (inl h)) = absurd (cc)
serves_none (inr (inr h)) = absurd (cc)

serves_iff :
    (xs : List String) (w d : Bool)
    → (not (is_empty xs && not w && not d) ≡ true) ↔ ((xs ≢ []) ⊎ ((w ≡ true) ⊎ (d ≡ true)))
serves_iff (x ∷ xs) w d = (λ h. inl (λ e. absurd (cc)), λ h. refl)
serves_iff [] true d = (λ h. inr (inl refl), λ h. refl)
serves_iff [] false true = (λ h. inr (inr refl), λ h. refl)
serves_iff [] false false = (λ h. absurd (cc), λ h. serves_none h)

-- The conjunction of two checks is the conjunction of what they say.
both_iff :
    {P Q : Type 0} (m k : Result (Unit {0}))
    → (m ≡ ok tt) ↔ P
    → (k ≡ ok tt) ↔ Q
    → ((m >> k) ≡ ok tt) ↔ (P × Q)
both_iff m k (mp, pm) (kq, qk) =
    let (split, join) = >>-ok_iff m k in
    (λ h. let (a, b) = split h in (mp a, kq b), λ h. join (pm h.0, qk h.1))

guard_iff : {P : Type 0} (b : Bool) (e : ConfigError) → (b ≡ true) ↔ P → (guard b e ≡ ok tt) ↔ P
guard_iff b e (to, from) = let (gt, gf) = guard-ok_iff b e in (λ h. to (gt h), λ h. gf (from h))

abbrev HasUniqueNames : AppConfig → Type 0
HasUniqueNames c =
    Distinct c.listeners
    × (Distinct c.nameservers
        × (Distinct (upstream_names c)
            × (Distinct (group_names c)
                × (Distinct (map (λ r. r.name) c.rules) × Distinct (map (λ p. p.name) c.plugins)))))

validate_unique_names-ok_iff :
    (c : AppConfig) → (validate_unique_names c ≡ ok tt) ↔ HasUniqueNames c
unfolding validate_unique_names
validate_unique_names-ok_iff c = both_iff _ _ (unique_names-ok_iff _) (
    both_iff _ _ (unique_names-ok_iff _) (
      both_iff _ _ (unique_names-ok_iff _) (
        both_iff _ _ (unique_names-ok_iff _)
          (both_iff _ _ (unique_names-ok_iff _) (unique_names-ok_iff _)))))

abbrev HasRequired : AppConfig → Type 0
HasRequired c =
    ((c.listeners ≢ []) ⊎ ((c.webui_enabled ≡ true) ⊎ (c.doh_enabled ≡ true)))
    × ((c.nameservers ≢ [])
        × ((c.upstreams ≢ [])
            × ((c.groups ≢ [])
                × ((elem c.default_upstream_group (group_names c) ≡ true)
                    × All (λ u. elem u (group_names c) ≡ false) (upstream_names c)))))

validate_required_config-ok_iff :
    (c : AppConfig) → (validate_required_config c ≡ ok tt) ↔ HasRequired c
unfolding validate_required_config
validate_required_config-ok_iff c =
    both_iff _ _ (guard_iff _ _ (serves_iff c.listeners c.webui_enabled c.doh_enabled)) (
      both_iff _ _ (guard_iff _ _ (not-empty_iff c.nameservers)) (
        both_iff _ _ (guard_iff _ _ (not-empty_iff c.upstreams)) (
          both_iff _ _ (guard_iff _ _ (not-empty_iff c.groups)) (
            both_iff _ _ (guard_iff _ _ (λ h. h, λ h. h))
              (guard_iff _ _ (apart_iff (upstream_names c) (group_names c)))))))

checks_iff :
    (c : AppConfig)
    → (validate_references c ≡ ok tt) ↔ (
        HasUniqueNames c
        × (HasRequired c
            × (All (λ u. AllIn c.nameservers u.nameservers) c.upstreams
                × (All (λ g. AllIn (upstream_names c ++ group_names c) g.upstreams) c.groups
                    × (IsAcyclic c
                        × All
                            (λ r. names_group (group_names c) r.action.upstream_group ≡ true)
                            c.rules)))))
unfolding validate_references
checks_iff c = both_iff _ _ (validate_unique_names-ok_iff c) (
    both_iff _ _ (validate_required_config-ok_iff c) (
      both_iff _ _ (validate_upstream_nameserver_refs-ok_iff _ _) (
        both_iff _ _ (validate_group_target_refs-ok_iff _ _)
          (both_iff _ _ (validate_group_cycles-ok_iff c) (validate_rule_refs-ok_iff _ _)))))

-- `validate_references` accepts a configuration exactly if it is valid: no name twice in a list,
-- something to serve, at least one nameserver, upstream and group, a default group that exists, no
-- name shared by an upstream and a group, every reference to a nameserver, a target or a group
-- defined, and no group that leads back to itself.
pub validate_references-ok_iff : (c : AppConfig) → (validate_references c ≡ ok tt) ↔ IsValid c
validate_references-ok_iff c =
    let (to, from) = checks_iff c in
    (
      λ h.
          let (u, rest) = to h in
          let r = rest.0 in
          record {
            listeners = u.0;
            nameservers = u.1.0;
            upstreams = u.1.1.0;
            groups = u.1.1.1.0;
            rules = u.1.1.1.1.0;
            plugins = u.1.1.1.1.1;
            serves = r.0;
            has_nameserver = r.1.0;
            has_upstream = r.1.1.0;
            has_group = r.1.1.1.0;
            default_known = r.1.1.1.1.0;
            apart = r.1.1.1.1.1;
            upstream_refs = rest.1.0;
            group_refs = rest.1.1.0;
            acyclic = rest.1.1.1.0;
            rule_refs = rest.1.1.1.1;
          },
      λ v. from (
        (v.listeners, (v.nameservers, (v.upstreams, (v.groups, (v.rules, v.plugins))))),
        (
          (
            v.serves,
            (v.has_nameserver, (v.has_upstream, (v.has_group, (v.default_known, v.apart)))),
          ),
          (v.upstream_refs, (v.group_refs, (v.acyclic, v.rule_refs))),
        ),
      ),
    )
