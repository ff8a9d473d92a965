-- ===== src/Rules/Selection.antt =====
-- When a rule applies, in terms of membership, and which rule a request gets.
use python_smartdns.Prelude.{String, true, List, [], ◌∷◌, ◌++◌, elem, All, Mem, ◌≡◌, ◌⊎◌, arith}
use python_smartdns.Tags.{Meets}
use python_smartdns.Config.Model.{RuleConfig, AppConfig}
use python_smartdns.Config.References.{group_names, names_group}
use python_smartdns.Config.References.Validity.{IsValid}
use python_smartdns.Rules.{RuleSelection, chosen, unmatched, select}

-- No excluded tag is there; a wanted tag is, if any is listed; and so is the type.
pub record Applies (rule : RuleConfig) (tags : List String) (qtype : String) : Type 0 where
  pub enabled : rule.enabled ≡ true
  pub not_excluded : ¬ Meets rule.match.exclude_tags tags
  pub wanted : (rule.match.match_tags ≡ []) ⊎ Meets rule.match.match_tags tags
  pub of_type : (rule.match.qtypes ≡ []) ⊎ Mem qtype rule.match.qtypes

module _ (tags : List String) (qtype : String) where
  -- No rule applies and the default group serves the request, or the rules split at the first one
  -- that applies.
  abbrev pub Selects : List RuleConfig → String → RuleSelection → Type 0
  Selects rules d s =
      (All (λ r. ¬ Applies r tags qtype) rules × (s ≡ unmatched d))
      ⊎ ((pre : List RuleConfig) × (rule : RuleConfig) × (post : List RuleConfig) × (rules
            ≡ pre ++ rule ∷ post)
          × All (λ r. ¬ Applies r tags qtype) pre
          × Applies rule tags qtype
          × (s ≡ chosen d rule))

chosen-known :
    (known : List String) (d : String) (rule : RuleConfig)
    → elem d known ≡ true
    → names_group known rule.action.upstream_group ≡ true
    → elem (chosen d rule).upstream_group known ≡ true
chosen-known known d rule h k = ground arith

select-known :
    (known : List String) (rules : List RuleConfig) (d qtype : String) (tags : List String)
    → elem d known ≡ true
    → All (λ r. names_group known r.action.upstream_group ≡ true) rules
    → elem (select rules d tags qtype).upstream_group known ≡ true
unfolding select
select-known known [] d qtype tags h k = h
select-known known (r ∷ rules) d qtype tags h k =
    ground (arith, chosen-known known d r h k.0, select-known known rules d qtype tags h k.1)

-- Under a valid configuration the selected group is always one of the configured groups, whatever
-- the request's tags and type.
pub select-group_names :
    (c : AppConfig) (tags : List String) (qtype : String)
    → IsValid c
    → elem (select c.rules c.default_upstream_group tags qtype).upstream_group (group_names c)
      ≡ true
select-group_names c tags qtype v =
    select-known (group_names c) c.rules c.default_upstream_group qtype tags v.default_known
      v.rule_refs
