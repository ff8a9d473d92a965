-- ===== src/Examples/Config.antt =====
-- Configurations, and the rules of one.
use python_smartdns.Prelude.{true, [], ◌∷◌, elem, ◌≡◌, refl, ◌↔◌}
use python_smartdns.Config.Model.{AppConfig, Result, ok, err, group_cycle}
use python_smartdns.Config.Cycles.{
  adjacency, targets, cycle_of, each, enter, leave, dfs, search_cycles,
}
use python_smartdns.Config.References.{
  group_names, unique_names, validate_unique_names, validate_required_config,
  validate_upstream_nameserver_refs, validate_group_target_refs, validate_rule_refs,
  validate_group_cycles, validate_references,
}
use python_smartdns.Config.References.GroupCycles.{IsAcyclic, validate_group_cycles-ok_iff}
use python_smartdns.Config.References.Validity.{IsValid, validate_references-ok_iff}
use python_smartdns.Rules.{matches, select}
use python_smartdns.Rules.Selection.{select-group_names}
use python_smartdns.Examples.Data.{home, ads_rule}

-- A group that leads back to itself through another.
abbrev looping : AppConfig
looping = record home {
  groups =
      record { name = "main"; upstreams = "inner" ∷ [] }
      ∷ record { name = "inner"; upstreams = "slow" ∷ "main" ∷ [] }
      ∷ [];
}

home_accepted : ◌≡◌ {A = Result (Unit {0})} (validate_references home) (ok tt)
unfolding validate_references validate_unique_names unique_names validate_required_config
    validate_upstream_nameserver_refs validate_group_target_refs validate_rule_refs
    validate_group_cycles search_cycles each dfs enter leave adjacency targets
home_accepted = refl

pub home-IsValid : IsValid home
home-IsValid = (validate_references-ok_iff home).0 home_accepted

looping_refused :
    ◌≡◌ {A = Result (Unit {0})}
      (validate_references looping)
      (err (group_cycle ("main" ∷ "inner" ∷ "main" ∷ [])))
unfolding validate_references validate_unique_names unique_names validate_required_config
    validate_upstream_nameserver_refs validate_group_target_refs validate_rule_refs
    validate_group_cycles search_cycles each dfs enter leave adjacency targets cycle_of
looping_refused = refl

validate_references-ok_iff_example :
    ◌≡◌ {A = Result (Unit {0})} (validate_references home) (ok tt) ↔ IsValid home
validate_references-ok_iff_example = validate_references-ok_iff home

validate_group_cycles-ok_iff_example :
    ◌≡◌ {A = Result (Unit {0})} (validate_group_cycles looping) (ok tt) ↔ IsAcyclic looping
validate_group_cycles-ok_iff_example = validate_group_cycles-ok_iff looping

ads_selected : (select (ads_rule ∷ []) "main" ("ads" ∷ []) "A").upstream_group ≡ "inner"
unfolding select matches
ads_selected = refl

trusted_unmatched :
    (select (ads_rule ∷ []) "main" ("trusted" ∷ "ads" ∷ []) "A").upstream_group ≡ "main"
unfolding select matches
trusted_unmatched = refl

select-group_names_example :
    elem
      (select home.rules home.default_upstream_group ("ads" ∷ []) "A").upstream_group
      (group_names home)
    ≡ true
select-group_names_example = select-group_names home ("ads" ∷ []) "A" home-IsValid
