-- ===== src/Config/References.antt =====
-- dns_forwarder/config/models.py, `AppConfig.validate_references` and the checks that it makes.
pub mod Names
pub mod GroupCycles
pub mod Validity
use python_smartdns.Prelude.{
  String, Bool, true, false, not, ◌&&◌, ◌||◌, Option, none, some, List, [], ◌∷◌, ◌++◌, map, elem,
  add, intersects, filterb, is_empty, if◌then◌else◌,
}
use python_smartdns.Config.Model.{
  UpstreamConfig, UpstreamGroupConfig, RuleConfig, AppConfig, Result, ok, err, guard, ◌>>=◌, ◌>>◌,
  duplicate_name, no_listener, no_nameserver, no_upstream, no_group, unknown_default_group,
  name_conflict, missing_nameserver, missing_target, missing_rule_group,
}
use python_smartdns.Config.Cycles.{adjacency, search_cycles, SearchState}

-- The loop of `_unique_names` over the names of the items.
unfoldable pub unique_names : List String → List String → Result (Unit {0})
unique_names seen [] = ok tt
unique_names seen (x ∷ xs) = do
  guard (not (elem x seen)) (duplicate_name x)
  unique_names (add x seen) xs

abbrev pub upstream_names : AppConfig → List String
upstream_names c = map (λ u. u.name) c.upstreams

abbrev pub group_names : AppConfig → List String
group_names c = map (λ g. g.name) c.groups

unfoldable pub validate_unique_names : AppConfig → Result (Unit {0})
validate_unique_names c = do
  unique_names [] c.listeners
  unique_names [] c.nameservers
  unique_names [] (upstream_names c)
  unique_names [] (group_names c)
  unique_names [] (map (λ r. r.name) c.rules)
  unique_names [] (map (λ p. p.name) c.plugins)

unfoldable pub validate_required_config : AppConfig → Result (Unit {0})
validate_required_config c = do
  guard (not (is_empty c.listeners && not c.webui_enabled && not c.doh_enabled)) no_listener
  guard (not (is_empty c.nameservers)) no_nameserver
  guard (not (is_empty c.upstreams)) no_upstream
  guard (not (is_empty c.groups)) no_group
  guard (elem c.default_upstream_group (group_names c))
      (unknown_default_group c.default_upstream_group)
  guard (not (intersects (upstream_names c) (group_names c))) name_conflict

-- `set(names) - known`
abbrev pub missing : List String → List String → List String
missing names known = filterb (λ n. not (elem n known)) names

unfoldable pub validate_upstream_nameserver_refs :
    List String → List UpstreamConfig → Result (Unit {0})
validate_upstream_nameserver_refs known [] = ok tt
validate_upstream_nameserver_refs known (u ∷ us) = do
  guard (is_empty (missing u.nameservers known)) (missing_nameserver u.name)
  validate_upstream_nameserver_refs known us

unfoldable pub validate_group_target_refs :
    List String → List UpstreamGroupConfig → Result (Unit {0})
validate_group_target_refs known [] = ok tt
validate_group_target_refs known (g ∷ gs) = do
  guard (is_empty (missing g.upstreams known)) (missing_target g.name)
  validate_group_target_refs known gs

abbrev pub names_group : List String → Option String → Bool
names_group known none = true
names_group known (some g) = elem g known

unfoldable pub validate_rule_refs : List String → List RuleConfig → Result (Unit {0})
validate_rule_refs known [] = ok tt
validate_rule_refs known (r ∷ rs) = do
  guard (names_group known r.action.upstream_group) (missing_rule_group r.name)
  validate_rule_refs known rs

unfoldable pub validate_group_cycles : AppConfig → Result (Unit {0})
validate_group_cycles c = do _ ← search_cycles (adjacency (group_names c) c.groups); ok tt

unfoldable pub validate_references : AppConfig → Result (Unit {0})
validate_references c = do
  validate_unique_names c
  validate_required_config c
  validate_upstream_nameserver_refs c.nameservers c.upstreams
  validate_group_target_refs (upstream_names c ++ group_names c) c.groups
  validate_group_cycles c
  validate_rule_refs (group_names c) c.rules
