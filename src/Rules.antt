-- ===== src/Rules.antt =====
-- dns_forwarder/rules/engine.py: which group and which strategy serve a request.
pub mod Selection
use python_smartdns.Prelude.{
  String, Bool, true, false, not, ◌&&◌, Option, none, some, List, [], ◌∷◌, elem, any, is_empty,
  str_eq, if◌then◌else◌,
}
use python_smartdns.Config.Model.{DispatchStrategyType, RuleConfig}

pub record RuleSelection : Type 0 where
  pub upstream_group : String
  pub dispatcher : Option DispatchStrategyType
  pub rule_name : Option String

-- `a or b` on an optional text: the empty text counts as absent.
abbrev pub or_else : Option String → String → String
or_else none d = d
or_else (some s) d = if str_eq s "" then d else s

-- `RuleEngine._matches`
unfoldable pub matches : RuleConfig → List String → String → Bool
matches rule tags qtype =
    if not (is_empty rule.match.exclude_tags) && any (λ tag. elem tag tags) rule.match.exclude_tags
    then false
    else if not (is_empty rule.match.match_tags)
        && not (any (λ tag. elem tag tags) rule.match.match_tags)
    then false
    else if not (is_empty rule.match.qtypes) && not (elem qtype rule.match.qtypes)
    then false
    else true

-- What the loop of `select` returns at a rule that it stops at.
abbrev pub chosen : String → RuleConfig → RuleSelection
chosen default_group rule = record {
  upstream_group = or_else rule.action.upstream_group default_group;
  dispatcher = rule.action.dispatcher;
  rule_name = some rule.name;
}

abbrev pub unmatched : String → RuleSelection
unmatched default_group = record {
  upstream_group = default_group;
  dispatcher = none;
  rule_name = none;
}

-- `RuleEngine.select`, over the tags of the context and the text of the question's type
unfoldable pub select : List RuleConfig → String → List String → String → RuleSelection
select [] default_group tags qtype = unmatched default_group
select (rule ∷ rules) default_group tags qtype =
    let rest = select rules default_group tags qtype in
    if not rule.enabled
    then rest
    else if not (matches rule tags qtype)
    then rest
    else chosen default_group rule
