-- ===== src/Config/Model.antt =====
-- dns_forwarder/config/models.py: the parts of the configuration that name one another, and the
-- exceptions that `validate_references` raises.
use python_smartdns.Prelude.{String, Bool, Option, List, ◌≡◌, refl, if◌then◌else◌}

pub data DispatchStrategyType : Type 0 where
  race wait_all : DispatchStrategyType

pub record UpstreamConfig : Type 0 where
  pub name : String
  pub nameservers : List String

pub record UpstreamGroupConfig : Type 0 where
  pub name : String
  pub upstreams : List String

pub record RuleMatchConfig : Type 0 where
  pub match_tags : List String
  pub exclude_tags : List String
  pub qtypes : List String

pub record RuleActionConfig : Type 0 where
  pub upstream_group : Option String
  pub dispatcher : Option DispatchStrategyType

pub record RuleConfig : Type 0 where
  pub name : String
  pub enabled : Bool
  pub match : RuleMatchConfig
  pub action : RuleActionConfig

pub record PluginConfig : Type 0 where
  pub name : String
  pub plugin_module : String
  pub enabled : Bool

-- The fields of `AppConfig` and of its `runtime` and `webui` that the validators read.
pub record AppConfig : Type 0 where
  pub default_upstream_group : String
  pub default_upstream_policy : DispatchStrategyType
  pub listeners : List String
  pub nameservers : List String
  pub upstreams : List UpstreamConfig
  pub groups : List UpstreamGroupConfig
  pub rules : List RuleConfig
  pub plugins : List PluginConfig
  pub webui_enabled : Bool
  pub doh_enabled : Bool

-- `ValueError`, by the message that it carries. `exhausted` is the model's own: the search for
-- cycles ran out of fuel.
pub data ConfigError : Type 0 where
  duplicate_name : String → ConfigError
  no_listener no_nameserver no_upstream no_group : ConfigError
  unknown_default_group : String → ConfigError
  name_conflict : ConfigError
  missing_nameserver missing_target missing_rule_group : String → ConfigError
  group_cycle : List String → ConfigError
  exhausted : ConfigError

pub data Result {ℓ} (A : Type ℓ) : Type ℓ where
  err : ConfigError → Result A
  ok : A → Result A

-- `if not holds: raise`
abbrev pub guard : Bool → ConfigError → Result (Unit {0})
guard holds error = if holds then ok tt else err error

infixl 5 ◌>>=◌ ◌>>◌
abbrev pub ◌>>=◌ {ℓ κ} : {A : Type ℓ} {B : Type κ} → Result A → (A → Result B) → Result B
err error >>= next = err error
ok value >>= next = next value

-- What a check that accepted has passed on.
pub >>=-eq-ok {ℓ κ} :
    {A : Type ℓ} {B : Type κ} (check : Result A) (next : A → Result B) {result : B}
    → (check >>= next) ≡ ok result
    → (value : A) × (check ≡ ok value) × (next value ≡ ok result)
>>=-eq-ok (err error) next h = absurd (cc h)
>>=-eq-ok (ok value) next h = (value, refl, h)

abbrev pub ◌>>◌ {ℓ} : {B : Type ℓ} → Result (Unit {0}) → Result B → Result B
check >> rest = check >>= λ _. rest
