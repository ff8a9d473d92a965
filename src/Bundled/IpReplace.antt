-- ===== src/Bundled/IpReplace.antt =====
-- plugins/ip_replace_plugin/service.py: addresses that are moved into other networks by the tags of a
-- result. An address stands for its text: `compressed` gives each address a text of its own.
use python_smartdns.Prelude.{
  ℕ, Bool, true, false, not, ◌&&◌, ◌||◌, ◌==◌, ltb, String, Option, none, some, List, [], ◌∷◌, ◌++◌,
  intersects, is_empty, if◌then◌else◌,
}
use Prim.Native.Nat.{◌-◌, ◌^◌, bit_and, bit_or}
use python_smartdns.Outcome.{value_error, Outcome, done, raised, ◌>>=◌}

-- `IPv4Address` and `IPv6Address`
pub record IpAddress : Type 0 where
  pub is_v6 : Bool
  pub value : ℕ

pub record IpNetwork : Type 0 where
  pub is_v6 : Bool
  pub network_address : ℕ
  pub prefixlen : ℕ

pub record CompiledIpReplaceRule : Type 0 where
  pub name : String
  pub match_tags : List String
  pub exclude_tags : List String
  pub ipv4_targets : List IpNetwork
  pub ipv6_targets : List IpNetwork

-- `ip_address` on an integer: the version goes by the size.
abbrev pub ip_address : ℕ → Outcome IpAddress
ip_address n =
    if ltb n (2 ^ 32)
    then done (record { is_v6 = false; value = n })
    else if ltb n (2 ^ 128)
    then done (record { is_v6 = true; value = n })
    else raised value_error

abbrev pub max_prefixlen : Bool → ℕ
max_prefixlen true = 128
max_prefixlen false = 32

-- `_map_ip_to_network`. Where the prefix is longer than the address, both differences here are zero,
-- and so is the mask.
unfoldable pub map_ip_to_network : IpAddress → IpNetwork → Outcome IpAddress
map_ip_to_network original_ip target =
    let host_bits = max_prefixlen original_ip.is_v6 - target.prefixlen in
    let host_mask = if ltb 0 host_bits then 2 ^ host_bits - 1 else 0 in
    ip_address (bit_or target.network_address (bit_and original_ip.value host_mask))

abbrev pub same_bool : Bool → Bool → Bool
same_bool true b = b
same_bool false b = not b

abbrev pub same_address : IpAddress → IpAddress → Bool
same_address a b = same_bool a.is_v6 b.is_v6 && a.value == b.value

abbrev pub seen_in : IpAddress → List IpAddress → Bool
seen_in a [] = false
seen_in a (b ∷ bs) = same_address b a || seen_in a bs

pub record Expansion : Type 0 where
  pub expanded : List IpAddress
  pub seen : List IpAddress

-- The body of the inner loop, on the address that it makes.
abbrev pub add_replaced : IpAddress → Expansion → Expansion
add_replaced replaced s =
    if seen_in replaced s.seen
    then s
    else record { expanded = s.expanded ++ replaced ∷ []; seen = replaced ∷ s.seen }

-- The inner loop, over the targets
unfoldable pub expand_address : IpAddress → List IpNetwork → Expansion → Outcome Expansion
expand_address original_ip [] s = done s
expand_address original_ip (target ∷ targets) s = do
  replaced ← map_ip_to_network original_ip target
  expand_address original_ip targets (add_replaced replaced s)

unfoldable pub expand_all : List IpAddress → List IpNetwork → Expansion → Outcome Expansion
expand_all [] targets s = done s
expand_all (original_ip ∷ rest) targets s = do
  after ← expand_address original_ip targets s
  expand_all rest targets after

abbrev pub none_yet : Expansion
none_yet = record { expanded = []; seen = [] }

-- `_expand_addresses`
unfoldable pub expand_addresses : List IpAddress → List IpNetwork → Outcome (List IpAddress)
expand_addresses original_addresses targets = do
  s ← expand_all original_addresses targets none_yet
  done s.expanded

-- `_match_rule`
unfoldable pub match_rule :
    List CompiledIpReplaceRule → List String → Bool → Option CompiledIpReplaceRule
match_rule [] tags is_v6 = none
match_rule (rule ∷ rules) tags is_v6 =
    let later = match_rule rules tags is_v6 in
    if not (intersects rule.match_tags tags)
    then later
    else if intersects rule.exclude_tags tags
    then later
    else if is_empty (if is_v6 then rule.ipv6_targets else rule.ipv4_targets)
    then later
    else some rule
