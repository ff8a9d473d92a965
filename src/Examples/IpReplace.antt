-- ===== src/Examples/IpReplace.antt =====
-- Two addresses that are moved into one network, and one of IPv6 that becomes one of IPv4.
use python_smartdns.Prelude.{ℕ, true, false, List, [], ◌∷◌, ◌≡◌, refl}
use python_smartdns.Outcome.{done}
use python_smartdns.Bundled.IpReplace.{
  IpAddress, IpNetwork, map_ip_to_network, expand_address, expand_all, expand_addresses,
}

abbrev v4 : ℕ → IpAddress
v4 n = record { is_v6 = false; value = n }

-- 10.0.0.0/8
abbrev ten : IpNetwork
ten = record { is_v6 = false; network_address = 167772160; prefixlen = 8 }

-- 192.0.2.1 and 198.0.2.1
abbrev originals : List IpAddress
originals = v4 3221225985 ∷ v4 3321889281 ∷ []

-- 10.0.2.1
expanded : expand_addresses originals (ten ∷ []) ≡ done (v4 167772673 ∷ [])
unfolding expand_addresses expand_all expand_address map_ip_to_network
expanded = refl

-- ::5 in ::/96
low_v6 :
    map_ip_to_network
      (record { is_v6 = true; value = 5 })
      (record { is_v6 = true; network_address = 0; prefixlen = 96 })
    ≡ done (v4 5)
unfolding map_ip_to_network
low_v6 = refl
