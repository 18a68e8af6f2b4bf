-- ===== src/Model/FromNetwork/Addresses.antt =====
-- The addresses and the MTU of `VpnOptions::from_network` in
-- crates/hopenconnect_core/src/model.rs.
use Prim.Native.Nat.{max}
use h_openconnect.Base.{
  ℕ, ◌==◌, ltb, leb, Bool, false, ◌||◌, not, Option, none, some, List, [], ◌∷◌, ◌++◌, if◌then◌else◌,
  is_empty, Text, trim, split, contains_char, parse_unsigned,
}
use h_openconnect.Base.Int.{ℤ, pos, negsuc}
use h_openconnect.Model.Network.{NetworkSnapshot}
use h_openconnect.Model.Options.{any_ipv6}
use h_openconnect.Route.Cidr.{slash, ipv4_netmask_prefix}

-- `map(str::trim).filter(|s| !s.is_empty())` on an option.
abbrev pub trimmed : Option Text → Option Text
trimmed none = none
trimmed (some s) = let t = trim s in if is_empty t then none else some t

abbrev pub before_slash : Option Text → Option Text
before_slash none = none
before_slash (some s) = elim (split (λ c. c == b'/') s) [ [] ↦ none | first ∷ _ ↦ some first ]

-- The address of the snapshot without a prefix length.
unfoldable pub network_host : NetworkSnapshot → Option Text
network_host n = trimmed (before_slash n.address)

abbrev pub mask_prefix : Option Text → Option ℕ
mask_prefix none = none
mask_prefix (some m) = ipv4_netmask_prefix m

abbrev pub or_24 : Option ℕ → ℕ
or_24 none = 24
or_24 (some p) = p

abbrev pub clamp_prefix : ℕ → ℕ
clamp_prefix prefix = let p = if prefix == 0 then 24 else prefix in if leb 32 p then 31 else p

-- The prefix length of the IPv4 address of the tunnel.
unfoldable pub address_prefix : Option Text → ℕ
address_prefix netmask = clamp_prefix (or_24 (mask_prefix netmask))

unfoldable pub host_addresses : NetworkSnapshot → List Text
host_addresses n = elim (network_host n) [
  | none ↦ []
  | some host ↦
      if contains_char b':' host
      then slash host 128 ∷ []
      else slash host (address_prefix n.netmask) ∷ []
]

unfoldable pub v6_with_mask : Text → Option Text → Text
v6_with_mask v6 none = if contains_char b'/' v6 then v6 else slash v6 64
v6_with_mask v6 (some mask6) =
    if contains_char b'/' mask6
    then trim mask6
    else elim (parse_unsigned 255 (trim mask6)) [ some bits ↦ slash v6 bits | none ↦ slash v6 64 ]

unfoldable pub v6_addresses : NetworkSnapshot → List Text
v6_addresses n = elim (trimmed n.address_v6) [
  | none ↦ []
  | some v6 ↦ v6_with_mask v6 n.netmask_v6 ∷ []
]

unfoldable pub tunnel_addresses : NetworkSnapshot → List Text
tunnel_addresses n = host_addresses n ++ v6_addresses n

abbrev pub is_set : Option Text → Bool
is_set none = false
is_set (some s) = not (is_empty (trim s))

unfoldable pub has_ipv6 : NetworkSnapshot → Bool
has_ipv6 n = is_set n.address_v6 || any_ipv6 (tunnel_addresses n)

-- The headend's MTU if it is positive, else the profile's, else 1400; the floor is last.
abbrev pub mtu_choice : ℤ → ℕ → ℕ
mtu_choice (pos m) profile = if ltb 0 m then m else if ltb 0 profile then profile else 1400
mtu_choice (negsuc m) profile = if ltb 0 profile then profile else 1400

unfoldable pub tunnel_mtu : ℤ → ℕ → Bool → ℕ
tunnel_mtu network profile ipv6 = max (mtu_choice network profile) (if ipv6 then 1280 else 576)
