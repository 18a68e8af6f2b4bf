-- ===== src/Route/Cidr.antt =====
-- The text form of routes in crates/hopenconnect_core/src/model.rs: `IpPrefix::parse`, `to_cidr`,
-- `normalize_route_cidr` and what they call.
use h_openconnect.Base.{
  ℕ, zero, suc, ◌+◌, ◌*◌, ◌/◌, ◌%◌, ◌^◌, ◌||◌, not, Option, none, some, List, [], ◌∷◌, ◌++◌, leb,
  ◌==◌, if◌then◌else◌, is_empty, Text, trim, split, split_once, contains_char, parse_unsigned,
  decimal,
}
use h_openconnect.Base.Net.{IpAddr, parse_ip, parse_ipv6, format_ipv4, format_ipv6}
use h_openconnect.Base.Optional.{◌>>=◌, ◌>>◌, require}
use h_openconnect.Route.Prefix.{Family, v4, v6, IpPrefix, prefix_mask}

-- `parse::<u8>()`
abbrev pub parse_u8 : Text → Option ℕ
parse_u8 s = parse_unsigned 255 s

unfoldable pub parse : Text → Option IpPrefix
parse value = do
  (address, prefix) ← split_once b'/' (trim value)
  ip ← parse_ip address
  bits ← parse_u8 prefix
  elim ip [
    | IpAddr.v4 a ↦ do
      require (leb bits 32)
      some (record { family = v4; network = prefix_mask 32 bits a; bits = bits })
    | IpAddr.v6 a ↦ do
      require (leb bits 128)
      some (record { family = v6; network = prefix_mask 128 bits a; bits = bits })
  ]

-- The text of a network address with its prefix length.
abbrev pub slash : Text → ℕ → Text
slash address bits = address ++ (b'/' ∷ decimal bits)

abbrev pub format_network : Family → ℕ → Text
format_network v4 n = format_ipv4 n
format_network v6 n = format_ipv6 n

unfoldable pub to_cidr : IpPrefix → Text
to_cidr p = slash (format_network p.family p.network) p.bits

-- `format!("{address}/32")` or `/128` by the family.
unfoldable pub host_route : IpAddr → Text
host_route (IpAddr.v4 a) = slash (format_ipv4 a) 32
host_route (IpAddr.v6 a) = slash (format_ipv6 a) 128

-- The first `k` pieces as octets of a growing value, and the pieces left.
octets_prefix : ℕ → ℕ → List Text → Option (ℕ × List Text)
octets_prefix zero value parts = some (value, parts)
octets_prefix (suc k) value [] = none
octets_prefix (suc k) value (p ∷ ps) = do
  octet ← parse_u8 p
  octets_prefix k (value * 256 + octet) ps

-- `leading_ones` and `trailing_zeros` of the lowest `k` bits.
unfoldable pub leading_ones : ℕ → ℕ → ℕ
leading_ones zero value = 0
leading_ones (suc k) value =
    let rest = suc (leading_ones k (value % 2 ^ k)) in if value / 2 ^ k % 2 == 1 then rest else 0

unfoldable pub trailing_zeros : ℕ → ℕ → ℕ
trailing_zeros zero value = 0
trailing_zeros (suc k) value =
    let rest = suc (trailing_zeros k (value / 2)) in if value % 2 == 0 then rest else 0

-- The check that the ones of a mask stand before its zeros.
unfoldable pub contiguous_prefix : ℕ → Option ℕ
unfolding leading_ones trailing_zeros
contiguous_prefix value =
    let leading = leading_ones 32 value in
    let trailing = trailing_zeros 32 value in
    if leading + trailing == 32 || value == 0 then some leading else none

unfoldable pub ipv4_netmask_prefix : Text → Option ℕ
unfolding octets_prefix contiguous_prefix
ipv4_netmask_prefix mask = do
  (value, rest) ← octets_prefix 4 0 (split (λ c. c == b'.') mask)
  require (is_empty rest)
  contiguous_prefix value

-- `octets[i] = part.parse()` for at most four parts; an octet with no part stays 0.
unfoldable pub host_octets : ℕ → ℕ → List Text → Option ℕ
host_octets zero value [] = some value
host_octets zero value (p ∷ ps) = none
host_octets (suc k) value [] = host_octets k (value * 256) []
host_octets (suc k) value (p ∷ ps) = do octet ← parse_u8 p; host_octets k (value * 256 + octet) ps

unfoldable pub ipv4_network_cidr : Text → ℕ → Option Text
unfolding host_octets
ipv4_network_cidr host bits = do
  require (leb bits 32)
  value ← host_octets 4 0 (split (λ c. c == b'.') host)
  some (slash (format_ipv4 (prefix_mask 32 bits value)) bits)

-- The IPv6 branch of `normalize_route_cidr`.
normalize_ipv6 : Text → Text → Option Text
normalize_ipv6 ip suffix = do
  require (not (contains_char b'.' suffix))
  bits ← parse_u8 suffix
  require (leb bits 128)
  address ← parse_ipv6 ip
  some (slash (format_ipv6 (prefix_mask 128 bits address)) bits)

-- The prefix length of an IPv4 route: a dotted mask or a number.
ipv4_bits : Text → Option ℕ
ipv4_bits suffix =
    if contains_char b'.' suffix
    then ipv4_netmask_prefix suffix
    else (do b ← parse_u8 suffix; require (leb b 32); some b)

normalize_ipv4 : Text → Text → Option Text
unfolding ipv4_bits
normalize_ipv4 ip suffix = do bits ← ipv4_bits suffix; ipv4_network_cidr ip bits

unfoldable pub normalize_route_cidr : Text → Option Text
unfolding normalize_ipv6 normalize_ipv4
normalize_route_cidr raw =
    let route = trim raw in
    if is_empty route then none else elim (split_once b'/' route) [
      | none ↦ (do address ← parse_ip route; some (host_route address))
      | some (before, after) ↦
          (let ip = trim before in
            let suffix = trim after in
            if is_empty ip
            then none
            else if contains_char b':' ip
            then normalize_ipv6 ip suffix
            else normalize_ipv4 ip suffix)
    ]
