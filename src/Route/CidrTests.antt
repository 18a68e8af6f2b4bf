-- ===== src/Route/CidrTests.antt =====
-- Runs of the route parser on the inputs of the source's tests.
use h_openconnect.Base.{
  ◌≡◌, refl, some, none, codes, trim, split, split_once, contains_char, parse_unsigned, decimal,
}
use h_openconnect.Base.Net.{parse_ip, parse_ipv6, format_ipv4, format_ipv6}
use h_openconnect.Route.Prefix.{prefix_mask}
use h_openconnect.Route.Cidr.{
  normalize_route_cidr, ipv4_netmask_prefix, ipv4_network_cidr, host_route,
}

dotted_mask :
    normalize_route_cidr (codes "11.36.23.173/255.255.224.0") ≡ some (codes "11.36.0.0/19")
unfolding normalize_route_cidr ipv4_network_cidr ipv4_netmask_prefix host_route prefix_mask trim
    split split_once contains_char parse_unsigned decimal parse_ip parse_ipv6 format_ipv4
    format_ipv6
dotted_mask = refl

bare_v6 : normalize_route_cidr (codes " fd00::1 ") ≡ some (codes "fd00::1/128")
unfolding normalize_route_cidr ipv4_network_cidr ipv4_netmask_prefix host_route prefix_mask trim
    split split_once contains_char parse_unsigned decimal parse_ip parse_ipv6 format_ipv4
    format_ipv6
bare_v6 = refl

split_mask : normalize_route_cidr (codes "10.0.0.0/255.0.255.0") ≡ none
unfolding normalize_route_cidr ipv4_network_cidr ipv4_netmask_prefix host_route prefix_mask trim
    split split_once contains_char parse_unsigned decimal parse_ip parse_ipv6 format_ipv4
    format_ipv6
split_mask = refl
