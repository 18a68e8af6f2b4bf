-- ===== src/Model/FromNetwork.antt =====
-- `VpnOptions::from_network` of crates/hopenconnect_core/src/model.rs; the blocks of its body are the
-- child modules.
pub mod Addresses
pub mod Domains
pub mod Choice
use Prim.Native.Nat.{max}
use h_openconnect.Base.{
  ℕ, ◌==◌, ltb, leb, Bool, true, false, ◌||◌, ◌&&◌, not, Option, none, some, List, [], ◌∷◌, ◌++◌,
  map, if◌then◌else◌, is_empty, any, filter_map, Text, codes, trim, split, contains_char, has_text,
  dedup, words_by, decimal, parse_unsigned, eq_ignore_ascii_case,
}
use h_openconnect.Base.Int.{ℤ, pos, negsuc}
use h_openconnect.Model.Kinds.{
  SoftwareToken, SplitTunnelMode, auto, on_vpn_dns, on_uplink_dns, AuthMethod, saml, as_openconnect,
}
use h_openconnect.Model.Profile.{
  ConnectionProfile, server_url, split_package_list, split_server_list,
}
use h_openconnect.Model.Validate.{route_separator}
use h_openconnect.Model.Network.{NetworkSnapshot}
use h_openconnect.Model.Options.{
  VpnOptions, default_routes, any_ipv6, push_dns_host_routes, normalize_routes,
}
use h_openconnect.Route.Cidr.{slash, ipv4_netmask_prefix, normalize_route_cidr}
use h_openconnect.Model.FromNetwork.Addresses.{tunnel_addresses, tunnel_mtu, has_ipv6}
use h_openconnect.Model.FromNetwork.Domains.{search_domain_list}
use h_openconnect.Model.FromNetwork.Choice.{Routing, routing}

abbrev is_uplink_dns : SplitTunnelMode → Bool
is_uplink_dns on_uplink_dns = true
is_uplink_dns _ = false

abbrev is_saml : AuthMethod → Bool
is_saml saml = true
is_saml _ = false

abbrev pub rfc1918_excludes : List Text
rfc1918_excludes =
    codes "10.0.0.0/8"
    ∷ codes "172.16.0.0/12"
    ∷ codes "192.168.0.0/16"
    ∷ codes "169.254.0.0/16"
    ∷ []

-- Append what the list does not have yet.
unfoldable pub push_missing : List Text → List Text → List Text
push_missing [] excluded = excluded
push_missing (r ∷ rs) excluded =
    push_missing rs (if has_text r excluded then excluded else excluded ++ (r ∷ []))

-- The struct literal.
unfoldable pub initial_options : NetworkSnapshot → ConnectionProfile → VpnOptions
initial_options n p = record {
  addresses = tunnel_addresses n;
  routes = (routing n p).routes;
  excluded_routes = filter_map normalize_route_cidr n.split_excludes;
  dns_addresses = (routing n p).dns;
  search_domains =
      if is_uplink_dns p.split_tunnel_mode && not p.force_global then [] else search_domain_list n;
  mtu = tunnel_mtu n.mtu p.mtu (has_ipv6 n);
  allow_bypass = p.allow_local_lan && not (routing n p).use_default;
  allow_local_lan = p.allow_local_lan;
  force_global = (routing n p).use_default;
  server = some (server_url p);
  username = some p.username;
  password = some p.password;
  group = some p.group;
  cookie = none;
  accept_untrusted = not p.strict_certificate_trust && not p.block_untrusted_servers;
  external_auth_allowed = p.external_browser_auth || is_saml p.auth_method;
  mobile_unique_id = p.id;
  backup_servers = split_server_list p.backup_servers;
  use_dtls = p.use_dtls;
  reported_os = p.reported_os;
  sni = p.sni;
  require_pfs = p.require_pfs;
  disable_xml_post = p.disable_xml_post;
  dpd_seconds = p.dpd_seconds;
  vpn_protocol = as_openconnect p.protocol;
  user_agent = p.user_agent;
  client_version = p.client_version;
  allow_insecure_crypto = p.allow_insecure_crypto;
  fips_mode = p.fips_mode;
  ca_certificate = p.ca_certificate;
  certificate = p.certificate;
  private_key = p.private_key;
  secondary_certificate = p.secondary_certificate;
  secondary_private_key = p.secondary_private_key;
  key_password = p.key_password;
  secondary_key_password = p.secondary_key_password;
  http_proxy = p.http_proxy;
  server_cert_hash = p.server_cert_hash;
  csd_wrapper = p.csd_wrapper;
  software_token = p.software_token;
  token_string = p.token_string;
  split_tunnel_mode = p.split_tunnel_mode;
  split_tunnel_networks = p.split_tunnel_networks;
  trusted_applications = split_package_list p.trusted_applications;
  blocked_applications = split_package_list p.blocked_applications;
}

-- A default route with LAN access keeps the private ranges off the tunnel.
unfoldable pub exclude_lan : Bool → VpnOptions → VpnOptions
exclude_lan wanted o =
    if wanted
    then record o { excluded_routes = push_missing rfc1918_excludes o.excluded_routes }
    else o

unfoldable pub from_network : NetworkSnapshot → ConnectionProfile → VpnOptions
from_network n p = normalize_routes (
    push_dns_host_routes
      (exclude_lan (p.allow_local_lan && (routing n p).use_default) (initial_options n p)))
