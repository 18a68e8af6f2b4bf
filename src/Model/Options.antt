-- ===== src/Model/Options.antt =====
-- `VpnOptions` of crates/hopenconnect_core/src/model.rs and the operations that change its routes.
use h_openconnect.Base.{
  ℕ, ◌==◌, Bool, false, not, ◌⊎◌, inl, inr, Option, none, some, List, [], ◌∷◌, map, if◌then◌else◌,
  is_empty, any, filter_map, Text, codes, trim, split, contains_char, has_text, dedup,
}
use mathlib.Core.List.{reverse}
use h_openconnect.Base.Net.{parse_ip}
use h_openconnect.Base.Optional.{◌>>=◌}
use h_openconnect.Model.Kinds.{SoftwareToken, SplitTunnelMode}
use h_openconnect.Route.Prefix.{IpPrefix}
use h_openconnect.Route.Cidr.{parse, to_cidr, host_route, normalize_route_cidr}
use h_openconnect.Route.Exclusion.{materialize}

pub record VpnOptions : Type 0 where
  pub addresses : List Text
  pub routes : List Text
  pub excluded_routes : List Text
  pub dns_addresses : List Text
  pub search_domains : List Text
  pub mtu : ℕ  -- u32
  pub allow_bypass : Bool
  pub allow_local_lan : Bool
  pub force_global : Bool
  pub server : Option Text
  pub username : Option Text
  pub password : Option Text
  pub group : Option Text
  pub cookie : Option Text
  pub accept_untrusted : Bool
  pub external_auth_allowed : Bool
  pub mobile_unique_id : Text
  pub backup_servers : List Text
  pub use_dtls : Bool
  pub reported_os : Text
  pub sni : Text
  pub require_pfs : Bool
  pub disable_xml_post : Bool
  pub dpd_seconds : ℕ  -- u32
  pub vpn_protocol : Text
  pub user_agent : Text
  pub client_version : Text
  pub allow_insecure_crypto : Bool
  pub fips_mode : Bool
  pub ca_certificate : Text
  pub certificate : Text
  pub private_key : Text
  pub secondary_certificate : Text
  pub secondary_private_key : Text
  pub key_password : Text
  pub secondary_key_password : Text
  pub http_proxy : Text
  pub server_cert_hash : Text
  pub csd_wrapper : Text
  pub software_token : SoftwareToken
  pub token_string : Text
  pub split_tunnel_mode : SplitTunnelMode
  pub split_tunnel_networks : Text
  pub trusted_applications : List Text
  pub blocked_applications : List Text

-- The host route of one resolver: what stands before a zone index, trimmed and parsed.
unfoldable pub dns_host_route : Text → Option Text
dns_host_route server =
    let host : Text = elim (split (λ c. c == b'%') server) [ [] ↦ server | first ∷ _ ↦ first ] in
    (do address ← parse_ip (trim host); some (host_route address))

-- One round of the loop: a resolver that does not parse is passed over, a route is added once.
unfoldable pub push_host_route : Text → List Text → List Text
push_host_route server routes = elim (dns_host_route server) [
  | none ↦ routes
  | some r ↦ if has_text r routes then routes else r ∷ routes
]

unfoldable pub push_host_routes : List Text → List Text → List Text
push_host_routes [] routes = routes
push_host_routes (s ∷ ss) routes = push_host_routes ss (push_host_route s routes)

unfoldable pub push_dns_host_routes : VpnOptions → VpnOptions
push_dns_host_routes o = record o { routes = push_host_routes (reverse o.dns_addresses) o.routes }

unfoldable pub normalize_list : List Text → List Text
normalize_list rs = dedup (filter_map normalize_route_cidr rs)

unfoldable pub normalize_routes : VpnOptions → VpnOptions
normalize_routes o = record o {
  routes = normalize_list o.routes;
  excluded_routes = normalize_list o.excluded_routes;
}

abbrev pub default_routes : Bool → List Text
default_routes has_ipv6 = codes "0.0.0.0/0" ∷ (if has_ipv6 then codes "::/0" ∷ [] else [])

unfoldable pub any_ipv6 : List Text → Bool
any_ipv6 addresses = any (contains_char b':') addresses

unfoldable pub apply_force_global : VpnOptions → VpnOptions
apply_force_global o =
    if not o.force_global
    then o
    else normalize_routes (
        push_dns_host_routes
          (record o { routes = default_routes (any_ipv6 o.addresses); allow_bypass = false }))

pub data RouteError : Type 0 where
  invalid_include : Text → RouteError
  invalid_excluded : Text → RouteError
  no_include_routes all_excluded : RouteError

-- `iter().map(|route| parse(route).ok_or(..)).collect::<Result<_, _>>()`, by the first failure.
unfoldable pub parse_all : List Text → List IpPrefix ⊎ Text
parse_all [] = inl []
parse_all (r ∷ rs) = elim (parse r) [
  | none ↦ inr r
  | some p ↦ elim (parse_all rs) [ inl ps ↦ inl (p ∷ ps) | inr e ↦ inr e ]
]

unfoldable pub first_invalid : List Text → Option Text
first_invalid [] = none
first_invalid (r ∷ rs) =
    let rest = first_invalid rs in elim (normalize_route_cidr r) [ none ↦ some r | some _ ↦ rest ]

-- The part after `normalize_routes`: the result, and the options as they are then.
unfoldable pub exclude_routes : VpnOptions → Option RouteError × VpnOptions
exclude_routes o =
    if is_empty o.excluded_routes
    then ((if is_empty o.routes then some no_include_routes else none), o)
    else elim (parse_all o.excluded_routes) [
      | inr e ↦ (some (invalid_excluded e), o)
      | inl exclusions ↦ elim (parse_all o.routes) [
        | inr e ↦ (some (invalid_include e), o)
        | inl includes ↦
            (let materialized = dedup (map to_cidr (materialize includes exclusions)) in
              if is_empty materialized
              then (some all_excluded, o)
              else (none, record o { routes = materialized; excluded_routes = [] }))
      ]
    ]

unfoldable pub materialize_excluded_routes : VpnOptions → Option RouteError × VpnOptions
materialize_excluded_routes o = elim (first_invalid o.routes) [
  | some r ↦ (some (invalid_include r), o)
  | none ↦ elim (first_invalid o.excluded_routes) [
    | some r ↦ (some (invalid_excluded r), o)
    | none ↦ exclude_routes (normalize_routes o)
  ]
]
