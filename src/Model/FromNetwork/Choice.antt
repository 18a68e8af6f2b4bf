-- ===== src/Model/FromNetwork/Choice.antt =====
-- The choice of routes and resolvers in `VpnOptions::from_network` of
-- crates/hopenconnect_core/src/model.rs.
use h_openconnect.Base.{Bool, true, false, List, [], ◌∷◌, filter_map, Text, trim, split}
use h_openconnect.Model.Kinds.{SplitTunnelMode, on_vpn_dns, on_uplink_dns}
use h_openconnect.Model.Profile.{ConnectionProfile}
use h_openconnect.Model.Validate.{route_separator}
use h_openconnect.Model.Network.{NetworkSnapshot}
use h_openconnect.Model.Options.{default_routes}
use h_openconnect.Route.Cidr.{normalize_route_cidr}
use h_openconnect.Model.FromNetwork.Addresses.{has_ipv6}

unfoldable pub server_split : NetworkSnapshot → List Text
server_split n = filter_map normalize_route_cidr n.routes

unfoldable pub custom_split : ConnectionProfile → List Text
custom_split p =
    filter_map (λ s. normalize_route_cidr (trim s)) (split route_separator p.split_tunnel_networks)

-- Routes, resolvers, and whether the tunnel takes the default route.
pub record Routing : Type 0 where
  pub routes : List Text
  pub dns : List Text
  pub use_default : Bool

unfoldable pub full_tunnel : Bool → List Text → Routing
full_tunnel ipv6 dns = record { routes = default_routes ipv6; dns = dns; use_default = true }

abbrev pub server_routing : List Text → Bool → List Text → Routing
server_routing [] ipv6 dns = full_tunnel ipv6 dns
server_routing (r ∷ rs) ipv6 dns = record { routes = r ∷ rs; dns = dns; use_default = false }

-- The arms of the match when the tunnel is not forced, by mode and custom routes.
abbrev pub mode_routing : SplitTunnelMode → List Text → List Text → Bool → List Text → Routing
mode_routing on_vpn_dns (c ∷ cs) server ipv6 dns = record {
  routes = c ∷ cs;
  dns = dns;
  use_default = false;
}
mode_routing on_uplink_dns (c ∷ cs) server ipv6 dns = record {
  routes = c ∷ cs;
  dns = [];
  use_default = false;
}
mode_routing _ _ server ipv6 dns = server_routing server ipv6 dns

unfoldable pub choose_routing :
    Bool → SplitTunnelMode → List Text → List Text → Bool → List Text → Routing
choose_routing true mode custom server ipv6 dns = full_tunnel ipv6 dns
choose_routing false mode custom server ipv6 dns = mode_routing mode custom server ipv6 dns

unfoldable pub routing : NetworkSnapshot → ConnectionProfile → Routing
routing n p =
    choose_routing p.force_global p.split_tunnel_mode (custom_split p) (server_split n) (has_ipv6 n)
      n.dns
