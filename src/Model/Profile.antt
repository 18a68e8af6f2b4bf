-- ===== src/Model/Profile.antt =====
-- `ConnectionProfile` of crates/hopenconnect_core/src/model.rs, without `validate`.
use h_openconnect.Base.{
  ℕ, ◌==◌, Bool, true, false, ◌||◌, List, [], ◌∷◌, ◌++◌, map, if◌then◌else◌, is_empty, Text, codes,
  trim, starts_with, is_whitespace, words_by,
}
use h_openconnect.Model.Kinds.{
  ProtocolKind, any_connect, SoftwareToken, disabled, SplitTunnelMode, auto, AuthMethod,
}

pub record ConnectionProfile : Type 0 where
  pub id : Text
  pub name : Text
  pub server : Text
  pub group : Text
  pub username : Text
  pub password : Text
  pub protocol : ProtocolKind
  pub auth_method : AuthMethod
  pub certificate : Text
  pub private_key : Text
  pub secondary_certificate : Text
  pub secondary_private_key : Text
  pub ca_certificate : Text
  pub key_password : Text
  pub secondary_key_password : Text
  pub http_proxy : Text
  pub server_cert_hash : Text
  pub backup_servers : Text
  pub strict_certificate_trust : Bool
  pub block_untrusted_servers : Bool
  pub allow_local_lan : Bool
  pub force_global : Bool
  pub split_tunnel_mode : SplitTunnelMode
  pub split_tunnel_networks : Text
  pub connect_on_demand : Bool
  pub external_browser_auth : Bool
  pub fips_mode : Bool
  pub allow_insecure_crypto : Bool
  pub use_dtls : Bool
  pub reported_os : Text
  pub user_agent : Text
  pub client_version : Text
  pub sni : Text
  pub require_pfs : Bool
  pub disable_xml_post : Bool
  pub dpd_seconds : ℕ
  pub software_token : SoftwareToken
  pub token_string : Text
  pub csd_wrapper : Text
  pub trusted_applications : Text
  pub blocked_applications : Text
  pub mtu : ℕ
  pub favorite : Bool

unfoldable pub default_reported_os : Text
default_reported_os = codes "OpenHarmony"

unfoldable pub new_draft : ConnectionProfile
unfolding default_reported_os
new_draft = record {
  id = [];
  name = [];
  server = [];
  group = [];
  username = [];
  password = [];
  protocol = any_connect;
  auth_method = AuthMethod.password;
  certificate = [];
  private_key = [];
  secondary_certificate = [];
  secondary_private_key = [];
  ca_certificate = [];
  key_password = [];
  secondary_key_password = [];
  http_proxy = [];
  server_cert_hash = [];
  backup_servers = [];
  strict_certificate_trust = true;
  block_untrusted_servers = true;
  allow_local_lan = false;
  force_global = false;
  split_tunnel_mode = auto;
  split_tunnel_networks = [];
  connect_on_demand = false;
  external_browser_auth = false;
  fips_mode = false;
  allow_insecure_crypto = false;
  use_dtls = true;
  reported_os = default_reported_os;
  user_agent = [];
  client_version = [];
  sni = [];
  require_pfs = false;
  disable_xml_post = false;
  dpd_seconds = 0;
  software_token = disabled;
  token_string = [];
  csd_wrapper = [];
  trusted_applications = [];
  blocked_applications = [];
  mtu = 0;
  favorite = false;
}

-- Whitespace, commas and semicolons stand between list items.
abbrev list_separator : ℕ → Bool
list_separator c = is_whitespace c || c == b',' || c == b';'

unfoldable pub split_package_list : Text → List Text
split_package_list raw = words_by list_separator raw

abbrev pub has_scheme : Text → Bool
has_scheme s = starts_with s (codes "https://") || starts_with s (codes "http://")

abbrev with_scheme : Text → Text
with_scheme s = if has_scheme s then s else codes "https://" ++ s

unfoldable pub split_server_list : Text → List Text
split_server_list raw = map with_scheme (words_by list_separator raw)

unfoldable pub server_url : ConnectionProfile → Text
server_url p =
    let server = trim p.server in
    if has_scheme server then server else if is_empty server then [] else codes "https://" ++ server

-- The dot between the two parts is U+00B7.
abbrev dotted : Text → Text → Text
dotted kind detail = kind ++ (b' ' ∷ 0xB7 ∷ b' ' ∷ detail)

abbrev summary_of : AuthMethod → Text → Text → Text
summary_of AuthMethod.password user cert =
    if is_empty user then codes "Password" else dotted (codes "Password") user
summary_of AuthMethod.certificate user cert =
    if is_empty cert then codes "Certificate" else dotted (codes "Cert") cert
summary_of AuthMethod.password_and_certificate user cert = codes "Password + Certificate"
summary_of AuthMethod.saml user cert = codes "SAML"

unfoldable pub summary_auth : ConnectionProfile → Text
summary_auth p = summary_of p.auth_method p.username p.certificate
