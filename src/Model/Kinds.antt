-- ===== src/Model/Kinds.antt =====
-- The option enumerations of crates/hopenconnect_core/src/model.rs and their labels.
pub mod Protocol
pub mod Token
pub mod Split
pub mod Auth
use h_openconnect.Base.{Text, codes}

pub data ProtocolKind : Type 0 where
  any_connect ssl ipsec juniper global_protect pulse f5 fortinet array : ProtocolKind

unfoldable pub as_openconnect : ProtocolKind → Text
as_openconnect juniper = codes "nc"
as_openconnect global_protect = codes "gp"
as_openconnect pulse = codes "pulse"
as_openconnect f5 = codes "f5"
as_openconnect fortinet = codes "fortinet"
as_openconnect array = codes "array"
as_openconnect _ = codes "anyconnect"

pub data SoftwareToken : Type 0 where
  disabled secur_id totp : SoftwareToken

pub data SplitTunnelMode : Type 0 where
  auto on_vpn_dns on_uplink_dns : SplitTunnelMode

pub data AuthMethod : Type 0 where
  password certificate password_and_certificate saml : AuthMethod
