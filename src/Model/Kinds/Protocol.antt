-- ===== src/Model/Kinds/Protocol.antt =====
-- The labels of `ProtocolKind` in crates/hopenconnect_core/src/model.rs.
use h_openconnect.Base.{
  ◌||◌, Text, codes, text_eq, to_ascii_lowercase, if◌then◌else◌, ◌≡◌, refl, List, [], ◌∷◌,
}
use h_openconnect.Model.Kinds.{
  ProtocolKind, any_connect, ipsec, juniper, global_protect, pulse, f5, fortinet, array,
  as_openconnect,
}

unfoldable pub as_label : ProtocolKind → Text
as_label ipsec = codes "IPsec"
as_label juniper = codes "Juniper NC"
as_label global_protect = codes "GlobalProtect"
as_label pulse = codes "Pulse"
as_label f5 = codes "F5"
as_label fortinet = codes "Fortinet"
as_label array = codes "Array"
as_label _ = codes "AnyConnect"

unfoldable pub from_label : Text → ProtocolKind
unfolding text_eq to_ascii_lowercase
from_label label =
    let l = to_ascii_lowercase label in
    if text_eq l (codes "ipsec")
    then ipsec
    else if text_eq l (codes "nc") || text_eq l (codes "juniper") || text_eq l (codes "juniper nc")
    then juniper
    else if text_eq l (codes "gp") || text_eq l (codes "globalprotect")
    then global_protect
    else if text_eq l (codes "pulse")
    then pulse
    else if text_eq l (codes "f5")
    then f5
    else if text_eq l (codes "fortinet")
    then fortinet
    else if text_eq l (codes "array")
    then array
    else any_connect

-- The protocols that the app offers.
unfoldable pub all : List ProtocolKind
all = any_connect ∷ []

-- A protocol's label is read back as a protocol with the same wire value.
pub as_openconnect-from_label :
    (k : ProtocolKind) → as_openconnect (from_label (as_label k)) ≡ as_openconnect k
unfolding as_openconnect from_label as_label
as_openconnect-from_label any_connect = refl
as_openconnect-from_label _ = refl
