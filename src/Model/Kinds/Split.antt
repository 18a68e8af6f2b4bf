-- ===== src/Model/Kinds/Split.antt =====
-- The labels of `SplitTunnelMode` in crates/hopenconnect_core/src/model.rs.
use h_openconnect.Base.{◌||◌, Text, codes, text_eq, to_ascii_lowercase, if◌then◌else◌, ◌≡◌, refl}
use h_openconnect.Model.Kinds.{SplitTunnelMode, auto, on_vpn_dns, on_uplink_dns}

unfoldable pub as_label : SplitTunnelMode → Text
as_label auto = codes "Auto"
as_label on_vpn_dns = codes "Split + tunnel DNS"
as_label on_uplink_dns = codes "Split + uplink DNS"

unfoldable pub from_label : Text → SplitTunnelMode
unfolding text_eq to_ascii_lowercase
from_label label =
    let l = to_ascii_lowercase label in
    if text_eq l (codes "on_vpn_dns")
      || text_eq l (codes "split + vpn dns")
      || text_eq l (codes "split + tunnel dns")
      || text_eq l (codes "onvpndns")
    then on_vpn_dns
    else if text_eq l (codes "on_uplink_dns")
        || text_eq l (codes "split + uplink dns")
        || text_eq l (codes "onuplinkdns")
    then on_uplink_dns
    else auto

-- A split-tunnel mode's label is read back as that mode.
pub from_label-as_label : (m : SplitTunnelMode) → from_label (as_label m) ≡ m
unfolding from_label as_label
from_label-as_label auto = refl
from_label-as_label _ = refl
