-- ===== src/Model/Lifecycle.antt =====
-- `ConnectionLifecycle` of crates/hopenconnect_core/src/model.rs.
use h_openconnect.Base.{Bool, true, false, ◌&&◌, not, Text, codes}

pub data ConnectionLifecycle : Type 0 where
  disconnected connecting authenticating establishing connected disconnecting failed :
      ConnectionLifecycle

unfoldable pub as_str : ConnectionLifecycle → Text
as_str disconnected = codes "disconnected"
as_str connecting = codes "connecting"
as_str authenticating = codes "authenticating"
as_str establishing = codes "establishing"
as_str connected = codes "connected"
as_str disconnecting = codes "disconnecting"
as_str failed = codes "failed"

unfoldable pub is_busy : ConnectionLifecycle → Bool
is_busy connecting = true
is_busy authenticating = true
is_busy establishing = true
is_busy disconnecting = true
is_busy _ = false

unfoldable pub is_active : ConnectionLifecycle → Bool
is_active connected = true
is_active _ = false

-- `matches!(current, Self::Disconnected | Self::Failed)`
abbrev pub is_terminal : ConnectionLifecycle → Bool
is_terminal disconnected = true
is_terminal failed = true
is_terminal _ = false

unfoldable pub should_auto_reconnect_to :
    ConnectionLifecycle → ConnectionLifecycle → Bool → Bool → Bool → Bool
unfolding is_active
should_auto_reconnect_to previous current user_disconnect dry_run connect_on_demand =
    not user_disconnect
    && not dry_run
    && connect_on_demand
    && is_active previous
    && is_terminal current
