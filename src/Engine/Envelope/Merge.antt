-- ===== src/Engine/Envelope/Merge.antt =====
-- The second half of `apply_platform_envelope_locked` in
-- crates/hopenconnect_core/src/engine/platform.rs: a frame that is newer, or of the attempt that is
-- being adopted, is merged into the state. `remote_attempt_matches` is true in this half.
use h_openconnect.Base.{
  ℕ, ltb, Bool, Option, true, false, ◌&&◌, ◌||◌, not, none, some, if◌then◌else◌, is_empty, Text,
  ◌==◌,
}
use h_openconnect.Model.Lifecycle.{
  ConnectionLifecycle, disconnected, connecting, authenticating, establishing, connected, failed,
  is_active,
}
use h_openconnect.Model.Network.{NetworkSnapshot, SessionStats}
use h_openconnect.Bridge.State.{PlatformStartOutcome, PlatformVpnState}
use h_openconnect.Bridge.Envelope.{is_present}
use h_openconnect.Engine.State.{Inner, SessionSnapshot, Env}
use h_openconnect.Engine.Publish.{local_mainloop}

-- `matches!(outcome, Failed | Cancelled)`
abbrev pub is_terminal_outcome : PlatformStartOutcome → Bool
is_terminal_outcome PlatformStartOutcome.failed = true
is_terminal_outcome PlatformStartOutcome.cancelled = true
is_terminal_outcome _ = false

abbrev pub is_pending : PlatformStartOutcome → Bool
is_pending PlatformStartOutcome.pending = true
is_pending _ = false

abbrev pub is_connected : PlatformStartOutcome → Bool
is_connected PlatformStartOutcome.connected = true
is_connected _ = false

abbrev pub is_failed_outcome : PlatformStartOutcome → Bool
is_failed_outcome PlatformStartOutcome.failed = true
is_failed_outcome _ = false

abbrev pub is_cancelled : PlatformStartOutcome → Bool
is_cancelled PlatformStartOutcome.cancelled = true
is_cancelled _ = false

abbrev pub is_failed : ConnectionLifecycle → Bool
is_failed failed = true
is_failed _ = false

abbrev pub is_disconnected : ConnectionLifecycle → Bool
is_disconnected disconnected = true
is_disconnected _ = false

-- `Connecting | Authenticating | Establishing`
abbrev pub is_opening : ConnectionLifecycle → Bool
is_opening connecting = true
is_opening authenticating = true
is_opening establishing = true
is_opening _ = false

-- `Connected | Establishing`
abbrev pub is_up : ConnectionLifecycle → Bool
is_up connected = true
is_up establishing = true
is_up _ = false

-- A stop intent stays; the app takes the owner's identity from the frame.
unfoldable pub merge_intent : Bool → PlatformVpnState → Inner → Inner
merge_intent is_ui remote i = record i {
  platform_stop_requested = i.platform_stop_requested || remote.stop_requested;
  platform_extension_owner_pid =
      if is_ui then remote.extension_owner_pid else i.platform_extension_owner_pid;
  platform_extension_owner_start_time =
      if is_ui then remote.extension_owner_start_time else i.platform_extension_owner_start_time;
}

unfoldable pub merge_outcome : PlatformVpnState → Inner → Inner
merge_outcome remote i =
    if is_terminal_outcome remote.start_outcome
    then record i {
      platform_start_outcome = remote.start_outcome;
      platform_vpn_starting = false;
      platform_vpn_running = false;
      platform_vpn_cleanup_complete = remote.cleanup_complete;
    }
    else if is_terminal_outcome i.platform_start_outcome
    then i
    else record i {
      platform_vpn_running = remote.running;
      platform_vpn_starting = not remote.running && remote.starting;
      platform_vpn_cleanup_complete = false;
      platform_start_outcome =
          if remote.running && is_pending i.platform_start_outcome
          then PlatformStartOutcome.connected
          else i.platform_start_outcome;
    }

unfoldable pub merge_attachment : PlatformVpnState → Inner → Inner
merge_attachment remote i = record i {
  platform_extension_attached =
      if is_terminal_outcome remote.start_outcome
      then remote.extension_attached
      else i.platform_extension_attached || remote.extension_attached;
  platform_start_delivery_observed = i.platform_start_delivery_observed || remote.delivery_observed;
}

unfoldable pub release_leases : Inner → Inner
release_leases i = record i {
  platform_vpn_issuer_lease =
      if i.platform_vpn_cleanup_complete then none else i.platform_vpn_issuer_lease;
  platform_vpn_extension_lease =
      if i.platform_vpn_cleanup_complete then none else i.platform_vpn_extension_lease;
}

-- A pending start fails with the Extension.
unfoldable pub fail_pending : Bool → PlatformVpnState → Inner → Inner
fail_pending running remote i = record i {
  platform_start_outcome =
      if not running
        && is_pending i.platform_start_outcome
        && (is_failed remote.lifecycle || is_present remote.last_error)
      then PlatformStartOutcome.failed
      else i.platform_start_outcome;
  platform_diagnostics = remote.diagnostics;
}

abbrev pub unless_empty : Text → Text → Text
unless_empty new old = if is_empty new then old else new

abbrev pub unless_zero : ℕ → ℕ → ℕ
unless_zero new old = if ltb 0 new then new else old

-- The Extension's counters, with an address, a gateway and an MTU kept where it has none.
unfoldable pub merge_stats : PlatformVpnState → SessionStats → SessionStats
merge_stats remote s =
    let ip = unless_empty remote.assigned_ip s.assigned_ip in
    let gw = unless_empty remote.gateway s.gateway in
    let size = unless_zero remote.mtu s.mtu in
    record (remote.stats) {
      assigned_ip = unless_empty remote.stats.assigned_ip ip;
      gateway = unless_empty remote.stats.gateway gw;
      mtu = if remote.stats.mtu == 0 then size else remote.stats.mtu;
    }

abbrev pub merge_network : PlatformVpnState → NetworkSnapshot → NetworkSnapshot
merge_network remote n =
    if is_present remote.network.address || not (is_empty remote.network.dns)
    then remote.network
    else n

-- What the code changes from here on: the snapshot and the time of the connection.
pub record Shown : Type 0 where
  pub snapshot : SessionSnapshot
  pub connected_at : Option ℕ

abbrev show : ConnectionLifecycle → Option Text → Shown → Shown
show lifecycle error s = record s {
  snapshot = record (s.snapshot) { lifecycle = lifecycle; last_error = error };
}

-- As `connected_at = None` after a disconnection.
abbrev show_disconnected : Shown → Shown
show_disconnected s = record (show disconnected none s) { connected_at = none }

unfoldable pub merge_running : Env → PlatformVpnState → Shown → Shown
merge_running env remote s =
    let t = record s {
      snapshot = record (s.snapshot) {
        stats = merge_stats remote s.snapshot.stats;
        network = merge_network remote s.snapshot.network;
      };
    } in
    if is_opening s.snapshot.lifecycle
    then record (show connected none t) {
      connected_at = if is_present s.connected_at then s.connected_at else some env.now;
    }
    else t

-- When neither side runs: the branches of the code in their order.
unfoldable pub merge_stopped : Bool → Bool → PlatformVpnState → Shown → Shown
merge_stopped starting was_live remote s =
    let now = s.snapshot.lifecycle in
    if starting
    then (if not (is_active now) && not (is_failed now) then show establishing none s else s)
    else if is_cancelled remote.start_outcome
    then (if is_failed now then s else show_disconnected s)
    else if is_failed_outcome remote.start_outcome
        || is_failed remote.lifecycle
        || is_present remote.last_error
    then (if is_failed now || is_disconnected now then s else show failed remote.last_error s)
    else if not (is_pending remote.start_outcome)
        && is_disconnected remote.lifecycle
        && was_live
        && is_up now
    then show_disconnected s
    else s

-- The fields of the transaction.
unfoldable pub merge_transaction : Bool → PlatformVpnState → Inner → Inner
merge_transaction is_ui remote i =
    release_leases (merge_attachment remote (merge_outcome remote (merge_intent is_ui remote i)))

abbrev pub is_running : PlatformVpnState → Inner → Bool
is_running remote i =
    not (is_terminal_outcome remote.start_outcome) && (local_mainloop i || i.platform_vpn_running)

unfoldable pub merge_snapshot : Env → Bool → Bool → PlatformVpnState → Inner → Inner
merge_snapshot env running was_live remote i =
    let s : Shown = record { snapshot = i.snapshot; connected_at = i.connected_at } in
    let t =
      if running
      then merge_running env remote s
      else merge_stopped i.platform_vpn_starting was_live remote s in
    record i { snapshot = t.snapshot; connected_at = t.connected_at }

unfoldable pub merge : Env → Bool → PlatformVpnState → Inner → Inner
merge env is_ui remote i =
    let was_live = i.platform_vpn_running || i.platform_vpn_starting in
    let j = merge_transaction is_ui remote i in
    merge_snapshot env (is_running remote j) was_live remote
      (fail_pending (is_running remote j) remote j)
