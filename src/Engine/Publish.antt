-- ===== src/Engine/Publish.antt =====
-- What an engine publishes: `notify_platform_start_locked` and `persist_platform_locked` of
-- crates/hopenconnect_core/src/engine/platform.rs, `publish_snapshot` of platform_ipc.rs.
pub mod Frames
use Prim.Native.Nat.{max}
use h_openconnect.Base.{
  Bool, false, ◌&&◌, ◌||◌, not, Option, none, some, if◌then◌else◌, is_empty, Text, text_eq, ◌==◌,
}
use h_openconnect.Bridge.State.{PlatformVpnState}
use h_openconnect.Bridge.Envelope.{PlatformEnvelope, replace_snapshot}
use h_openconnect.Engine.State.{
  Inner, SessionEngine, PlatformStartEvent, PlatformIpc, PublishOutcome, Env, EngineError,
  CoreResult, ok, err, Action, saturating_suc,
}
use h_openconnect.Engine.Diagnostics.{merged_logs}

unfoldable pub platform_start_event : Inner → PlatformStartEvent
platform_start_event i = record {
  attempt_id = i.platform_start_attempt_id;
  outcome = i.platform_start_outcome;
  delivery_observed = i.platform_start_delivery_observed;
  extension_attached = i.platform_extension_attached;
  cleanup_complete = i.platform_vpn_cleanup_complete;
  error = i.snapshot.last_error;
}

-- The channel is set when the event differs, so it has the current event in both cases.
unfoldable pub notify_platform_start : SessionEngine → SessionEngine
notify_platform_start e = record e { start_event = platform_start_event e.inner }

-- A running session of the native library that belongs to the current attempt.
unfoldable pub local_mainloop : Inner → Bool
local_mainloop i = elim i.running_native [
  | none ↦ false
  | some session ↦
      text_eq session.attempt_id i.platform_start_attempt_id && session.generation == i.generation
]

-- The state as it goes into a frame.
unfoldable pub platform_state : Env → Inner → PlatformVpnState
platform_state env i = record {
  start_attempt_id = i.platform_start_attempt_id;
  start_outcome = i.platform_start_outcome;
  delivery_observed = i.platform_start_delivery_observed;
  extension_attached = i.platform_extension_attached;
  stop_requested = i.platform_stop_requested;
  extension_owner_pid = i.platform_extension_owner_pid;
  extension_owner_start_time = i.platform_extension_owner_start_time;
  cleanup_complete = i.platform_vpn_cleanup_complete;
  starting = i.platform_vpn_starting;
  running = i.platform_vpn_running || local_mainloop i;
  lifecycle = i.snapshot.lifecycle;
  last_error = i.snapshot.last_error;
  assigned_ip = i.snapshot.stats.assigned_ip;
  gateway = i.snapshot.stats.gateway;
  mtu = i.snapshot.stats.mtu;
  network = i.snapshot.network;
  stats = i.snapshot.stats;
  diagnostics = merged_logs i.logs.entries env.runtime_logs;
  updated_at = i.platform_local_state_updated_at;
}

abbrev pub browser_request_ack : Bool → Inner → Option Text
browser_request_ack is_ui i =
    if is_ui && not (is_empty i.last_platform_browser_request_id)
    then some i.last_platform_browser_request_id
    else none

abbrev pub lane_after :
    PublishOutcome → PlatformEnvelope → Option PlatformEnvelope → Option PlatformEnvelope
lane_after PublishOutcome.not_written new old = old
lane_after _ new old = some new

abbrev pub publish_result : PublishOutcome → CoreResult (Unit {0})
publish_result PublishOutcome.published = ok tt
publish_result _ = err EngineError.ipc

-- The envelope is replaced whatever becomes of its frame.
unfoldable pub publish_snapshot :
    PublishOutcome → PlatformVpnState → Inner → PlatformIpc → CoreResult (Unit {0}) × PlatformIpc
publish_snapshot outcome state i ipc =
    let (_, envelope) =
      replace_snapshot ipc.published state i.platform_session_handoff i.platform_browser_request
        (browser_request_ack ipc.is_ui i) in
    (
      publish_result outcome,
      record ipc { published = envelope; lane = lane_after outcome envelope ipc.lane },
    )

-- The revision advances, until it reaches the largest u128.
abbrev pub advance_revision : Env → Inner → Inner
advance_revision env i = record i {
  platform_local_state_updated_at =
      max env.now_nanos (saturating_suc 128 i.platform_local_state_updated_at);
}

abbrev pub publish_on : Env → Option PlatformIpc → Action (Unit {0})
publish_on env none e = (ok tt, e)
publish_on env (some ipc) e =
    let (result, ipc') = publish_snapshot env.publish (platform_state env e.inner) e.inner ipc in
    (result, record e { platform_ipc = some ipc' })

unfoldable pub persist_platform : Env → Action (Unit {0})
persist_platform env e =
    let e' = notify_platform_start (record e { inner = advance_revision env e.inner }) in
    publish_on env e'.platform_ipc e'
