-- ===== src/Engine/Memory.antt =====
-- Binding the shared memory: `initialize_platform_shared_memory` and `attach_platform_shared_memory` of
-- crates/hopenconnect_core/src/engine/platform.rs. The descriptors and the wake-up of waiters are left
-- out; what the operating system answers is an argument.
use h_openconnect.Base.{Bool, true, false, ◌&&◌, Option, none, some, if◌then◌else◌}
use h_openconnect.Bridge.Envelope.{PlatformEnvelope}
use h_openconnect.Engine.State.{Inner, PlatformIpc, Env, EngineError, ok, err, Action}
use h_openconnect.Engine.Publish.{persist_platform}

-- `PlatformEnvelope::default()`
abbrev pub empty_envelope : PlatformEnvelope
empty_envelope = record {
  state = none;
  session_handoff = none;
  browser_request = none;
  browser_request_ack = none;
}

-- `create_ui`: the region is new, so its lanes are empty.
abbrev pub ui_memory : PlatformIpc
ui_memory = record { is_ui = true; published = empty_envelope; lane = none }

-- `attach_vpn_raw`: the lane may have a frame of an earlier process.
abbrev pub vpn_memory : Option PlatformEnvelope → PlatformIpc
vpn_memory lane = record { is_ui = false; published = empty_envelope; lane = lane }

abbrev pub initialize_on : Env → Bool → Bool → Bool → Option PlatformIpc → Action (Unit {0})
initialize_on env gives resets creates none e =
    if resets && creates
    then persist_platform env (record e { platform_ipc = some ui_memory })
    else (err EngineError.ipc, e)
initialize_on env gives resets creates (some ipc) e =
    if ipc.is_ui && gives then (ok tt, e) else (err EngineError.ipc, e)

-- Whether a bound region gives out its descriptors, whether the log marker can be removed, and whether a
-- region can be created.
unfoldable pub initialize_platform_shared_memory : Env → Bool → Bool → Bool → Action (Unit {0})
initialize_platform_shared_memory env gives resets creates e =
    initialize_on env gives resets creates e.platform_ipc e

abbrev pub forget_frames : Inner → Inner
forget_frames i = record i {
  platform_remote_state_updated_at = 0;
  platform_remote_state_seen_at = none;
  platform_remote_stale_since = none;
}

unfoldable pub attach_platform_shared_memory : Option PlatformEnvelope → Bool → Action (Unit {0})
attach_platform_shared_memory lane attaches e =
    if attaches
    then (ok tt, record e { inner = forget_frames e.inner; platform_ipc = some (vpn_memory lane) })
    else (err EngineError.ipc, e)
