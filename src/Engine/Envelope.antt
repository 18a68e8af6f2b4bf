-- ===== src/Engine/Envelope.antt =====
-- `apply_platform_envelope_locked` and `sync_platform_locked` of
-- crates/hopenconnect_core/src/engine/platform.rs: what an engine takes over from the other process.
pub mod Merge
pub mod Rules
pub mod Tracking
pub mod Laws
pub mod Safety
pub mod Ending
pub mod GivenUp
pub mod Journal
use h_openconnect.Base.{
  ℕ, ltb, Bool, true, false, ◌&&◌, ◌||◌, not, Option, none, some, if◌then◌else◌, is_empty, Text,
  text_eq, codes,
}
use h_openconnect.Model.Lifecycle.{establishing, failed}
use h_openconnect.Bridge.State.{PlatformStartOutcome, PlatformVpnState}
use h_openconnect.Bridge.Envelope.{PlatformEnvelope}
use h_openconnect.Engine.State.{
  Inner, SessionEngine, PlatformIpc, RemoteRead, Env, EngineError, CoreResult, ok, err, Action,
  saturating_suc,
}
use h_openconnect.Engine.Diagnostics.{set_lifecycle, push_diag}
use h_openconnect.Engine.Publish.{notify_platform_start, persist_platform}
use h_openconnect.Engine.Browser.{acknowledge_platform_browser_request}
use h_openconnect.Engine.Watchdog.{heartbeat_watchdog_expired}
use h_openconnect.Engine.Envelope.Merge.{is_terminal_outcome, is_pending, merge}

-- A change of the state that keeps the rest of the engine.
abbrev pub with_inner : (Inner → Inner) → SessionEngine → SessionEngine
with_inner f e = record e { inner = f e.inner }

abbrev pub is_expected : Option Text → Text → Bool
is_expected none attempt = false
is_expected (some expected) attempt = text_eq attempt expected

unfoldable pub remote_attempt_matches : PlatformVpnState → Inner → Bool
remote_attempt_matches remote i =
    not (is_empty remote.start_attempt_id)
    && text_eq remote.start_attempt_id i.platform_start_attempt_id

-- Only the Extension, while it handles the Want of that attempt.
unfoldable pub adopts_attempt : Bool → Option Text → PlatformVpnState → Inner → Bool
adopts_attempt is_ui expected remote i =
    not is_ui
    && not (remote_attempt_matches remote i)
    && is_expected expected remote.start_attempt_id
    && not (is_empty remote.start_attempt_id)

unfoldable pub adopt : PlatformVpnState → Inner → Inner
adopt remote i =
    let j = record i {
      generation = saturating_suc 64 i.generation;
      platform_start_attempt_id = remote.start_attempt_id;
      platform_start_outcome = remote.start_outcome;
      platform_start_delivery_observed = remote.delivery_observed;
      platform_extension_attached = remote.extension_attached;
      platform_stop_requested = remote.stop_requested;
      platform_extension_owner_pid = remote.extension_owner_pid;
      platform_extension_owner_start_time = remote.extension_owner_start_time;
      platform_vpn_cleanup_complete = remote.cleanup_complete;
    } in
    if remote.starting && is_pending remote.start_outcome
    then set_lifecycle establishing none
        (record j { platform_vpn_starting = true; platform_vpn_running = false })
    else j

unfoldable pub remote_advanced : PlatformVpnState → Inner → Bool
remote_advanced remote i = ltb i.platform_remote_state_updated_at remote.updated_at

unfoldable pub note_frame : Env → PlatformVpnState → Inner → Inner
note_frame env remote i =
    if remote_advanced remote i
    then record i {
      platform_remote_state_updated_at = remote.updated_at;
      platform_remote_state_seen_at = some env.now;
      platform_remote_stale_since = none;
    }
    else i

-- The app's own native client has served once the Extension has the handoff or has ended.
unfoldable pub drop_pending_native : Bool → PlatformVpnState → Inner → Inner
drop_pending_native is_ui remote i =
    if is_ui
      && (remote.extension_attached || remote.running || is_terminal_outcome remote.start_outcome)
    then record i { pending_native = false }
    else i

abbrev pub heartbeat_stopped : Text
heartbeat_stopped = codes "VPN extension heartbeat stopped"

-- The watchdog's verdict; that it cannot be published is ignored.
unfoldable pub fail_heartbeat : Env → SessionEngine → SessionEngine
fail_heartbeat env e =
    let verdict = λ (i : Inner). record i {
      platform_vpn_running = false;
      platform_vpn_starting = false;
      platform_start_outcome = PlatformStartOutcome.failed;
      platform_remote_stale_since = none;
      platform_watchdog_cleanup_recoverable = true;
    } in
    let e' =
      with_inner
        (λ i.
          push_diag env (codes "error") heartbeat_stopped
            (set_lifecycle failed (some heartbeat_stopped) (verdict i)))
        e in
    (persist_platform env e').1

-- The bookkeeping of a frame, with the watchdog's answer.
unfoldable pub observe : Env → Bool → PlatformVpnState → Inner → Bool × Inner
observe env is_ui remote i =
    heartbeat_watchdog_expired (drop_pending_native is_ui remote (note_frame env remote i)) env.now
      is_ui remote.running true (remote_advanced remote i)

abbrev pub after_observation :
    Env → Bool → PlatformVpnState → Bool → Bool → Bool × Inner → SessionEngine → SessionEngine
after_observation env is_ui remote advanced adopted (true, k) e =
    fail_heartbeat env (record e { inner = k })
after_observation env is_ui remote advanced adopted (false, k) e =
    if not advanced && not adopted
    then record e { inner = k }
    else notify_platform_start (record e { inner = merge env is_ui remote k })

-- A frame of the current attempt, or of the attempt that is adopted.
unfoldable pub accept_frame : Env → Bool → Bool → PlatformVpnState → SessionEngine → SessionEngine
accept_frame env is_ui adopted remote e =
    let i = if adopted then adopt remote e.inner else e.inner in
    after_observation env is_ui remote (remote_advanced remote i) adopted
      (observe env is_ui remote i) e

unfoldable pub apply_state :
    Env → Bool → Option Text → PlatformVpnState → SessionEngine → SessionEngine
apply_state env is_ui expected remote e =
    let adopted = adopts_attempt is_ui expected remote e.inner in
    if not (remote_attempt_matches remote e.inner) && not adopted
    then e
    else accept_frame env is_ui adopted remote e

abbrev pub apply_present :
    Env → Bool → Option Text → Option PlatformVpnState → SessionEngine → SessionEngine
apply_present env is_ui expected none e = e
apply_present env is_ui expected (some remote) e = apply_state env is_ui expected remote e

-- Only the Extension has a request to be taken.
abbrev pub acknowledged : Bool → Option Text → SessionEngine → Bool × SessionEngine
acknowledged true ack e = (false, e)
acknowledged false ack e =
    let (taken, i) = acknowledge_platform_browser_request ack e.inner in
    (taken, record e { inner = i })

-- Whether the peer took the browser request, and the engine afterwards.
unfoldable pub apply_platform_envelope :
    Env → Bool → Option Text → PlatformEnvelope → SessionEngine → Bool × SessionEngine
apply_platform_envelope env is_ui expected envelope e =
    let (taken, e') = acknowledged is_ui envelope.browser_request_ack e in
    (taken, apply_present env is_ui expected envelope.state e')

-- The line without the text of the error.
abbrev pub read_failed_line : Text
read_failed_line = codes "read platform shared memory failed"

abbrev pub sync_read : Env → Bool → Option Text → RemoteRead → SessionEngine → Bool × SessionEngine
sync_read env is_ui expected RemoteRead.no_frame e = (false, e)
sync_read env is_ui expected RemoteRead.read_failed e =
    (false, with_inner (push_diag env (codes "warn") read_failed_line) e)
sync_read env is_ui expected (RemoteRead.frame envelope) e =
    apply_platform_envelope env is_ui expected envelope e

abbrev pub sync_on : Env → Option Text → Option PlatformIpc → SessionEngine → Bool × SessionEngine
sync_on env expected none e = (false, e)
sync_on env expected (some ipc) e = sync_read env ipc.is_ui expected env.remote e

unfoldable pub sync_platform : Env → SessionEngine → Bool × SessionEngine
sync_platform env e = sync_on env none e.platform_ipc e

abbrev pub synced : Env → SessionEngine → SessionEngine
synced env e = (sync_platform env e).1

abbrev pub validate_present : Option PlatformVpnState → Text → CoreResult (Unit {0})
validate_present none attempt = err EngineError.no_ui_state
validate_present (some remote) attempt =
    if not (text_eq remote.start_attempt_id attempt)
    then err EngineError.stale_attempt
    else if is_terminal_outcome remote.start_outcome
    then err EngineError.already_terminal
    else ok tt

unfoldable pub validate_platform_start_envelope : PlatformEnvelope → Text → CoreResult (Unit {0})
validate_platform_start_envelope envelope attempt = validate_present envelope.state attempt

abbrev pub bind_frame :
    Env → Text → PlatformEnvelope → SessionEngine → CoreResult Bool × SessionEngine
bind_frame env attempt envelope e = elim (validate_platform_start_envelope envelope attempt) [
  | err x ↦ (err x, e)
  | ok u ↦
      let (taken, e') = apply_platform_envelope env false (some attempt) envelope e in
      (ok taken, e')
]

abbrev pub bind_read : Env → Text → Bool → RemoteRead → Action Bool
bind_read env attempt true read e = (err EngineError.only_in_extension, e)
bind_read env attempt false RemoteRead.read_failed e = (err EngineError.ipc, e)
bind_read env attempt false RemoteRead.no_frame e = (err EngineError.no_ui_state, e)
bind_read env attempt false (RemoteRead.frame envelope) e = bind_frame env attempt envelope e

abbrev pub bind_on : Env → Text → Option PlatformIpc → Action Bool
bind_on env attempt none e = (ok false, e)
bind_on env attempt (some ipc) e = bind_read env attempt ipc.is_ui env.remote e

unfoldable pub sync_platform_for_binding : Env → Text → Action Bool
sync_platform_for_binding env attempt e = bind_on env attempt e.platform_ipc e
