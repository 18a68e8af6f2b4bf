-- ===== src/Engine/Connection/Ending.antt =====
-- How a connection ends: `disconnect_inner` and `on_native_session_ended` of
-- crates/hopenconnect_core/src/engine/connection.rs. A lock that leaves a session to be stopped is one
-- operation, the lock after that another; stopping the session touches no state.
use h_openconnect.Base.{
  ℕ, ◌+◌, ◌%◌, ◌^◌, ◌==◌, Bool, true, false, ◌&&◌, ◌||◌, not, Option, none, some, Text, codes,
  if◌then◌else◌, text_eq,
}
use h_openconnect.Model.Lifecycle.{
  ConnectionLifecycle, disconnected, disconnecting, connected, failed,
}
use h_openconnect.Bridge.State.{PlatformStartOutcome}
use h_openconnect.Engine.State.{
  no_stats, no_network, Inner, SessionEngine, Env, ok, Action, ◌>>=◌, ◌>>◌, return, change,
}
use h_openconnect.Engine.Diagnostics.{set_lifecycle, push_diag}
use h_openconnect.Engine.Publish.{persist_platform}
use h_openconnect.Engine.Envelope.{with_inner}
use h_openconnect.Engine.Envelope.Merge.{
  is_terminal_outcome, is_connected, is_failed_outcome, is_disconnected,
}
use h_openconnect.Engine.Attempt.{settle}
use h_openconnect.Engine.Connection.{publish_quietly, current_generation}

abbrev pub is_other : Option Text → Inner → Bool
is_other none i = false
is_other (some attempt) i = not (text_eq i.platform_start_attempt_id attempt)

unfoldable pub disconnect_requested : Env → Inner → Inner
disconnect_requested env i =
    let j = record i {
      platform_vpn_starting = false;
      platform_vpn_running = false;
      platform_stop_requested = true;
      platform_start_outcome =
          if is_failed_outcome i.platform_start_outcome
          then i.platform_start_outcome
          else PlatformStartOutcome.cancelled;
    } in
    let k =
      push_diag env (codes "info") (codes "disconnect requested")
        (set_lifecycle disconnecting none j) in
    record k {
      generation = (k.generation + 1) % 2 ^ 64;
      pending_native = false;
      running_native = none;
    }

-- Done at once, or the generation that the wait is for.
pub data Disconnecting : Type 0 where
  done : Bool → Disconnecting
  waits : ℕ → Disconnecting

-- The first lock of `disconnect_inner`.
unfoldable pub begin_disconnect : Env → Option Text → Action Disconnecting
begin_disconnect env expected e =
    if is_other expected e.inner
    then (ok (Disconnecting.done false), e)
    else if is_disconnected e.inner.snapshot.lifecycle
    then (ok (Disconnecting.done true), e)
    else (do
      change (disconnect_requested env)
      persist_platform env
      generation ← current_generation
      return (Disconnecting.waits generation))
        e

-- `Disconnecting | Connected`
abbrev pub is_leaving : ConnectionLifecycle → Bool
is_leaving disconnecting = true
is_leaving connected = true
is_leaving _ = false

unfoldable pub disconnect_finished : Inner → Inner
disconnect_finished i =
    let j = set_lifecycle disconnected none (record i {
      platform_vpn_running = false;
      platform_vpn_starting = false;
      platform_session_handoff = none;
      platform_browser_request = none;
      connected_at = none;
    }) in
    record j { snapshot = record (j.snapshot) { stats = no_stats; network = no_network } }

-- The last lock of `disconnect_inner`.
unfoldable pub finish_disconnect : Env → ℕ → Option Text → SessionEngine → Bool × SessionEngine
finish_disconnect env generation expected e =
    if not (e.inner.generation == generation) || is_other expected e.inner
    then (false, e)
    else if is_leaving e.inner.snapshot.lifecycle
    then (true, publish_quietly env (with_inner disconnect_finished e))
    else (true, e)

abbrev pub worker_stopped : Text
worker_stopped = codes "native VPN worker is not running"

abbrev pub fail_outcome : Env → Text → Inner → Inner
fail_outcome env message i = push_diag env (codes "error") message (
    set_lifecycle failed (some message)
      (record i { platform_start_outcome = PlatformStartOutcome.failed }))

-- `Disconnected | Disconnecting | Failed`
abbrev pub has_ended : ConnectionLifecycle → Bool
has_ended disconnected = true
has_ended disconnecting = true
has_ended failed = true
has_ended _ = false

abbrev pub end_quietly : Inner → Inner
end_quietly i =
    if is_disconnected i.snapshot.lifecycle
    then i
    else set_lifecycle disconnected none (record i {
      platform_start_outcome = settle PlatformStartOutcome.cancelled i.platform_start_outcome;
    })

abbrev pub name_end : Env → Bool → Option Text → Inner → Inner
name_end env was_owner (some message) i = fail_outcome env message i
name_end env was_owner none i =
    if was_owner then fail_outcome env worker_stopped i else end_quietly i

unfoldable pub session_ended : Env → Option Text → Inner → Inner
session_ended env error i =
    let was_owner = i.platform_vpn_running && is_connected i.platform_start_outcome in
    let j = record i {
      running_native = none;
      pending_native = false;
      platform_vpn_running = false;
      platform_vpn_starting = false;
    } in
    let k =
      if has_ended j.snapshot.lifecycle || is_terminal_outcome j.platform_start_outcome
      then j
      else name_end env was_owner error j in
    record k { connected_at = none }

unfoldable pub on_native_session_ended : Env → ℕ → Option Text → Action (Unit {0})
on_native_session_ended env generation error e =
    if not (e.inner.generation == generation)
    then (ok tt, e)
    else (do change (session_ended env error); persist_platform env) e
