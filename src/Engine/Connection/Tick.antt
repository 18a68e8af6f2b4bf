-- ===== src/Engine/Connection/Tick.antt =====
-- `tick` of crates/hopenconnect_core/src/engine/connection.rs: its two locks, and between them the session
-- that the first leaves is stopped, which touches no state.
use Prim.Native.Nat.{min}
use h_openconnect.Base.{
  ℕ, ◌+◌, ◌-◌, ◌/◌, ◌^◌, ◌==◌, Bool, true, false, ◌&&◌, ◌||◌, not, Option, none, some, Text, codes,
  if◌then◌else◌, text_eq,
}
use h_openconnect.Model.Lifecycle.{disconnected, failed, is_active}
use h_openconnect.Model.Network.{SessionStats}
use h_openconnect.Bridge.State.{PlatformStartOutcome}
use h_openconnect.Bridge.Envelope.{is_present}
use h_openconnect.Owner.Storage.{Json}
use h_openconnect.Engine.State.{
  Inner, SessionEngine, SessionSnapshot, Env, ok, Action, ◌>>◌, change, run, saturating_suc,
}
use h_openconnect.Engine.Diagnostics.{set_lifecycle, push_diag}
use h_openconnect.Engine.Envelope.{synced, with_inner}
use h_openconnect.Engine.Envelope.Merge.{is_terminal_outcome, is_connected}
use h_openconnect.Engine.Ownership.{Host}
use h_openconnect.Engine.Recovery.{refresh_platform_vpn_owner_liveness}
use h_openconnect.Engine.Connection.{publish_quietly}
use h_openconnect.Engine.Connection.Ending.{fail_outcome, worker_stopped}

unfoldable pub refresh_stats : Env → Inner → Inner
refresh_stats env i = elim i.connected_at [
  | none ↦ i
  | some started ↦
      if is_active i.snapshot.lifecycle
      then record i {
        snapshot = record (i.snapshot) {
          stats = record (i.snapshot.stats) { connected_seconds = (env.now - started) / 1000 };
        };
      }
      else i
]

unfoldable pub protect_failed : Env → Text → Inner → Inner
protect_failed env message i =
    record (fail_outcome env message (record i {
      generation = saturating_suc 64 i.generation;
      running_native = none;
      pending_native = false;
      platform_vpn_running = false;
      platform_vpn_starting = false;
    })) { connected_at = none }

unfoldable pub orphan_stopped : Env → Inner → Inner
orphan_stopped env i =
    push_diag env (codes "warn") (codes "UI ended this attempt; stopping orphaned native session")
      (record i {
        running_native = none;
        pending_native = false;
        platform_vpn_running = false;
        platform_vpn_starting = false;
      })

-- A session of the native library for another attempt, or of another generation.
unfoldable pub owner_mismatch : Inner → Bool
owner_mismatch i = elim i.running_native [
  | none ↦ false
  | some session ↦
      not (text_eq session.attempt_id i.platform_start_attempt_id)
      || not (session.generation == i.generation)
]

-- Only a running session reports that a socket could not be protected.
abbrev pub reported : Option Text → Inner → Option Text
reported error i = if is_present i.running_native then error else none

abbrev pub stop_orphan : Env → Bool → SessionEngine → SessionEngine
stop_orphan env is_extension e =
    if is_extension
      && (owner_mismatch e.inner || is_terminal_outcome e.inner.platform_start_outcome)
      && is_present e.inner.running_native
    then publish_quietly env (with_inner (orphan_stopped env) e)
    else e

abbrev pub check_native : Env → Bool → Option Text → SessionEngine → SessionEngine
check_native env is_extension (some message) e =
    publish_quietly env (with_inner (protect_failed env message) e)
check_native env is_extension none e = stop_orphan env is_extension e

abbrev pub has_role : Bool → SessionEngine → Bool
has_role is_ui e = elim e.platform_ipc [
  | none ↦ false
  | some ipc ↦ if is_ui then ipc.is_ui else not ipc.is_ui
]

abbrev pub check_liveness : Json → Env → Host → Action (Unit {0})
check_liveness json env host e =
    if has_role true e then refresh_platform_vpn_owner_liveness json env host e else (ok tt, e)

abbrev pub check_session : Env → Option Text → SessionEngine → SessionEngine
check_session env error e = check_native env (has_role false e) (reported error e.inner) e

-- The first lock of `tick`.
unfoldable pub begin_tick : Json → Env → Host → Option Text → Action (Unit {0})
begin_tick json env host error e =
    (do
      run (synced env)
      check_liveness json env host
      change (refresh_stats env)
      run (check_session env error))
      e

-- What a running session of the native library answers.
pub data NativeState : Type 0 where
  working : SessionStats → NativeState
  finished : NativeState
  crashed : Text → NativeState

-- The main loop has returned without an error.
unfoldable pub loop_finished : Env → Inner → Inner
loop_finished env i =
    let j = record i { running_native = none } in
    let k =
      if i.platform_vpn_running && is_connected i.platform_start_outcome
      then fail_outcome env worker_stopped j
      else set_lifecycle disconnected none j in
    record k { platform_vpn_running = false; connected_at = none }

unfoldable pub loop_crashed : Text → Inner → Inner
loop_crashed message i = set_lifecycle failed (some message) (record i {
  running_native = none;
  platform_start_outcome = PlatformStartOutcome.failed;
  platform_vpn_running = false;
  connected_at = none;
})

abbrev pub seconds_since : Env → Option ℕ → ℕ → ℕ
seconds_since env none default = default
seconds_since env (some started) default = (env.now - started) / 1000

unfoldable pub show_traffic : Env → SessionStats → Inner → Inner
show_traffic env traffic i = record i {
  snapshot = record (i.snapshot) {
    stats = record traffic {
      assigned_ip = i.snapshot.stats.assigned_ip;
      gateway = i.snapshot.stats.gateway;
      mtu = i.snapshot.stats.mtu;
      connected_seconds = seconds_since env i.connected_at traffic.connected_seconds;
    };
  };
}

abbrev pub after_native : Env → NativeState → Inner → Inner
after_native env (NativeState.working traffic) i = show_traffic env traffic i
after_native env NativeState.finished i = loop_finished env i
after_native env (NativeState.crashed message) i = loop_crashed message i

abbrev pub saturating_add : ℕ → ℕ → ℕ
saturating_add n m = min (n + m) (2 ^ 64 - 1)

unfoldable pub synthetic_traffic : Inner → Inner
synthetic_traffic i =
    if i.dry_run && is_active i.snapshot.lifecycle
    then record i {
      snapshot = record (i.snapshot) {
        stats = record (i.snapshot.stats) {
          bytes_sent = saturating_add i.snapshot.stats.bytes_sent 4096;
          bytes_received = saturating_add i.snapshot.stats.bytes_received 16384;
          packets_sent = saturating_add i.snapshot.stats.packets_sent 8;
          packets_received = saturating_add i.snapshot.stats.packets_received 24;
        };
      };
    }
    else i

-- The last lock of `tick`.
unfoldable pub finish_tick : Env → NativeState → SessionEngine → SessionSnapshot × SessionEngine
finish_tick env native e =
    let f =
      if is_present e.inner.running_native
      then publish_quietly env (with_inner (after_native env native) e)
      else with_inner synthetic_traffic e in
    (f.inner.snapshot, f)
