-- ===== src/Engine/Attempt.antt =====
-- The operations on the current start attempt that do not read the owner journal:
-- crates/hopenconnect_core/src/engine/platform.rs.
use h_openconnect.Base.{
  Bool, true, false, ◌&&◌, ◌||◌, not, Option, none, some, if◌then◌else◌, is_empty, Text, text_eq,
  codes, ◌++◌,
}
use h_openconnect.Model.Lifecycle.{
  ConnectionLifecycle, disconnected, establishing, connected, disconnecting, failed, is_active,
}
use h_openconnect.Bridge.State.{PlatformStartOutcome, SessionHandoff}
use h_openconnect.Bridge.Envelope.{is_present}
use h_openconnect.Engine.State.{no_stats, Inner, Env, ok, Action, ◌>>◌, return, change}
use h_openconnect.Engine.Diagnostics.{set_lifecycle, push_diag}
use h_openconnect.Engine.Publish.{persist_platform}
use h_openconnect.Engine.Envelope.{synced}
use h_openconnect.Engine.Envelope.Merge.{is_pending, is_connected}

unfoldable pub platform_start_is_pending : Inner → Text → Bool
platform_start_is_pending i attempt =
    not (is_empty attempt)
    && text_eq i.platform_start_attempt_id attempt
    && is_pending i.platform_start_outcome

unfoldable pub platform_attempt_accepts_updates : Inner → Text → Bool
platform_attempt_accepts_updates i attempt =
    not (is_empty attempt)
    && text_eq i.platform_start_attempt_id attempt
    && i.platform_extension_attached
    && (is_pending i.platform_start_outcome || is_connected i.platform_start_outcome)

-- The outcome of a start that ends: a start that is not pending keeps its outcome.
abbrev pub settle : PlatformStartOutcome → PlatformStartOutcome → PlatformStartOutcome
settle outcome current = if is_pending current then outcome else current

-- `Connected | Establishing | Disconnecting`
abbrev pub is_live : ConnectionLifecycle → Bool
is_live connected = true
is_live establishing = true
is_live disconnecting = true
is_live _ = false

abbrev pub tunnel_up : Env → Inner → Inner
tunnel_up env i =
    let j = record i {
      platform_start_outcome = settle PlatformStartOutcome.connected i.platform_start_outcome;
    } in
    push_diag env (codes "info") (codes "platform VPN TUN is up") (
      if is_active j.snapshot.lifecycle
      then j
      else record (set_lifecycle connected none j) { connected_at = some env.now })

abbrev pub tunnel_down : Inner → Inner
tunnel_down i =
    let j = record i {
      platform_start_outcome = settle PlatformStartOutcome.cancelled i.platform_start_outcome;
    } in
    if is_live j.snapshot.lifecycle
    then record j {
      snapshot = record (j.snapshot) {
        lifecycle = disconnected;
        last_error = none;
        stats = no_stats;
      };
      pending_native = false;
      running_native = none;
      connected_at = none;
    }
    else j

-- The native session that is returned to be stopped outside the lock is left out.
unfoldable pub apply_platform_vpn_running : Env → Bool → Inner → Inner
apply_platform_vpn_running env running i =
    let j = record i {
      platform_vpn_running = running;
      platform_vpn_starting = false;
      platform_browser_request = none;
    } in
    if running then tunnel_up env j else tunnel_down j

unfoldable pub apply_platform_vpn_failed : Env → Text → Inner → Inner
apply_platform_vpn_failed env error i =
    let j = record i {
      platform_vpn_starting = false;
      platform_vpn_running = false;
      platform_session_handoff = none;
      platform_browser_request = none;
      platform_start_outcome = settle PlatformStartOutcome.failed i.platform_start_outcome;
      pending_native = false;
      running_native = none;
    } in
    push_diag env (codes "error") error (set_lifecycle failed (some error) j)

-- The method's first two lines: lock, and read what the other process published.
abbrev pub under_lock : {A : Type 0} → Env → Action A → Action A
under_lock env act e = act (synced env e)

unfoldable pub cancelled_start : Env → Text → Inner → Inner
cancelled_start env attempt i =
    let j = record i {
      platform_vpn_starting = false;
      platform_vpn_running = false;
      platform_start_outcome = PlatformStartOutcome.cancelled;
      platform_session_handoff = none;
      platform_browser_request = none;
      pending_native = false;
    } in
    push_diag env (codes "info")
      (codes "platform VPN start transaction " ++ attempt ++ codes " cancelled")
      (set_lifecycle disconnected none j)

abbrev cancel_locked : Env → Text → Action Bool
cancel_locked env attempt e =
    if platform_start_is_pending e.inner attempt
    then (do change (cancelled_start env attempt); persist_platform env; return true) e
    else (ok false, e)

unfoldable pub cancel_platform_vpn_start : Env → Text → Action Bool
cancel_platform_vpn_start env attempt = under_lock env (cancel_locked env attempt)

abbrev pub stop_requested : Env → Text → Inner → Inner
stop_requested env attempt i =
    push_diag env (codes "info") (codes "platform VPN cooperative stop requested for " ++ attempt)
      (record i { platform_stop_requested = true })

abbrev pub request_locked : Env → Text → Action Bool
request_locked env attempt e =
    if not (text_eq e.inner.platform_start_attempt_id attempt)
    then (ok false, e)
    else if e.inner.platform_vpn_cleanup_complete
    then (ok true, e)
    else if not e.inner.platform_extension_attached
    then (ok false, e)
    else if e.inner.platform_stop_requested
    then (ok true, e)
    else (do change (stop_requested env attempt); persist_platform env; return true) e

unfoldable pub request_platform_vpn_stop : Env → Text → Action Bool
request_platform_vpn_stop env attempt e =
    if is_empty attempt then (ok false, e) else under_lock env (request_locked env attempt) e

abbrev pub start_flag : Bool → Inner → Inner
start_flag starting i =
    let j = record i { platform_vpn_starting = starting } in
    if starting
    then set_lifecycle establishing none (record j { platform_vpn_running = false })
    else j

abbrev starting_locked : Env → Bool → Action (Unit {0})
starting_locked env starting e =
    if starting && e.inner.platform_vpn_running
    then (ok tt, e)
    else (do
      change (λ i.
          if starting
          then push_diag env (codes "info") (codes "platform VPN extension starting")
              (start_flag true i)
          else start_flag false i)
      persist_platform env)
        e

unfoldable pub set_platform_vpn_starting : Env → Bool → Action (Unit {0})
set_platform_vpn_starting env starting = under_lock env (starting_locked env starting)

abbrev starting_for_locked : Env → Text → Bool → Action Bool
starting_for_locked env attempt starting e =
    if not (platform_attempt_accepts_updates e.inner attempt)
    then (ok false, e)
    else if starting && not (is_pending e.inner.platform_start_outcome)
    then (ok false, e)
    else (do change (start_flag starting); persist_platform env; return true) e

unfoldable pub set_platform_vpn_starting_for_attempt : Env → Text → Bool → Action Bool
set_platform_vpn_starting_for_attempt env attempt starting =
    under_lock env (starting_for_locked env attempt starting)

unfoldable pub set_platform_vpn_running : Env → Bool → Action (Unit {0})
set_platform_vpn_running env running =
    under_lock env (do change (apply_platform_vpn_running env running); persist_platform env)

unfoldable pub set_platform_vpn_failed : Env → Text → Action (Unit {0})
set_platform_vpn_failed env error =
    under_lock env (do change (apply_platform_vpn_failed env error); persist_platform env)

abbrev failed_for_locked : Env → Text → Text → Action Bool
failed_for_locked env attempt error e =
    if platform_attempt_accepts_updates e.inner attempt
    then (do change (apply_platform_vpn_failed env error); persist_platform env; return true) e
    else (ok false, e)

unfoldable pub set_platform_vpn_failed_for_attempt : Env → Text → Text → Action Bool
set_platform_vpn_failed_for_attempt env attempt error =
    under_lock env (failed_for_locked env attempt error)

abbrev pub startup_timed_out : Text
startup_timed_out = codes "VPN extension startup timed out"

abbrev pub expired_start : Inner → Inner
expired_start i = set_lifecycle failed (some startup_timed_out) (record i {
  platform_vpn_starting = false;
  platform_session_handoff = none;
  platform_browser_request = none;
  platform_start_outcome = settle PlatformStartOutcome.failed i.platform_start_outcome;
  pending_native = false;
})

abbrev expire_locked : Env → Action Bool
expire_locked env e =
    if not e.inner.platform_vpn_starting || e.inner.platform_vpn_running
    then (ok false, e)
    else if is_present e.inner.running_native
    then (ok false, e)
    else (do change expired_start; persist_platform env; return true) e

unfoldable pub expire_platform_vpn_start : Env → Action Bool
expire_platform_vpn_start env = under_lock env (expire_locked env)

abbrev pub is_handoff_of : Text → Option SessionHandoff → Bool
is_handoff_of attempt none = false
is_handoff_of attempt (some handoff) = text_eq handoff.attempt_id attempt

unfoldable pub clear_platform_session_handoff : Env → Text → Action (Unit {0})
clear_platform_session_handoff env attempt e =
    if is_handoff_of attempt e.inner.platform_session_handoff
    then (do change (λ i. record i { platform_session_handoff = none }); persist_platform env) e
    else (ok tt, e)
