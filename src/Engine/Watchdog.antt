-- ===== src/Engine/Watchdog.antt =====
-- `heartbeat_watchdog_expired` of crates/hopenconnect_core/src/engine/platform.rs: the app's verdict
-- on an Extension whose frames have stopped.
pub mod Grace
use h_openconnect.Base.{
  ℕ, ◌-◌, leb, Bool, false, ◌&&◌, ◌||◌, not, Option, none, some, if◌then◌else◌,
}
use h_openconnect.Engine.State.{Inner}

-- Milliseconds.
abbrev pub heartbeat_stale_after : ℕ
heartbeat_stale_after = 15000

abbrev pub heartbeat_wake_grace : ℕ
heartbeat_wake_grace = 6000

-- `duration_since` stops at 0.
abbrev pub seen_long_ago : ℕ → Option ℕ → Bool
seen_long_ago now none = false
seen_long_ago now (some seen) = leb heartbeat_stale_after (now - seen)

abbrev pub get_or_insert : ℕ → Option ℕ → ℕ
get_or_insert now none = now
get_or_insert now (some t) = t

unfoldable pub heartbeat_frozen : Inner → ℕ → Bool → Bool → Bool → Bool → Bool
heartbeat_frozen i now is_ui remote_running remote_attempt_matches remote_advanced =
    is_ui
    && i.platform_vpn_running
    && remote_running
    && remote_attempt_matches
    && not remote_advanced
    && seen_long_ago now i.platform_remote_state_seen_at

unfoldable pub heartbeat_watchdog_expired : Inner → ℕ → Bool → Bool → Bool → Bool → Bool × Inner
heartbeat_watchdog_expired i now is_ui remote_running remote_attempt_matches remote_advanced =
    let stale_since = get_or_insert now i.platform_remote_stale_since in
    if heartbeat_frozen i now is_ui remote_running remote_attempt_matches remote_advanced
    then (
      leb heartbeat_wake_grace (now - stale_since),
      record i { platform_remote_stale_since = some stale_since },
    )
    else (
      false,
      (if not remote_running || remote_advanced
          then record i { platform_remote_stale_since = none }
          else i),
    )
