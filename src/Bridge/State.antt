-- ===== src/Bridge/State.antt =====
-- crates/hopenconnect_core/src/platform_state.rs: the payloads in the shared memory. The clocks are
-- arguments, in nanoseconds (u128) and milliseconds (u64) since the epoch.
use h_openconnect.Base.{
  ℕ, ◌-◌, ◌*◌, leb, ltb, Bool, ◌&&◌, not, Option, List, is_empty, Text, text_eq,
}
use h_openconnect.Model.Lifecycle.{ConnectionLifecycle}
use h_openconnect.Model.Network.{NetworkSnapshot, SessionStats}
use h_openconnect.Model.Options.{VpnOptions}
use h_openconnect.Log.{DiagnosticEntry}

pub data PlatformStartOutcome : Type 0 where
  idle pending connected failed cancelled : PlatformStartOutcome

abbrev pub session_handoff_max_age_nanos : ℕ
session_handoff_max_age_nanos = 10 * 60 * 1000000000

abbrev pub browser_request_max_age_millis : ℕ
browser_request_max_age_millis = 2 * 60 * 1000

pub record SessionHandoff : Type 0 where
  pub attempt_id : Text
  pub options : VpnOptions
  pub network : NetworkSnapshot
  pub updated_at : ℕ

-- `saturating_sub` is the subtraction on ℕ.
unfoldable pub is_valid_handoff : ℕ → SessionHandoff → Text → Bool
is_valid_handoff now h attempt =
    not (is_empty attempt)
    && text_eq h.attempt_id attempt
    && ltb 0 h.updated_at
    && leb (now - h.updated_at) session_handoff_max_age_nanos

pub record BrowserOpenRequest : Type 0 where
  pub request_id : Text
  pub attempt_id : Text
  pub uri : Text
  pub requested_at_ms : ℕ

unfoldable pub is_valid_request : ℕ → BrowserOpenRequest → Text → Bool
is_valid_request now r attempt =
    not (is_empty r.request_id)
    && not (is_empty attempt)
    && text_eq r.attempt_id attempt
    && ltb 0 r.requested_at_ms
    && leb (now - r.requested_at_ms) browser_request_max_age_millis

pub record PlatformVpnState : Type 0 where
  pub start_attempt_id : Text
  pub start_outcome : PlatformStartOutcome
  pub delivery_observed : Bool
  pub extension_attached : Bool
  pub stop_requested : Bool
  pub extension_owner_pid : ℕ
  pub extension_owner_start_time : ℕ
  pub cleanup_complete : Bool
  pub starting : Bool
  pub running : Bool
  pub lifecycle : ConnectionLifecycle
  pub last_error : Option Text
  pub assigned_ip : Text
  pub gateway : Text
  pub mtu : ℕ
  pub network : NetworkSnapshot
  pub stats : SessionStats
  pub diagnostics : List DiagnosticEntry
  pub updated_at : ℕ
