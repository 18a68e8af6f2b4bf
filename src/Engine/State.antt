-- ===== src/Engine/State.antt =====
-- The state behind the lock of `SessionEngine`, crates/hopenconnect_core/src/engine.rs. Left out are
-- the profile store, the preferences and the last options, which the platform half does not read.
-- A session of the native library is present or not; a running one has its attempt and generation.
use Prim.Native.Nat.{min}
use h_openconnect.Base.{ℕ, ◌+◌, ◌-◌, ◌^◌, Bool, true, false, Option, List, Text}
use h_openconnect.Model.Lifecycle.{ConnectionLifecycle, disconnected}
use h_openconnect.Base.{none, [], codes}
use h_openconnect.Base.Int.{pos}
use h_openconnect.Model.Network.{SessionStats, NetworkSnapshot}
use h_openconnect.Log.{DiagnosticEntry}
use h_openconnect.Log.Recorded.{RecordedLogBuffer, Recording}
use h_openconnect.Bridge.State.{PlatformStartOutcome, SessionHandoff, BrowserOpenRequest}
use h_openconnect.Bridge.Envelope.{PlatformEnvelope}
use h_openconnect.Owner.Record.{PlatformVpnOwnerLeaseRecord, OwnerError}
use h_openconnect.Owner.Storage.{Entry}

-- The part of `SessionSnapshot` that a session changes.
pub record SessionSnapshot : Type 0 where
  pub lifecycle : ConnectionLifecycle
  pub stats : SessionStats
  pub network : NetworkSnapshot
  pub last_error : Option Text
  pub diagnostics : List DiagnosticEntry

pub record RunningNativeSession : Type 0 where
  pub attempt_id : Text
  pub generation : ℕ  -- u64

-- Instants of the monotonic clock are in milliseconds.
pub record Inner : Type 0 where
  pub snapshot : SessionSnapshot
  pub connected_at : Option ℕ
  pub dry_run : Bool
  pub generation : ℕ  -- u64
  pub platform_vpn_running : Bool
  pub platform_vpn_starting : Bool
  pub platform_start_sequence : ℕ  -- u64
  pub platform_vpn_intent_epoch : ℕ  -- u64
  pub platform_os_stop_epoch : ℕ  -- u64
  pub platform_os_stop_attempt_id : Text
  pub platform_os_stop_in_flight : Bool
  pub platform_start_attempt_id : Text
  pub platform_start_outcome : PlatformStartOutcome
  pub platform_start_delivery_observed : Bool
  pub platform_extension_attached : Bool
  pub platform_stop_requested : Bool
  pub platform_extension_owner_pid : ℕ  -- u32
  pub platform_extension_owner_start_time : ℕ  -- u64
  pub platform_vpn_cleanup_complete : Bool
  pub platform_vpn_issuer_lease : Option PlatformVpnOwnerLeaseRecord
  pub platform_vpn_extension_lease : Option PlatformVpnOwnerLeaseRecord
  pub platform_watchdog_cleanup_recoverable : Bool
  pub platform_session_handoff : Option SessionHandoff
  pub platform_browser_request : Option BrowserOpenRequest
  pub platform_browser_request_sequence : ℕ  -- u64
  pub last_platform_browser_request_id : Text
  pub platform_local_state_updated_at : ℕ  -- u128
  pub platform_remote_state_updated_at : ℕ  -- u128
  pub platform_remote_state_seen_at : Option ℕ
  pub platform_remote_stale_since : Option ℕ
  pub logs : RecordedLogBuffer
  pub platform_diagnostics : List DiagnosticEntry
  pub pending_native : Bool
  pub running_native : Option RunningNativeSession

pub record PlatformStartEvent : Type 0 where
  pub attempt_id : Text
  pub outcome : PlatformStartOutcome
  pub delivery_observed : Bool
  pub extension_attached : Bool
  pub cleanup_complete : Bool
  pub error : Option Text

-- The shared memory as its process has bound it: what it published, and the newest frame that the
-- other process can read in its lane.
pub record PlatformIpc : Type 0 where
  pub is_ui : Bool
  pub published : PlatformEnvelope
  pub lane : Option PlatformEnvelope

-- `start_event` is the value of the channel `platform_start_tx`; `journal` is the owner journal's file.
pub record SessionEngine : Type 0 where
  pub inner : Inner
  pub platform_ipc : Option PlatformIpc
  pub start_event : PlatformStartEvent
  pub journal : Entry

-- A publication can fail before the frame is written, or when the peer is notified after it.
pub data PublishOutcome : Type 0 where
  published not_written not_notified : PublishOutcome

-- What `read_remote` answers.
pub data RemoteRead : Type 0 where
  read_failed no_frame : RemoteRead
  frame : PlatformEnvelope → RemoteRead

-- What one call under the lock gets from its environment: the clocks, the log marker on disk, the
-- lines of the process, and the answers of the shared memory.
pub record Env : Type 0 where
  pub now : ℕ
  pub now_nanos : ℕ
  pub now_millis : ℕ
  pub disk : Recording
  pub runtime_logs : List DiagnosticEntry
  pub publish : PublishOutcome
  pub remote : RemoteRead

abbrev pub no_stats : SessionStats
no_stats = record {
  bytes_sent = 0;
  bytes_received = 0;
  packets_sent = 0;
  packets_received = 0;
  connected_seconds = 0;
  assigned_ip = codes "";
  gateway = codes "";
  mtu = 0;
}

abbrev pub no_network : NetworkSnapshot
no_network = record {
  address = none;
  netmask = none;
  address_v6 = none;
  netmask_v6 = none;
  gateway = none;
  dns = [];
  mtu = pos 0;
  routes = [];
  split_excludes = [];
  domain = none;
  split_dns = [];
}

abbrev pub new_inner : Inner
new_inner = record {
  snapshot = record {
    lifecycle = disconnected;
    stats = no_stats;
    network = no_network;
    last_error = none;
    diagnostics = [];
  };
  connected_at = none;
  dry_run = false;
  generation = 0;
  platform_vpn_running = false;
  platform_vpn_starting = false;
  platform_start_sequence = 0;
  platform_vpn_intent_epoch = 0;
  platform_os_stop_epoch = 0;
  platform_os_stop_attempt_id = [];
  platform_os_stop_in_flight = false;
  platform_start_attempt_id = [];
  platform_start_outcome = PlatformStartOutcome.idle;
  platform_start_delivery_observed = false;
  platform_extension_attached = false;
  platform_stop_requested = false;
  platform_extension_owner_pid = 0;
  platform_extension_owner_start_time = 0;
  platform_vpn_cleanup_complete = false;
  platform_vpn_issuer_lease = none;
  platform_vpn_extension_lease = none;
  platform_watchdog_cleanup_recoverable = false;
  platform_session_handoff = none;
  platform_browser_request = none;
  platform_browser_request_sequence = 0;
  last_platform_browser_request_id = [];
  platform_local_state_updated_at = 0;
  platform_remote_state_updated_at = 0;
  platform_remote_state_seen_at = none;
  platform_remote_stale_since = none;
  logs = record { session_id = none; appender = false; entries = [] };
  platform_diagnostics = [];
  pending_native = false;
  running_native = none;
}

-- `SessionEngine::new`, over the journal that it finds.
abbrev pub new : Entry → SessionEngine
new journal = record {
  inner = new_inner;
  platform_ipc = none;
  start_event = record {
    attempt_id = [];
    outcome = PlatformStartOutcome.idle;
    delivery_observed = false;
    extension_attached = false;
    cleanup_complete = false;
    error = none;
  };
  journal = journal;
}

-- What the error messages tell apart.
pub data EngineError : Type 0 where
  owner : OwnerError → EngineError
  ipc empty_attempt stale_attempt already_terminal no_ui_state superseded epoch_exhausted
        stop_in_flight stop_pending start_pending cleanup_pending already_connected owner_pending
        journal_missing journal_other invalid_phase lease_released lease_unknown lease_held
        lease_missing owner_mismatch journal_changed state_mismatch owner_changed only_in_extension
        only_from_extension not_attached empty_uri no_attempt no_owner already_busy session_active
        stale_generation native :
      EngineError

pub data CoreResult (A : Type 0) : Type 0 where
  ok : A → CoreResult A
  err : EngineError → CoreResult A

-- A method under the lock: a result, and the engine afterwards, which keeps what was changed before a
-- failure.
abbrev pub Action : Type 0 → Type 0
Action A = SessionEngine → CoreResult A × SessionEngine

abbrev pub continue :
    {A B : Type 0} → CoreResult A × SessionEngine → (A → Action B) → CoreResult B × SessionEngine
continue (ok a, e) f = f a e
continue (err x, e) f = (err x, e)

infixl 5 ◌>>=◌ ◌>>◌
unfoldable pub ◌>>=◌ : {A B : Type 0} → Action A → (A → Action B) → Action B
◌>>=◌ m f e = continue (m e) f

abbrev pub ◌>>◌ : {B : Type 0} → Action (Unit {0}) → Action B → Action B
m >> k = m >>= λ _. k

abbrev pub return : {A : Type 0} → A → Action A
return a e = (ok a, e)

abbrev pub fail : {A : Type 0} → EngineError → Action A
fail x e = (err x, e)

-- A change of the state that cannot fail.
abbrev pub change : (Inner → Inner) → Action (Unit {0})
change f e = (ok tt, record e { inner = f e.inner })

abbrev pub run : (SessionEngine → SessionEngine) → Action (Unit {0})
run f e = (ok tt, f e)

abbrev pub guard : Bool → EngineError → Action (Unit {0})
guard true x e = (ok tt, e)
guard false x e = (err x, e)

-- `saturating_add(1)` at a width.
abbrev pub saturating_suc : ℕ → ℕ → ℕ
saturating_suc width n = min (n + 1) (2 ^ width - 1)
