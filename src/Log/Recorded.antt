-- ===== src/Log/Recorded.antt =====
-- `RecordedLogBuffer` of crates/hopenconnect_core/src/log_recording.rs. `Recording` is what the disk
-- answers during one call: the session id in the marker file, and whether the appender can be built.
-- Failed writes to the file are ignored by the code and not modelled here.
pub mod Bounds
use h_openconnect.Base.{
  ℕ, leb, Bool, true, false, Option, none, some, List, [], ◌∷◌, ◌++◌, if◌then◌else◌, length, drop,
  Text, text_eq, trim, is_empty,
}
use h_openconnect.Log.{DiagnosticEntry}

abbrev pub max_in_memory_logs : ℕ
max_in_memory_logs = 256

-- The marker's text, if it can be read; whether `build_daily_appender` succeeds.
pub record Recording : Type 0 where
  pub marker : Option Text
  pub builds : Bool

abbrev pub non_empty : Text → Option Text
non_empty s = if is_empty s then none else some s

unfoldable pub active_session_id : Option Text → Option Text
unfolding trim
active_session_id none = none
active_session_id (some value) = non_empty (trim value)

abbrev pub session_eq : Option Text → Option Text → Bool
session_eq none none = true
session_eq none (some b) = false
session_eq (some a) none = false
session_eq (some a) (some b) = text_eq a b

abbrev pub is_some : Option Text → Bool
is_some none = false
is_some (some s) = true

-- The appender is there exactly when a session is active and it could be built.
abbrev pub appender_for : Option Text → Bool → Bool
appender_for none builds = false
appender_for (some id) builds = builds

pub record RecordedLogBuffer : Type 0 where
  pub session_id : Option Text
  pub appender : Bool
  pub entries : List DiagnosticEntry

unfoldable pub new : RecordedLogBuffer
new = record { session_id = none; appender = false; entries = [] }

unfoldable pub sync_session : Recording → RecordedLogBuffer → RecordedLogBuffer
unfolding active_session_id
sync_session disk b =
    let id = active_session_id disk.marker in
    if session_eq id b.session_id
    then b
    else record { session_id = id; appender = appender_for id disk.builds; entries = [] }

-- `remove(0)` when the buffer is full, then `push`.
abbrev pub bounded_push : DiagnosticEntry → List DiagnosticEntry → List DiagnosticEntry
bounded_push entry es =
    (if leb max_in_memory_logs (length es) then drop 1 es else es) ++ (entry ∷ [])

abbrev pub push_synced : DiagnosticEntry → RecordedLogBuffer → RecordedLogBuffer
push_synced entry b =
    if is_some b.session_id then record b { entries = bounded_push entry b.entries } else b

unfoldable pub push : Recording → DiagnosticEntry → RecordedLogBuffer → RecordedLogBuffer
unfolding sync_session
push disk entry b = push_synced entry (sync_session disk b)

unfoldable pub clear : RecordedLogBuffer → RecordedLogBuffer
clear b = record b { entries = [] }

unfoldable pub enabled : RecordedLogBuffer → Bool
enabled b = is_some b.session_id
