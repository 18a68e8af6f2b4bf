-- ===== src/Log/Runtime.antt =====
-- `RuntimeLogBuffer` of crates/hopenconnect_core/src/log_recording.rs: lines captured before and
-- during a recording, with what `sync` wrote to the file. A call's `Recording` is what the disk
-- answers, `writes` which lines the appender accepts; times and numbers are u128 and u64.
pub mod Keeps
use Prim.Native.Nat.{min}
use h_openconnect.Base.{
  ℕ, ◌+◌, ◌-◌, ◌^◌, leb, ltb, Bool, true, false, ◌&&◌, Option, none, some, List, [], ◌∷◌, ◌++◌,
  if◌then◌else◌, length, drop, filter, Text, parse_unsigned,
}
use h_openconnect.Log.{DiagnosticEntry}
use h_openconnect.Log.Recorded.{
  Recording, max_in_memory_logs, active_session_id, session_eq, is_some, appender_for,
}

abbrev pub max_pending_runtime_logs : ℕ
max_pending_runtime_logs = 4096

pub record CapturedRuntimeLog : Type 0 where
  pub sequence : ℕ
  pub captured_at : ℕ
  pub entry : DiagnosticEntry

pub record RuntimeLogBuffer : Type 0 where
  pub session_id : Option Text
  pub appender : Bool
  pub entries : List CapturedRuntimeLog
  pub next_sequence : ℕ
  pub persisted_sequence : ℕ

unfoldable pub default_buffer : RuntimeLogBuffer
default_buffer = record {
  session_id = none;
  appender = false;
  entries = [];
  next_sequence = 1;
  persisted_sequence = 0;
}

unfoldable pub capture : ℕ → DiagnosticEntry → RuntimeLogBuffer → RuntimeLogBuffer
capture now entry b =
    let es =
      if leb max_pending_runtime_logs (length b.entries) then drop 1 b.entries else b.entries in
    record b {
      next_sequence = min (b.next_sequence + 1) (2 ^ 64 - 1);
      entries =
          es ++ (record { sequence = b.next_sequence; captured_at = now; entry = entry } ∷ []);
    }

-- `unwrap_or(u128::MAX)` on the session's start time, the marker's text.
abbrev pub started_at : Option Text → ℕ
started_at none = 2 ^ 128 - 1
started_at (some id) = elim (parse_unsigned (2 ^ 128 - 1) id) [ none ↦ 2 ^ 128 - 1 | some t ↦ t ]

abbrev pub since : ℕ → List CapturedRuntimeLog → List CapturedRuntimeLog
since t es = filter (λ c. leb t (CapturedRuntimeLog.captured_at c)) es

-- A session other than the last one begins with the lines captured since it started.
unfoldable pub adopt_session : Recording → RuntimeLogBuffer → RuntimeLogBuffer
unfolding active_session_id
adopt_session disk b =
    let id = active_session_id disk.marker in
    if session_eq id b.session_id then b else record b {
      session_id = id;
      appender = appender_for id disk.builds;
      entries = since (started_at id) b.entries;
      persisted_sequence = 0;
    }

-- The last number written when the lines are written in order up to the first failure.
unfoldable pub persist : (CapturedRuntimeLog → Bool) → ℕ → List CapturedRuntimeLog → ℕ
persist writes last [] = last
persist writes last (c ∷ cs) =
    let rest = persist writes c.sequence cs in if writes c then rest else last

abbrev pub unwritten : ℕ → List CapturedRuntimeLog → List CapturedRuntimeLog
unwritten last es = filter (λ c. ltb last (CapturedRuntimeLog.sequence c)) es

-- Written lines leave from the front while there are too many.
unfoldable pub trim_written : ℕ → List CapturedRuntimeLog → List CapturedRuntimeLog
trim_written last [] = []
trim_written last (c ∷ cs) =
    let rest = trim_written last cs in
    if ltb max_in_memory_logs (length (c ∷ cs)) && leb c.sequence last then rest else c ∷ cs

unfoldable pub write_pending : (CapturedRuntimeLog → Bool) → RuntimeLogBuffer → RuntimeLogBuffer
unfolding persist trim_written
write_pending writes b =
    let last = persist writes b.persisted_sequence (unwritten b.persisted_sequence b.entries) in
    record b { persisted_sequence = last; entries = trim_written last b.entries }

unfoldable pub sync : Recording → (CapturedRuntimeLog → Bool) → RuntimeLogBuffer → RuntimeLogBuffer
unfolding adopt_session write_pending
sync disk writes b =
    let s = adopt_session disk b in
    if is_some s.session_id
    then (if s.appender then write_pending writes s else s)
    else record s { entries = []; persisted_sequence = 0; appender = false }

unfoldable pub clear : RuntimeLogBuffer → RuntimeLogBuffer
clear b = record b { entries = []; persisted_sequence = 0 }
