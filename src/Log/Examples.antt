-- ===== src/Log/Examples.antt =====
-- The theorems on the log buffers at a recording of the session 1000.
use h_openconnect.Base.{ℕ, ◌==◌, Bool, true, some, [], ◌∷◌, codes}
use h_openconnect.Log.{DiagnosticEntry}
use h_openconnect.Log.Recorded.{Recording, new, push}
use h_openconnect.Log.Recorded.Bounds.{started, pushed, Bounded, Reached-Bounded}
use h_openconnect.Log.Runtime.{CapturedRuntimeLog, RuntimeLogBuffer}

abbrev disk : Recording
disk = record { marker = some (codes "1000\n"); builds = true }

abbrev line : DiagnosticEntry
line = record { level = codes "info"; message = codes "up"; timestamp = codes "12:00" }

Reached-Bounded_example : Bounded (push disk line new)
Reached-Bounded_example = Reached-Bounded (push disk line new) (pushed disk line started)

abbrev captured : ℕ → CapturedRuntimeLog
captured n = record { sequence = n; captured_at = 2000; entry = line }

abbrev buffer : RuntimeLogBuffer
buffer = record {
  session_id = some (codes "1000");
  appender = true;
  entries = captured 1 ∷ captured 2 ∷ [];
  next_sequence = 3;
  persisted_sequence = 0;
}

-- The appender takes the first line only.
abbrev first_only : CapturedRuntimeLog → Bool
first_only c = c.sequence == 1
