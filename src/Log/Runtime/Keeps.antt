-- ===== src/Log/Runtime/Keeps.antt =====
-- `RuntimeLogBuffer::sync` of crates/hopenconnect_core/src/log_recording.rs, when the appender refuses
-- lines and when it takes them all.
use h_openconnect.Base.{ℕ, ◌≤◌, ◌<◌, ◌≡◌, true, List, [], ◌∷◌, ◌++◌, length, ◌⊎◌, All}
use h_openconnect.Log.Recorded.{
  Recording, session_eq, active_session_id, is_some, max_in_memory_logs,
}
use h_openconnect.Log.Runtime.{CapturedRuntimeLog, RuntimeLogBuffer}

-- Lines are numbered upwards, as `capture` does it.
abbrev pub Increasing : List CapturedRuntimeLog → Type 0
Increasing [] = Unit
Increasing (c ∷ cs) = All (λ (d : CapturedRuntimeLog). c.sequence < d.sequence) cs × Increasing cs

-- The list ends with these lines.
abbrev pub EndsWith : List CapturedRuntimeLog → List CapturedRuntimeLog → Type 0
EndsWith tail es = (pre : List CapturedRuntimeLog) × (es ≡ pre ++ tail)

-- The call is made in the session that the buffer is in, with an appender.
pub record InSession (disk : Recording) (b : RuntimeLogBuffer) : Type 0 where
  pub same : session_eq (active_session_id disk.marker) b.session_id ≡ true
  pub active : is_some b.session_id ≡ true
  pub appends : b.appender ≡ true

-- What `trim_written` leaves is within the bound, or begins with a line that is not written.
abbrev Trimmed : ℕ → List CapturedRuntimeLog → Type 0
Trimmed last [] = Unit
Trimmed last (c ∷ cs) = (length (c ∷ cs) ≤ max_in_memory_logs) ⊎ (last < c.sequence)

abbrev pub Written : ℕ → List CapturedRuntimeLog → Type 0
Written last es = All (λ (c : CapturedRuntimeLog). c.sequence ≤ last) es
