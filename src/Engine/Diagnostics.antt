-- ===== src/Engine/Diagnostics.antt =====
-- The log lines of an engine: `push_diag_locked` of crates/hopenconnect_core/src/engine.rs and
-- `merged_logs`, `merge_platform_logs` of engine/logging.rs.
use h_openconnect.Base.{
  ◌-◌, ◌/◌, ◌^◌, Bool, ◌&&◌, Option, List, [], ◌∷◌, ◌++◌, if◌then◌else◌, length, drop, any, Text,
  text_eq, decimal,
}
use h_openconnect.Model.Lifecycle.{ConnectionLifecycle}
use h_openconnect.Log.{DiagnosticEntry}
use h_openconnect.Log.Recorded.{max_in_memory_logs, push, enabled}
use h_openconnect.Engine.State.{Inner, Env}

-- The last lines of the session, then the last of the process while there is room.
unfoldable pub merged_logs : List DiagnosticEntry → List DiagnosticEntry → List DiagnosticEntry
merged_logs state_logs runtime_logs =
    let logs = drop (length state_logs - max_in_memory_logs) state_logs in
    logs ++ drop (length runtime_logs - (max_in_memory_logs - length logs)) runtime_logs

abbrev pub same_entry : DiagnosticEntry → DiagnosticEntry → Bool
same_entry a b =
    text_eq a.level b.level && text_eq a.message b.message && text_eq a.timestamp b.timestamp

unfoldable pub add_missing : List DiagnosticEntry → List DiagnosticEntry → List DiagnosticEntry
add_missing local [] = local
add_missing local (entry ∷ rest) =
    add_missing
      (if any (λ existing. same_entry existing entry) local then local else local ++ (entry ∷ []))
      rest

unfoldable pub merge_platform_logs :
    List DiagnosticEntry → List DiagnosticEntry → List DiagnosticEntry
merge_platform_logs local platform =
    let all = add_missing local platform in drop (length all - max_in_memory_logs) all

-- `now_timestamp`: whole seconds.
abbrev pub now_timestamp : Env → Text
now_timestamp env = decimal (env.now_nanos / 10 ^ 9)

abbrev pub set_lifecycle : ConnectionLifecycle → Option Text → Inner → Inner
set_lifecycle lifecycle error i = record i {
  snapshot = record (i.snapshot) { lifecycle = lifecycle; last_error = error };
}

-- The line that is recorded, and what the snapshot shows then.
abbrev pub logged : Env → Text → Text → Inner → Inner
logged env level message i =
    let logs =
      push env.disk (record { level = level; message = message; timestamp = now_timestamp env })
        i.logs in
    let shown =
      if enabled logs then merged_logs logs.entries env.runtime_logs else i.snapshot.diagnostics in
    record i { logs = logs; snapshot = record (i.snapshot) { diagnostics = shown } }

unfoldable pub push_diag : Env → Text → Text → Inner → Inner
push_diag env level message i = logged env level message i
