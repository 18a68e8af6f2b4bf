-- ===== src/Log/Recorded/Bounds.antt =====
-- The recorded lines are bounded, and there are none without a session.
use h_openconnect.Base.{
  ◌+◌, ◌≤◌, ◌≡◌, refl, arith, true, List, [], ◌∷◌, length, drop, length-append, leb, leb_false→lt,
  Bool-cases, ◌⊎◌, inl, inr,
}
use h_openconnect.Log.{DiagnosticEntry}
use h_openconnect.Log.Recorded.{
  Recording, RecordedLogBuffer, new, sync_session, push, clear, push_synced, bounded_push, is_some,
  session_eq, max_in_memory_logs, active_session_id,
}

-- The buffers that calls of the methods lead to.
pub data Reached : RecordedLogBuffer → Type 0 where
  started : Reached new
  synced : {b : RecordedLogBuffer} (disk : Recording) → Reached b → Reached (sync_session disk b)
  pushed :
      {b : RecordedLogBuffer} (disk : Recording) (e : DiagnosticEntry)
      → Reached b
      → Reached (push disk e b)
  cleared : {b : RecordedLogBuffer} → Reached b → Reached (clear b)

abbrev pub Bounded : RecordedLogBuffer → Type 0
Bounded b =
    (length b.entries ≤ max_in_memory_logs) × ((is_some b.session_id ≡ true) ⊎ (b.entries ≡ []))

length-drop_1 :
    (es : List DiagnosticEntry)
    → length es ≤ max_in_memory_logs
    → length (drop 1 es) + 1 ≤ max_in_memory_logs
length-drop_1 [] h = omega arith
length-drop_1 (e ∷ es) h = omega (arith, h)

length-bounded_push :
    (e : DiagnosticEntry) (es : List DiagnosticEntry)
    → length es ≤ max_in_memory_logs
    → length (bounded_push e es) ≤ max_in_memory_logs
length-bounded_push e es h = elim (Bool-cases (leb max_in_memory_logs (length es))) [
  | inl t ↦ rw t (omega (arith, length-drop_1 es h, length-append (drop 1 es) (e ∷ [])))
  | inr t ↦
      rw t (omega (arith, leb_false→lt max_in_memory_logs (length es) t, length-append es (e ∷ [])))
]

sync-Bounded :
    (disk : Recording) (b : RecordedLogBuffer) → Bounded b → Bounded (sync_session disk b)
unfolding sync_session
sync-Bounded disk b h =
    elim (Bool-cases (session_eq (active_session_id disk.marker) b.session_id)) [
      | inl t ↦ rw t h
      | inr t ↦ rw t (omega arith, inr refl)
    ]

push_synced-Bounded :
    (e : DiagnosticEntry) (b : RecordedLogBuffer) → Bounded b → Bounded (push_synced e b)
push_synced-Bounded e b h = elim (Bool-cases (is_some b.session_id)) [
  | inl t ↦ rw t (length-bounded_push e b.entries h.0, inl t)
  | inr t ↦ rw t h
]

-- Whatever the disk answers, at most 256 lines are kept, and none while no session is active.
pub Reached-Bounded : (b : RecordedLogBuffer) → Reached b → Bounded b
unfolding new push clear
Reached-Bounded _ started = (omega arith, inr refl)
Reached-Bounded _ (synced {b} disk r) = sync-Bounded disk b (Reached-Bounded b r)
Reached-Bounded _ (pushed {b} disk e r) =
    push_synced-Bounded e (sync_session disk b) (sync-Bounded disk b (Reached-Bounded b r))
Reached-Bounded _ (cleared {b} r) = (omega arith, inr refl)
