-- ===== src/Engine/Envelope/Journal.antt =====
-- The owner journal and the frames: `sync_platform_locked` of
-- crates/hopenconnect_core/src/engine/platform.rs.
use h_openconnect.Base.{
  ◌≡◌, refl, Bool, true, false, Option, none, some, Text, Bool-cases, inl, inr, ◌&&◌, not,
}
use h_openconnect.Bridge.State.{PlatformVpnState}
use h_openconnect.Bridge.Envelope.{PlatformEnvelope}
use h_openconnect.Engine.State.{Inner, SessionEngine, PlatformIpc, RemoteRead, Env}
use h_openconnect.Engine.Publish.{notify_platform_start}
use h_openconnect.Engine.Publish.Frames.{persist-journal}
use h_openconnect.Engine.Envelope.{
  fail_heartbeat, after_observation, accept_frame, apply_state, apply_present,
  apply_platform_envelope, sync_read, sync_on, sync_platform, synced, remote_attempt_matches,
  adopts_attempt,
}

module _ (env : Env) where
  observed-journal :
      (is_ui : Bool) (remote : PlatformVpnState) (advanced adopted : Bool) (r : Bool × Inner)
      (e : SessionEngine)
      → (after_observation env is_ui remote advanced adopted r e).journal ≡ e.journal
  unfolding fail_heartbeat notify_platform_start
  observed-journal is_ui remote advanced adopted (true, k) e = persist-journal env _
  observed-journal is_ui remote advanced adopted (false, k) e =
      elim (Bool-cases (not advanced && not adopted)) [ inl t ↦ rw t refl | inr t ↦ rw t refl ]

  present-journal :
      (is_ui : Bool) (expected : Option Text) (o : Option PlatformVpnState) (e : SessionEngine)
      → (apply_present env is_ui expected o e).journal ≡ e.journal
  unfolding apply_state accept_frame
  present-journal is_ui expected none e = refl
  present-journal is_ui expected (some remote) e =
      elim (Bool-cases (
        not (remote_attempt_matches remote e.inner)
        && not (adopts_attempt is_ui expected remote e.inner))) [
          | inl t ↦ rw t refl
          | inr t ↦ rw t (observed-journal is_ui remote _ _ _ e)
        ]

  frame-journal :
      (is_ui : Bool) (envelope : PlatformEnvelope) (e : SessionEngine)
      → (apply_platform_envelope env is_ui none envelope e).1.journal ≡ e.journal
  unfolding apply_platform_envelope
  frame-journal true envelope e = present-journal true none envelope.state e
  frame-journal false envelope e = present-journal false none envelope.state _

  read-journal :
      (is_ui : Bool) (r : RemoteRead) (e : SessionEngine)
      → (sync_read env is_ui none r e).1.journal ≡ e.journal
  read-journal is_ui RemoteRead.no_frame e = refl
  read-journal is_ui RemoteRead.read_failed e = refl
  read-journal is_ui (RemoteRead.frame envelope) e = frame-journal is_ui envelope e

  on-journal :
      (o : Option PlatformIpc) (e : SessionEngine) → (sync_on env none o e).1.journal ≡ e.journal
  on-journal none e = refl
  on-journal (some ipc) e = read-journal ipc.is_ui env.remote e

  pub sync-journal : (e : SessionEngine) → (synced env e).journal ≡ e.journal
  unfolding sync_platform
  sync-journal e = on-journal e.platform_ipc e
