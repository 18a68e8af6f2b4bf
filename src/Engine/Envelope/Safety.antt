-- ===== src/Engine/Envelope/Safety.antt =====
-- The frames of the other process against what must not be lost:
-- `apply_platform_envelope_locked` of crates/hopenconnect_core/src/engine/platform.rs.
use h_openconnect.Base.{codes, ◌≡◌, refl, Bool, true, false, Option, none, some, arith, Text}
use h_openconnect.Bridge.State.{PlatformVpnState}
use h_openconnect.Bridge.Envelope.{PlatformEnvelope}
use h_openconnect.Engine.State.{Inner, SessionEngine, PlatformIpc, RemoteRead, Env}
use h_openconnect.Engine.Diagnostics.{push_diag}
use h_openconnect.Engine.Browser.{acknowledge_platform_browser_request}
use h_openconnect.Engine.Envelope.{
  read_failed_line, adopts_attempt, apply_present, apply_platform_envelope, acknowledged, sync_read,
  sync_on, sync_platform, synced,
}
use h_openconnect.Engine.Envelope.Rules.{Ended, Settled}
use h_openconnect.Engine.Envelope.Laws.{
  apply_state-Applied, Applied-Settled, Applied-Ended, Applied-stop, Applied-attempt,
}

module _ (env : Env) (expected : Option Text) where
  present-Settled :
      (is_ui : Bool) (o : Option PlatformVpnState) (e : SessionEngine)
      → Settled e.inner
      → Settled (apply_present env is_ui expected o e).inner
  present-Settled is_ui none e s = s
  present-Settled is_ui (some remote) e s =
      Applied-Settled env is_ui expected remote e (apply_state-Applied env is_ui expected remote e)
        s

  present-Ended :
      (is_ui : Bool) (o : Option PlatformVpnState) (e : SessionEngine)
      → (apply_present env is_ui expected o e).inner.platform_start_attempt_id
        ≡ e.inner.platform_start_attempt_id
      → Ended e.inner
      → Ended (apply_present env is_ui expected o e).inner
  present-Ended is_ui none e p s = s
  present-Ended is_ui (some remote) e p s =
      Applied-Ended env is_ui expected remote e (apply_state-Applied env is_ui expected remote e) p
        s

  present-stop :
      (is_ui : Bool) (o : Option PlatformVpnState) (e : SessionEngine)
      → (apply_present env is_ui expected o e).inner.platform_start_attempt_id
        ≡ e.inner.platform_start_attempt_id
      → e.inner.platform_stop_requested ≡ true
      → (apply_present env is_ui expected o e).inner.platform_stop_requested ≡ true
  present-stop is_ui none e p s = s
  present-stop is_ui (some remote) e p s =
      Applied-stop env is_ui expected remote e (apply_state-Applied env is_ui expected remote e) p s

  -- A settled state stays settled, whatever frame arrives.
  pub envelope-Settled :
      (is_ui : Bool) (envelope : PlatformEnvelope) (e : SessionEngine)
      → Settled e.inner
      → Settled (apply_platform_envelope env is_ui expected envelope e).1.inner
  unfolding apply_platform_envelope acknowledge_platform_browser_request
  envelope-Settled true envelope e s = present-Settled true envelope.state e s
  envelope-Settled false envelope e s =
      present-Settled false envelope.state (acknowledged false envelope.browser_request_ack e).1
        (record { stopped = s.stopped; ended = s.ended })

  -- Whatever frame arrives, an attempt that has ended is not brought back: unless another attempt takes
  -- its place, it is still ended.
  pub envelope-Ended :
      (is_ui : Bool) (envelope : PlatformEnvelope) (e : SessionEngine)
      → (apply_platform_envelope env is_ui expected envelope e).1.inner.platform_start_attempt_id
        ≡ e.inner.platform_start_attempt_id
      → Ended e.inner
      → Ended (apply_platform_envelope env is_ui expected envelope e).1.inner
  unfolding apply_platform_envelope acknowledge_platform_browser_request
  envelope-Ended true envelope e p s = present-Ended true envelope.state e p s
  envelope-Ended false envelope e p s =
      present-Ended false envelope.state (acknowledged false envelope.browser_request_ack e).1 p s

  -- Whatever frame arrives, a stop that was requested stays requested, unless another attempt takes the
  -- place of the one that it was requested for.
  pub envelope-stop :
      (is_ui : Bool) (envelope : PlatformEnvelope) (e : SessionEngine)
      → (apply_platform_envelope env is_ui expected envelope e).1.inner.platform_start_attempt_id
        ≡ e.inner.platform_start_attempt_id
      → e.inner.platform_stop_requested ≡ true
      → (apply_platform_envelope env is_ui expected envelope e).1.inner.platform_stop_requested
        ≡ true
  unfolding apply_platform_envelope acknowledge_platform_browser_request
  envelope-stop true envelope e p s = present-stop true envelope.state e p s
  envelope-stop false envelope e p s =
      present-stop false envelope.state (acknowledged false envelope.browser_request_ack e).1 p s

-- Without an expected attempt, none is adopted.
pub adopts-none :
    (is_ui : Bool) (remote : PlatformVpnState) (i : Inner)
    → adopts_attempt is_ui none remote i ≡ false
unfolding adopts_attempt
adopts-none is_ui remote i = ground arith

module _ (env : Env) where
  present-attempt :
      (is_ui : Bool) (o : Option PlatformVpnState) (e : SessionEngine)
      → (apply_present env is_ui none o e).inner.platform_start_attempt_id
        ≡ e.inner.platform_start_attempt_id
  present-attempt is_ui none e = refl
  present-attempt is_ui (some remote) e =
      Applied-attempt env is_ui none remote e (apply_state-Applied env is_ui none remote e)
        (adopts-none is_ui remote e.inner)

  pub envelope-attempt :
      (is_ui : Bool) (envelope : PlatformEnvelope) (e : SessionEngine)
      → (apply_platform_envelope env is_ui none envelope e).1.inner.platform_start_attempt_id
        ≡ e.inner.platform_start_attempt_id
  unfolding apply_platform_envelope acknowledge_platform_browser_request
  envelope-attempt true envelope e = present-attempt true envelope.state e
  envelope-attempt false envelope e =
      present-attempt false envelope.state (acknowledged false envelope.browser_request_ack e).1

  read-attempt :
      (is_ui : Bool) (r : RemoteRead) (e : SessionEngine)
      → (sync_read env is_ui none r e).1.inner.platform_start_attempt_id
        ≡ e.inner.platform_start_attempt_id
  unfolding push_diag
  read-attempt is_ui RemoteRead.no_frame e = refl
  read-attempt is_ui RemoteRead.read_failed e = refl
  read-attempt is_ui (RemoteRead.frame envelope) e = envelope-attempt is_ui envelope e

  on-attempt :
      (o : Option PlatformIpc) (e : SessionEngine)
      → (sync_on env none o e).1.inner.platform_start_attempt_id ≡ e.inner.platform_start_attempt_id
  on-attempt none e = refl
  on-attempt (some ipc) e = read-attempt ipc.is_ui env.remote e

  -- Reading the other process's newest frame never moves the engine to another attempt.
  pub sync-attempt :
      (e : SessionEngine)
      → (synced env e).inner.platform_start_attempt_id ≡ e.inner.platform_start_attempt_id
  unfolding sync_platform
  sync-attempt e = on-attempt e.platform_ipc e

-- A property of the state that every frame and every log line keeps holds after a sync.
module _ (P : Inner → Type 0) (env : Env)
    (lines : (level message : Text) (i : Inner) → P i → P (push_diag env level message i))
    (frames : (is_ui : Bool) (envelope : PlatformEnvelope) (e : SessionEngine)
      → P e.inner
      → P (apply_platform_envelope env is_ui none envelope e).1.inner) where
  read-keeps :
      (is_ui : Bool) (r : RemoteRead) (e : SessionEngine)
      → P e.inner
      → P (sync_read env is_ui none r e).1.inner
  read-keeps is_ui RemoteRead.no_frame e p = p
  read-keeps is_ui RemoteRead.read_failed e p = lines (codes "warn") read_failed_line e.inner p
  read-keeps is_ui (RemoteRead.frame envelope) e p = frames is_ui envelope e p

  on-keeps :
      (o : Option PlatformIpc) (e : SessionEngine) → P e.inner → P (sync_on env none o e).1.inner
  on-keeps none e p = p
  on-keeps (some ipc) e p = read-keeps ipc.is_ui env.remote e p

  sync-keeps : (e : SessionEngine) → P e.inner → P (synced env e).inner
  unfolding sync_platform
  sync-keeps e p = on-keeps e.platform_ipc e p

pub line-Settled :
    (env : Env) (level message : Text) (i : Inner)
    → Settled i
    → Settled (push_diag env level message i)
unfolding push_diag
line-Settled env level message i s = record { stopped = s.stopped; ended = s.ended }

line-Ended :
    (env : Env) (level message : Text) (i : Inner) → Ended i → Ended (push_diag env level message i)
unfolding push_diag
line-Ended env level message i s = s

pub sync-Settled : (env : Env) (e : SessionEngine) → Settled e.inner → Settled (synced env e).inner
sync-Settled env e s = sync-keeps Settled env (line-Settled env) (envelope-Settled env none) e s

pub sync-Ended : (env : Env) (e : SessionEngine) → Ended e.inner → Ended (synced env e).inner
sync-Ended env e s =
    sync-keeps Ended env (line-Ended env)
      (λ is_ui envelope f.
        envelope-Ended env none is_ui envelope f (envelope-attempt env is_ui envelope f))
      e s
