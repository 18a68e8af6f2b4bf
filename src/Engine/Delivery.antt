-- ===== src/Engine/Delivery.antt =====
-- From one process to the other: a stop that the app asks for is what the Extension answers to its next
-- heartbeat.
use h_openconnect.Base.{
  ◌<◌, ◌≡◌, refl, ap, sym, ◌∙◌, arith, Bool, true, false, ◌||◌, not, Option, none, some, Text,
  is_empty, text_eq, text_eq_refl, codes, if_false, if_true, lt→ltb,
}
use mathlib.Core.Path.{subst}
use h_openconnect.Bridge.State.{PlatformVpnState}
use h_openconnect.Bridge.Envelope.{PlatformEnvelope}
use h_openconnect.Engine.State.{
  ◌>>=◌, Inner, SessionEngine, PlatformIpc, PublishOutcome, RemoteRead, Env, CoreResult, ok, err,
  continue, return,
}
use h_openconnect.Engine.Diagnostics.{push_diag}
use h_openconnect.Engine.Publish.{
  publish_on, publish_snapshot, publish_result, notify_platform_start, persist_platform,
  platform_state,
}
use h_openconnect.Engine.Publish.Frames.{HasFrame, persist-HasFrame, persist-inner}
use h_openconnect.Engine.Browser.{acknowledge_platform_browser_request}
use h_openconnect.Engine.Watchdog.{heartbeat_watchdog_expired, heartbeat_frozen}
use h_openconnect.Engine.Envelope.{
  with_inner, synced, sync_platform, apply_platform_envelope, apply_present, acknowledged, observe,
  remote_attempt_matches, remote_advanced,
}
use h_openconnect.Engine.Envelope.Rules.{merge-stop}
use h_openconnect.Engine.Envelope.Tracking.{Accepted, expires, passes, merges}
use h_openconnect.Engine.Envelope.Laws.{Applied, ignored, matched, adopted, apply_state-Applied}
use h_openconnect.Engine.Envelope.Safety.{sync-attempt, adopts-none}
use h_openconnect.Engine.Extension.{extension_answer}
use h_openconnect.Engine.Attempt.{request_platform_vpn_stop, stop_requested}

-- The Extension has no watchdog.
observe-extension :
    (env : Env) (remote : PlatformVpnState) (i : Inner) → (observe env false remote i).0 ≡ false
unfolding observe heartbeat_watchdog_expired heartbeat_frozen
observe-extension env remote i = refl

or_true : (b : Bool) → (b || true) ≡ true
or_true b = ground arith

-- A newer frame of the current attempt that asks for a stop, read by the Extension.
module _ (env : Env) (remote : PlatformVpnState) (e : SessionEngine) where
  Accepted-asks :
      {e' : SessionEngine}
      → Accepted env false remote e false e.inner e'
      → remote_advanced remote e.inner ≡ true
      → remote.stop_requested ≡ true
      → e'.inner.platform_stop_requested ≡ true
  unfolding notify_platform_start
  Accepted-asks (expires k o) a s =
      cc (sym (observe-extension env remote e.inner) ∙ ap (λ (x : Bool × Inner). x.0) o)
  Accepted-asks (passes k o b c) a s = cc (sym b ∙ a)
  Accepted-asks (merges k o) a s =
      merge-stop env false remote k ∙ rw s (or_true k.platform_stop_requested)

  Applied-asks :
      {e' : SessionEngine}
      → Applied env false none remote e e'
      → remote_attempt_matches remote e.inner ≡ true
      → remote_advanced remote e.inner ≡ true
      → remote.stop_requested ≡ true
      → e'.inner.platform_stop_requested ≡ true
  Applied-asks (ignored n) m a s = cc (sym n ∙ m)
  Applied-asks (matched e' q c) m a s = Accepted-asks c a s
  Applied-asks (adopted e' h c) m a s = cc (sym (adopts-none false remote e.inner) ∙ h)

-- What a process reads that shares the memory with this engine.
abbrev pub frame_of : SessionEngine → RemoteRead
frame_of e = elim e.platform_ipc [ none ↦ RemoteRead.no_frame | some ipc ↦ lane_frame ipc.lane ]
  where
    lane_frame : Option PlatformEnvelope → RemoteRead
    lane_frame none = RemoteRead.no_frame
    lane_frame (some envelope) = RemoteRead.frame envelope

pub frame_of-HasFrame :
    (e : SessionEngine) (s : PlatformVpnState)
    → HasFrame e s
    → (envelope : PlatformEnvelope) × (frame_of e ≡ RemoteRead.frame envelope)
      × (envelope.state ≡ some s)
frame_of-HasFrame e s (ipc, envelope, p, l, q) = (envelope, rw p (rw l refl), q)

-- The Extension after it has read a frame that asks its attempt to stop.
module _ (env : Env) (x : SessionEngine) (ipc : PlatformIpc) (remote : PlatformVpnState)
    (envelope : PlatformEnvelope) (bound : x.platform_ipc ≡ some ipc)
    (extension : ipc.is_ui ≡ false) (read : env.remote ≡ RemoteRead.frame envelope)
    (state : envelope.state ≡ some remote) where
  synced_frame :
      synced env x
      ≡ apply_present env false none
          (some remote)
          (acknowledged false envelope.browser_request_ack x).1
  unfolding sync_platform apply_platform_envelope
  synced_frame = rw bound (rw read (rw extension (rw state refl)))

  synced_asks :
      remote_attempt_matches remote x.inner ≡ true
      → remote_advanced remote x.inner ≡ true
      → remote.stop_requested ≡ true
      → (synced env x).inner.platform_stop_requested ≡ true
  unfolding acknowledge_platform_browser_request remote_attempt_matches remote_advanced
  synced_asks m a s =
      let y = (acknowledged false envelope.browser_request_ack x).1 in
      ap (λ (z : SessionEngine). z.inner.platform_stop_requested) synced_frame
      ∙ Applied-asks env remote y (apply_state-Applied env false none remote y) m a s

publish_on-ok :
    (env : Env) (o : Option PlatformIpc) (e : SessionEngine)
    → env.publish ≡ PublishOutcome.published
    → (publish_on env o e).0 ≡ ok tt
unfolding publish_snapshot
publish_on-ok env none e h = refl
publish_on-ok env (some ipc) e h = ap publish_result h

persist-ok :
    (env : Env) (e : SessionEngine)
    → env.publish ≡ PublishOutcome.published
    → (persist_platform env e).0 ≡ ok tt
unfolding persist_platform
persist-ok env e h = publish_on-ok env _ _ h

-- The app may ask the Extension to stop: the attempt is the current one, an Extension has it, and it is
-- neither cleaned up nor asked already.
pub record CanAsk (attempt : Text) (i : Inner) : Type 0 where
  pub named : is_empty attempt ≡ false
  pub current : i.platform_start_attempt_id ≡ attempt
  pub uncleaned : i.platform_vpn_cleanup_complete ≡ false
  pub has_extension : i.platform_extension_attached ≡ true
  pub unasked : i.platform_stop_requested ≡ false

request-persist :
    (env : Env) (attempt : Text) (u : SessionEngine)
    → CanAsk attempt (synced env u).inner
    → env.publish ≡ PublishOutcome.published
    → request_platform_vpn_stop env attempt u
      ≡ (ok true, (persist_platform env (with_inner (stop_requested env attempt) (synced env u))).1)
unfolding request_platform_vpn_stop ◌>>=◌
request-persist env attempt u c p =
    let e = synced env u in
    let t : not (text_eq e.inner.platform_start_attempt_id attempt) ≡ false =
      rw c.current (rw (text_eq_refl attempt) refl) in
    if_false (is_empty attempt) _ _ c.named
    ∙ (if_false (not (text_eq e.inner.platform_start_attempt_id attempt)) _ _ t
        ∙ (if_false e.inner.platform_vpn_cleanup_complete _ _ c.uncleaned
            ∙ (if_false (not e.inner.platform_extension_attached) _ _ (rw c.has_extension refl)
                ∙ (if_false e.inner.platform_stop_requested _ _ c.unasked
                    ∙ go (persist_platform env (with_inner (stop_requested env attempt) e))
                        (persist-ok env _ p)))))
  where
    go :
        (r : CoreResult (Unit {0}) × SessionEngine)
        → r.0 ≡ ok tt
        → continue r (λ _. return true) ≡ (ok true, r.1)
    go (ok a, e) h = refl
    go (err x, e) h = cc

answer_stopping :
    (attempt : Text) (i : Inner)
    → i.platform_start_attempt_id ≡ attempt
    → i.platform_stop_requested ≡ true
    → extension_answer attempt i ≡ ok (codes "stopping")
unfolding extension_answer
answer_stopping attempt i p s =
    if_false (not (text_eq i.platform_start_attempt_id attempt)) _ _
      (rw p (rw (text_eq_refl attempt) refl))
    ∙ if_true i.platform_stop_requested _ _ s

-- The frame that asks: it is of the current attempt.
pub asking-matches :
    (attempt : Text) (remote : PlatformVpnState) (i : Inner)
    → is_empty attempt ≡ false
    → remote.start_attempt_id ≡ attempt
    → i.platform_start_attempt_id ≡ attempt
    → remote_attempt_matches remote i ≡ true
unfolding remote_attempt_matches
asking-matches attempt remote i n p q = rw p (rw q (rw n (rw (text_eq_refl attempt) refl)))

-- The app asks for a stop that it can ask for, and publishes it; the Extension of the same attempt, which
-- has not seen a frame with that revision, reads the app's frame. Then the app was told that it asked,
-- and the Extension answers its next heartbeat with "stopping".
pub stop_reaches_extension :
    (env env' : Env) (attempt : Text) (u x : SessionEngine) (ipc ipc' : PlatformIpc)
    → CanAsk attempt (synced env u).inner
    → (synced env u).platform_ipc ≡ some ipc
    → env.publish ≡ PublishOutcome.published
    → x.platform_ipc ≡ some ipc'
    → ipc'.is_ui ≡ false
    → x.inner.platform_start_attempt_id ≡ attempt
    → x.inner.platform_remote_state_updated_at
      < (request_platform_vpn_stop env attempt u).1.inner.platform_local_state_updated_at
    → env'.remote ≡ frame_of (request_platform_vpn_stop env attempt u).1
    → ((request_platform_vpn_stop env attempt u).0 ≡ ok true)
      × (extension_answer attempt (synced env' x).inner ≡ ok (codes "stopping"))
unfolding platform_state push_diag remote_advanced
stop_reaches_extension env env' attempt u x ipc ipc' can bound p bound' vpn mine newer read =
    let e = with_inner (stop_requested env attempt) (synced env u) in
    let u' = (persist_platform env e).1 in
    let asked = request-persist env attempt u can p in
    let asked' : (request_platform_vpn_stop env attempt u).1 ≡ u' =
      ap (λ (y : CoreResult Bool × SessionEngine). y.1) asked in
    let frame =
      frame_of-HasFrame u' (platform_state env u'.inner) (persist-HasFrame env e ipc bound p).0 in
    let named =
      ap (λ (i : Inner). i.platform_start_attempt_id) (persist-inner env e) ∙ can.current in
    let stop = ap (λ (i : Inner). i.platform_stop_requested) (persist-inner env e) in
    let later =
      subst
        (λ (y : SessionEngine).
          x.inner.platform_remote_state_updated_at < y.inner.platform_local_state_updated_at)
        asked' newer in
    (
      ap (λ (y : CoreResult Bool × SessionEngine). y.0) asked,
      answer_stopping attempt (synced env' x).inner (sync-attempt env' x ∙ mine) (
          synced_asks env' x ipc' (platform_state env u'.inner) frame.0 bound' vpn
            (read ∙ (ap frame_of asked' ∙ frame.1)) frame.2
            (asking-matches attempt (platform_state env u'.inner) x.inner can.named named mine)
            (lt→ltb x.inner.platform_remote_state_updated_at
              u'.inner.platform_local_state_updated_at later)
            stop),
    )
