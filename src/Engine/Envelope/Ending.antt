-- ===== src/Engine/Envelope/Ending.antt =====
-- An end that one process publishes, read by the other:
-- `apply_platform_envelope_locked` of crates/hopenconnect_core/src/engine/platform.rs.
use h_openconnect.Base.{
  ℕ, ◌<◌, ◌≡◌, refl, ap, sym, ◌∙◌, arith, Bool, true, false, none, some, Text, is_empty, lt→ltb,
}
use mathlib.Core.Path.{subst}
use h_openconnect.Bridge.State.{PlatformStartOutcome, PlatformVpnState}
use h_openconnect.Bridge.Envelope.{PlatformEnvelope}
use h_openconnect.Engine.State.{Inner, SessionEngine, PlatformIpc, PublishOutcome, RemoteRead, Env}
use h_openconnect.Engine.Publish.{notify_platform_start, persist_platform, platform_state}
use h_openconnect.Engine.Publish.Frames.{persist-HasFrame, persist-inner}
use h_openconnect.Engine.Watchdog.{heartbeat_watchdog_expired, heartbeat_frozen}
use h_openconnect.Engine.Envelope.{
  synced, sync_platform, apply_platform_envelope, apply_present, observe, note_frame,
  drop_pending_native, remote_attempt_matches, remote_advanced,
}
use h_openconnect.Engine.Envelope.Merge.{
  is_terminal_outcome, is_pending, merge, merge_snapshot, merge_transaction, merge_attachment,
  merge_intent, merge_outcome, release_leases, fail_pending,
}
use h_openconnect.Engine.Envelope.Rules.{Ended}
use h_openconnect.Engine.Envelope.Tracking.{Accepted, expires, passes, merges}
use h_openconnect.Engine.Envelope.Laws.{Applied, ignored, matched, adopted, apply_state-Applied}
use h_openconnect.Engine.Envelope.Safety.{adopts-none}
use h_openconnect.Engine.Delivery.{frame_of, frame_of-HasFrame, asking-matches}

-- The state has the end that the other process tells of.
pub record TookEnd (remote : PlatformVpnState) (j : Inner) : Type 0 where
  pub outcome : j.platform_start_outcome ≡ remote.start_outcome
  pub down : j.platform_vpn_running ≡ false
  pub not_starting : j.platform_vpn_starting ≡ false
  pub cleanup : j.platform_vpn_cleanup_complete ≡ remote.cleanup_complete
  pub attachment : j.platform_extension_attached ≡ remote.extension_attached

not_pending : (o : PlatformStartOutcome) → is_terminal_outcome o ≡ true → is_pending o ≡ false
not_pending o h = ground arith

merge-TookEnd :
    (env : Env) (is_ui : Bool) (remote : PlatformVpnState) (i : Inner)
    → is_terminal_outcome remote.start_outcome ≡ true
    → TookEnd remote (merge env is_ui remote i)
unfolding merge merge_snapshot merge_transaction merge_attachment merge_intent merge_outcome
    release_leases fail_pending
merge-TookEnd env is_ui remote i t =
    rw (t, not_pending remote.start_outcome t)
      (record {
        outcome = refl;
        down = refl;
        not_starting = refl;
        cleanup = refl;
        attachment = refl;
      })

-- A new frame is no reason to give the other process up.
fresh_not_frozen :
    (i : Inner) (now : ℕ) (is_ui running matches : Bool)
    → heartbeat_frozen i now is_ui running matches true ≡ false
unfolding heartbeat_frozen
fresh_not_frozen i now is_ui running matches = ground arith

observe-advanced :
    (env : Env) (is_ui : Bool) (remote : PlatformVpnState) (i : Inner)
    → remote_advanced remote i ≡ true
    → (observe env is_ui remote i).0 ≡ false
unfolding observe heartbeat_watchdog_expired
observe-advanced env is_ui remote i a = rw a (
    rw
      (fresh_not_frozen (drop_pending_native is_ui remote (note_frame env remote i)) env.now is_ui
        remote.running true)
      refl)

-- A newer frame of the current attempt that tells of its end.
module _ (env : Env) (is_ui : Bool) (remote : PlatformVpnState) (e : SessionEngine) where
  Accepted-TookEnd :
      {e' : SessionEngine}
      → Accepted env is_ui remote e false e.inner e'
      → remote_advanced remote e.inner ≡ true
      → is_terminal_outcome remote.start_outcome ≡ true
      → TookEnd remote e'.inner
  unfolding notify_platform_start
  Accepted-TookEnd (expires k o) a t =
      cc (sym (observe-advanced env is_ui remote e.inner a) ∙ ap (λ (x : Bool × Inner). x.0) o)
  Accepted-TookEnd (passes k o b c) a t = cc (sym b ∙ a)
  Accepted-TookEnd (merges k o) a t =
      let m = merge-TookEnd env is_ui remote k t in
      record {
        outcome = m.outcome;
        down = m.down;
        not_starting = m.not_starting;
        cleanup = m.cleanup;
        attachment = m.attachment;
      }

  Applied-TookEnd :
      {e' : SessionEngine}
      → Applied env is_ui none remote e e'
      → remote_attempt_matches remote e.inner ≡ true
      → remote_advanced remote e.inner ≡ true
      → is_terminal_outcome remote.start_outcome ≡ true
      → TookEnd remote e'.inner
  Applied-TookEnd (ignored n) m a t = cc (sym n ∙ m)
  Applied-TookEnd (matched e' q c) m a t = Accepted-TookEnd c a t
  Applied-TookEnd (adopted e' h c) m a t = cc (sym (adopts-none is_ui remote e.inner) ∙ h)

-- The app that reads a frame.
module _ (env : Env) (u : SessionEngine) (ipc : PlatformIpc) (remote : PlatformVpnState)
    (envelope : PlatformEnvelope) (bound : u.platform_ipc ≡ some ipc) (app : ipc.is_ui ≡ true)
    (read : env.remote ≡ RemoteRead.frame envelope) (state : envelope.state ≡ some remote) where
  synced_ui_frame : synced env u ≡ apply_present env true none (some remote) u
  unfolding sync_platform apply_platform_envelope
  synced_ui_frame = rw bound (rw read (rw app (rw state refl)))

  synced-TookEnd :
      remote_attempt_matches remote u.inner ≡ true
      → remote_advanced remote u.inner ≡ true
      → is_terminal_outcome remote.start_outcome ≡ true
      → TookEnd remote (synced env u).inner
  synced-TookEnd m a t =
      subst (λ (z : SessionEngine). TookEnd remote z.inner) (sym synced_ui_frame)
        (Applied-TookEnd env true remote u (apply_state-Applied env true none remote u) m a t)

-- The Extension publishes the state of an attempt that has ended; the app, of the same attempt, which has
-- not seen a frame with that revision, reads the Extension's frame. Then the app has the Extension's
-- outcome, shows the VPN neither as running nor as starting, and knows, as the Extension does, whether
-- the clean-up is complete and whether an Extension is attached.
pub end_reaches_app :
    (env env' : Env) (attempt : Text) (x u : SessionEngine) (ipc ipc' : PlatformIpc)
    → is_empty attempt ≡ false
    → x.inner.platform_start_attempt_id ≡ attempt
    → u.inner.platform_start_attempt_id ≡ attempt
    → Ended x.inner
    → x.platform_ipc ≡ some ipc
    → env.publish ≡ PublishOutcome.published
    → u.platform_ipc ≡ some ipc'
    → ipc'.is_ui ≡ true
    → u.inner.platform_remote_state_updated_at
      < (persist_platform env x).1.inner.platform_local_state_updated_at
    → env'.remote ≡ frame_of (persist_platform env x).1
    → let j = (synced env' u).inner in
      (j.platform_start_outcome ≡ x.inner.platform_start_outcome)
      × (j.platform_vpn_running ≡ false)
      × (j.platform_vpn_starting ≡ false)
      × (j.platform_vpn_cleanup_complete ≡ x.inner.platform_vpn_cleanup_complete)
      × (j.platform_extension_attached ≡ x.inner.platform_extension_attached)
unfolding platform_state remote_advanced
end_reaches_app env env' attempt x u ipc ipc' n his mine ended bound p bound' app newer read =
    let x' = (persist_platform env x).1 in
    let remote = platform_state env x'.inner in
    let frame = frame_of-HasFrame x' remote (persist-HasFrame env x ipc bound p).0 in
    let same = persist-inner env x in
    let named = ap (λ (i : Inner). i.platform_start_attempt_id) same ∙ his in
    let told = ap (λ (i : Inner). i.platform_start_outcome) same in
    let took =
      synced-TookEnd env' u ipc' remote frame.0 bound' app (read ∙ frame.1) frame.2
        (asking-matches attempt remote u.inner n named mine)
        (lt→ltb u.inner.platform_remote_state_updated_at x'.inner.platform_local_state_updated_at
          newer)
        (ap is_terminal_outcome told ∙ ended) in
    (
      took.outcome ∙ told,
      took.down,
      took.not_starting,
      took.cleanup ∙ ap (λ (i : Inner). i.platform_vpn_cleanup_complete) same,
      took.attachment ∙ ap (λ (i : Inner). i.platform_extension_attached) same,
    )
