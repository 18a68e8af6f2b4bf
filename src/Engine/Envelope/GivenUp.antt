-- ===== src/Engine/Envelope/GivenUp.antt =====
-- When a frame makes the app give the Extension up: the watchdog in `apply_platform_envelope_locked` of
-- crates/hopenconnect_core/src/engine/platform.rs.
use h_openconnect.Base.{
  ◌≡◌, refl, ap, sym, ◌∙◌, arith, Bool, true, false, ◌&&◌, Option, none, some, Text, Bool-cases,
  inl, inr, if◌then◌else◌,
}
use mathlib.Core.Path.{subst}
use h_openconnect.Bridge.State.{PlatformVpnState}
use h_openconnect.Bridge.Envelope.{PlatformEnvelope}
use h_openconnect.Engine.State.{Inner, SessionEngine, Env}
use h_openconnect.Engine.Browser.{acknowledge_platform_browser_request}
use h_openconnect.Engine.Publish.{notify_platform_start}
use h_openconnect.Engine.Watchdog.{heartbeat_stale_after, heartbeat_wake_grace}
use h_openconnect.Engine.Watchdog.Grace.{Before, watchdog-Before, frozen-Before}
use h_openconnect.Engine.Envelope.{
  apply_platform_envelope, apply_present, acknowledged, observe, note_frame, drop_pending_native,
  remote_attempt_matches, remote_advanced, adopts_attempt, adopt,
}
use h_openconnect.Engine.Envelope.Merge.{
  merge, merge_snapshot, merge_transaction, merge_attachment, merge_intent, release_leases,
  fail_pending, is_pending,
}
use h_openconnect.Engine.Envelope.Rules.{
  OutcomeOf, follows_end, keeps_end, follows, merge_outcome-OutcomeOf,
}
use h_openconnect.Engine.Envelope.Tracking.{
  Tracked, observe-Tracked, Accepted, expires, passes, merges,
}
use h_openconnect.Engine.Envelope.Laws.{Applied, ignored, matched, adopted, apply_state-Applied}

-- The other process counts as running, and has not been heard of for long enough.
pub record GoneSilent (env : Env) (is_ui : Bool) (remote : PlatformVpnState) (i : Inner)
    : Type 0 where
  pub app : is_ui ≡ true
  pub running : remote.running ≡ true
  pub shown : i.platform_vpn_running ≡ true
  pub repeated : remote_advanced remote i ≡ false
  pub silent : Before heartbeat_stale_after env.now i.platform_remote_state_seen_at
  pub long : Before heartbeat_wake_grace env.now i.platform_remote_stale_since

drop_if-kept :
    (b : Bool) (i : Inner)
    → let j = if b then record i { pending_native = false } else i in
      j ≡ record i { pending_native = j.pending_native }
drop_if-kept true i = refl
drop_if-kept false i = refl

-- A frame that is not new tells the app nothing but that the client has served.
repeated-kept :
    (env : Env) (is_ui : Bool) (remote : PlatformVpnState) (i : Inner)
    → remote_advanced remote i ≡ false
    → let d = drop_pending_native is_ui remote (note_frame env remote i) in
      d ≡ record i { pending_native = d.pending_native }
unfolding note_frame drop_pending_native
repeated-kept env is_ui remote i a = rw a (drop_if-kept _ i)

observe-GoneSilent :
    (env : Env) (is_ui : Bool) (remote : PlatformVpnState) (i : Inner)
    → (observe env is_ui remote i).0 ≡ true
    → GoneSilent env is_ui remote i
unfolding observe
observe-GoneSilent env is_ui remote i h =
    let d = drop_pending_native is_ui remote (note_frame env remote i) in
    let (f, long) =
      (watchdog-Before d env.now is_ui remote.running true (remote_advanced remote i)).0 h in
    let (app, shown, running, repeated, silent) =
      frozen-Before d env.now is_ui remote.running true (remote_advanced remote i) f in
    let kept = repeated-kept env is_ui remote i repeated in
    record {
      app = app;
      running = running;
      shown = sym (ap (λ (x : Inner). x.platform_vpn_running) kept) ∙ shown;
      repeated = repeated;
      silent =
          subst (Before heartbeat_stale_after env.now)
            (ap (λ (x : Inner). x.platform_remote_state_seen_at) kept) silent;
      long =
          subst (Before heartbeat_wake_grace env.now)
            (ap (λ (x : Inner). x.platform_remote_stale_since) kept) long;
    }

OutcomeOf-recoverable :
    {remote : PlatformVpnState} {i j : Inner}
    → OutcomeOf remote i j
    → j.platform_watchdog_cleanup_recoverable ≡ i.platform_watchdog_cleanup_recoverable
OutcomeOf-recoverable (follows_end t) = refl
OutcomeOf-recoverable (keeps_end f t) = refl
OutcomeOf-recoverable (follows f g) = refl

merge-recoverable :
    (env : Env) (is_ui : Bool) (remote : PlatformVpnState) (i : Inner)
    → (merge env is_ui remote i).platform_watchdog_cleanup_recoverable
      ≡ i.platform_watchdog_cleanup_recoverable
unfolding merge merge_snapshot fail_pending merge_transaction merge_attachment merge_intent
    release_leases
merge-recoverable env is_ui remote i =
    OutcomeOf-recoverable (merge_outcome-OutcomeOf remote (merge_intent is_ui remote i))

adopt-recoverable :
    (remote : PlatformVpnState) (i : Inner)
    → (adopt remote i).platform_watchdog_cleanup_recoverable
      ≡ i.platform_watchdog_cleanup_recoverable
unfolding adopt
adopt-recoverable remote i =
    elim (Bool-cases (remote.starting && is_pending remote.start_outcome)) [
      | inl t ↦ rw t refl
      | inr t ↦ rw t refl
    ]

seen-recoverable :
    (env : Env) (is_ui : Bool) (remote : PlatformVpnState) (i k : Inner) (b : Bool)
    → observe env is_ui remote i ≡ (b, k)
    → k.platform_watchdog_cleanup_recoverable ≡ i.platform_watchdog_cleanup_recoverable
seen-recoverable env is_ui remote i k b o =
    ap (λ (x : Inner). x.platform_watchdog_cleanup_recoverable)
      (subst (λ (x : Bool × Inner). Tracked i x.1) o (observe-Tracked env is_ui remote i))

-- The app adopts nothing.
adopts-extension :
    (is_ui : Bool) (expected : Option Text) (remote : PlatformVpnState) (i : Inner)
    → adopts_attempt is_ui expected remote i ≡ true
    → is_ui ≡ false
unfolding adopts_attempt
adopts-extension is_ui expected remote i h = ground arith

module _ (env : Env) (is_ui : Bool) (remote : PlatformVpnState) (e : SessionEngine) where
  Accepted-GoneSilent :
      {b : Bool} {i : Inner} {e' : SessionEngine}
      → Accepted env is_ui remote e b i e'
      → i.platform_watchdog_cleanup_recoverable ≡ false
      → e'.inner.platform_watchdog_cleanup_recoverable ≡ true
      → GoneSilent env is_ui remote i
  unfolding notify_platform_start
  Accepted-GoneSilent {b} {i} (expires k o) f t =
      observe-GoneSilent env is_ui remote i (ap (λ (x : Bool × Inner). x.0) o)
  Accepted-GoneSilent {b} {i} (passes k o a c) f t =
      let s = seen-recoverable env is_ui remote i k false o in cc
  Accepted-GoneSilent {b} {i} (merges k o) f t =
      let s = seen-recoverable env is_ui remote i k false o in
      let m = merge-recoverable env is_ui remote k in cc

  Applied-GoneSilent :
      {expected : Option Text} {e' : SessionEngine}
      → Applied env is_ui expected remote e e'
      → e.inner.platform_watchdog_cleanup_recoverable ≡ false
      → e'.inner.platform_watchdog_cleanup_recoverable ≡ true
      → (remote_attempt_matches remote e.inner ≡ true) × GoneSilent env is_ui remote e.inner
  Applied-GoneSilent (ignored n) f t = cc
  Applied-GoneSilent (matched e' q c) f t = (q, Accepted-GoneSilent c f t)
  Applied-GoneSilent {expected} (adopted e' h c) f t =
      let g = Accepted-GoneSilent c (adopt-recoverable remote e.inner ∙ f) t in
      let n = adopts-extension is_ui expected remote e.inner h in let p = g.app in cc

present-GoneSilent :
    (env : Env) (is_ui : Bool) (expected : Option Text) (o : Option PlatformVpnState)
    (e : SessionEngine)
    → e.inner.platform_watchdog_cleanup_recoverable ≡ false
    → (apply_present env is_ui expected o e).inner.platform_watchdog_cleanup_recoverable ≡ true
    → (remote : PlatformVpnState) × (o ≡ some remote)
      × (remote_attempt_matches remote e.inner ≡ true)
      × GoneSilent env is_ui remote e.inner
present-GoneSilent env is_ui expected none e f t = cc
present-GoneSilent env is_ui expected (some remote) e f t =
    let (m, g) =
      Applied-GoneSilent env is_ui remote e (apply_state-Applied env is_ui expected remote e) f t in
    (remote, refl, m, g)

-- A frame marks the engine as having given the other process up only in the app, when the frame is of the
-- engine's own attempt and not new, both sides count as running, the last new frame came at least fifteen
-- seconds ago, and the silence was first noticed, by an earlier frame, at least six seconds ago.
pub envelope-GoneSilent :
    (env : Env) (is_ui : Bool) (expected : Option Text) (envelope : PlatformEnvelope)
    (e : SessionEngine)
    → e.inner.platform_watchdog_cleanup_recoverable ≡ false
    → (apply_platform_envelope env is_ui expected envelope
        e).1.inner.platform_watchdog_cleanup_recoverable
      ≡ true
    → (remote : PlatformVpnState) × (envelope.state ≡ some remote)
      × (remote_attempt_matches remote e.inner ≡ true)
      × GoneSilent env is_ui remote e.inner
unfolding apply_platform_envelope acknowledge_platform_browser_request
envelope-GoneSilent env true expected envelope e f t =
    present-GoneSilent env true expected envelope.state e f t
envelope-GoneSilent env false expected envelope e f t =
    let (remote, s, m, g) =
      present-GoneSilent env false expected envelope.state
        (acknowledged false envelope.browser_request_ack e).1 f t in
    absurd cc
