-- ===== src/Engine/Envelope/Tracking.antt =====
-- Which fields the bookkeeping of a frame changes, and what an accepted frame leads to.
use h_openconnect.Base.{
  ◌≡◌, refl, ap, ◌∙◌, inl, inr, Bool, true, false, ◌||◌, not, none, Bool-cases, if◌then◌else◌, ℕ,
}
use h_openconnect.Bridge.State.{PlatformVpnState}
use h_openconnect.Engine.State.{Inner, SessionEngine, Env}
use h_openconnect.Engine.Publish.{notify_platform_start}
use h_openconnect.Engine.Watchdog.{heartbeat_watchdog_expired, heartbeat_frozen}
use h_openconnect.Engine.Envelope.{
  adopt, note_frame, remote_advanced, drop_pending_native, fail_heartbeat, accept_frame, observe,
  after_observation,
}
use h_openconnect.Engine.Envelope.Merge.{merge}

-- The second state differs at most in what is known of the other process's frames.
abbrev pub Tracked : Inner → Inner → Type 0
Tracked i j = j ≡ record i {
  platform_remote_state_updated_at = j.platform_remote_state_updated_at;
  platform_remote_state_seen_at = j.platform_remote_state_seen_at;
  platform_remote_stale_since = j.platform_remote_stale_since;
  pending_native = j.pending_native;
}

pub Tracked-trans : (i j k : Inner) → Tracked i j → Tracked j k → Tracked i k
Tracked-trans i j k p q =
    q
    ∙ ap
        (λ (x : Inner). record x {
          platform_remote_state_updated_at = k.platform_remote_state_updated_at;
          platform_remote_state_seen_at = k.platform_remote_state_seen_at;
          platform_remote_stale_since = k.platform_remote_stale_since;
          pending_native = k.pending_native;
        })
        p

Tracked-if : (b : Bool) (i j k : Inner) → Tracked i j → Tracked i k → Tracked i (if b then j else k)
Tracked-if true i j k p q = p
Tracked-if false i j k p q = q

note_frame-Tracked :
    (env : Env) (remote : PlatformVpnState) (i : Inner) → Tracked i (note_frame env remote i)
unfolding note_frame
note_frame-Tracked env remote i = elim (Bool-cases (remote_advanced remote i)) [
  | inl t ↦ rw t refl
  | inr t ↦ rw t refl
]

drop_pending-Tracked :
    (is_ui : Bool) (remote : PlatformVpnState) (i : Inner)
    → Tracked i (drop_pending_native is_ui remote i)
unfolding drop_pending_native
drop_pending-Tracked is_ui remote i =
    Tracked-if _ i (record i { pending_native = false }) i refl refl

watchdog-Tracked :
    (i : Inner) (now : ℕ) (is_ui running matches advanced : Bool)
    → Tracked i (heartbeat_watchdog_expired i now is_ui running matches advanced).1
unfolding heartbeat_watchdog_expired
watchdog-Tracked i now is_ui running matches advanced =
    elim (Bool-cases (heartbeat_frozen i now is_ui running matches advanced)) [
      | inl t ↦ rw t refl
      | inr t ↦ rw t (
          Tracked-if (not running || advanced) i (record i { platform_remote_stale_since = none }) i
            refl refl)
    ]

pub observe-Tracked :
    (env : Env) (is_ui : Bool) (remote : PlatformVpnState) (i : Inner)
    → Tracked i (observe env is_ui remote i).1
unfolding observe
observe-Tracked env is_ui remote i =
    let n = note_frame env remote i in
    let d = drop_pending_native is_ui remote n in
    Tracked-trans i d (observe env is_ui remote i).1
      (Tracked-trans i n d (note_frame-Tracked env remote i) (drop_pending-Tracked is_ui remote n))
      (watchdog-Tracked d env.now is_ui remote.running true (remote_advanced remote i))

module _ (env : Env) (is_ui : Bool) (remote : PlatformVpnState) (e : SessionEngine) where
  -- What an accepted frame leads to, from the state whose attempt it belongs to: the watchdog's verdict,
  -- nothing, or a merge.
  pub data Accepted (adopted : Bool) (i : Inner) : SessionEngine → Type 0 where
    expires :
        (k : Inner)
        → observe env is_ui remote i ≡ (true, k)
        → Accepted adopted i (fail_heartbeat env (record e { inner = k }))
    passes :
        (k : Inner)
        → observe env is_ui remote i ≡ (false, k)
        → remote_advanced remote i ≡ false
        → adopted ≡ false
        → Accepted adopted i (record e { inner = k })
    merges :
        (k : Inner)
        → observe env is_ui remote i ≡ (false, k)
        → Accepted adopted i (notify_platform_start (record e { inner = merge env is_ui remote k }))

  after-Accepted :
      (i : Inner) (advanced adopted : Bool) (seen : Bool × Inner)
      → remote_advanced remote i ≡ advanced
      → observe env is_ui remote i ≡ seen
      → Accepted adopted i (after_observation env is_ui remote advanced adopted seen e)
  after-Accepted i advanced adopted (true, k) a o = expires k o
  after-Accepted i true adopted (false, k) a o = merges k o
  after-Accepted i false true (false, k) a o = merges k o
  after-Accepted i false false (false, k) a o = passes k o a refl

  pub accept_frame-Accepted :
      (adopted : Bool)
      → Accepted adopted
          (if adopted then adopt remote e.inner else e.inner)
          (accept_frame env is_ui adopted remote e)
  unfolding accept_frame
  accept_frame-Accepted adopted =
      let i = if adopted then adopt remote e.inner else e.inner in
      after-Accepted i (remote_advanced remote i) adopted (observe env is_ui remote i) refl refl
