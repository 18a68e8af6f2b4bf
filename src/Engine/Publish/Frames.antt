-- ===== src/Engine/Publish/Frames.antt =====
-- What the other process can read after a publication.
use Prim.Native.Nat.{max}
use h_openconnect.Base.{◌-◌, ◌^◌, ◌<◌, ◌≡◌, refl, ap, arith, Option, none, some}
use h_openconnect.Bridge.State.{PlatformVpnState}
use h_openconnect.Bridge.Envelope.{PlatformEnvelope, replace_snapshot}
use h_openconnect.Engine.State.{
  Inner, SessionEngine, PlatformIpc, PublishOutcome, Env, saturating_suc,
}
use h_openconnect.Engine.Publish.{
  platform_state, platform_start_event, publish_snapshot, publish_on, persist_platform,
  notify_platform_start, advance_revision, lane_after,
}

-- The newest frame in the engine's own lane has this state.
abbrev pub HasFrame : SessionEngine → PlatformVpnState → Type 0
HasFrame e s =
    (ipc : PlatformIpc) × (envelope : PlatformEnvelope) × (e.platform_ipc ≡ some ipc)
    × (ipc.lane ≡ some envelope)
    × (envelope.state ≡ some s)

publish_on-HasFrame :
    (env : Env) (e : SessionEngine) (ipc : PlatformIpc)
    → env.publish ≡ PublishOutcome.published
    → HasFrame (publish_on env (some ipc) e).1 (platform_state env e.inner)
unfolding publish_snapshot replace_snapshot
publish_on-HasFrame env e ipc h =
    let ipc' = (publish_snapshot env.publish (platform_state env e.inner) e.inner ipc).1 in
    (
      ipc',
      ipc'.published,
      refl,
      ap (λ (o : PublishOutcome). lane_after o ipc'.published ipc.lane) h,
      refl,
    )

publish_on-event :
    (env : Env) (o : Option PlatformIpc) (e : SessionEngine)
    → e.start_event ≡ platform_start_event e.inner
    → (publish_on env o e).1.start_event ≡ platform_start_event (publish_on env o e).1.inner
publish_on-event env none e h = h
publish_on-event env (some ipc) e h = h

-- A publication that succeeds leaves a frame with the whole current state and its new revision, and the
-- event that tells of the same state.
pub persist-HasFrame :
    (env : Env) (e : SessionEngine) (ipc : PlatformIpc)
    → e.platform_ipc ≡ some ipc
    → env.publish ≡ PublishOutcome.published
    → let e' = (persist_platform env e).1 in
      HasFrame e' (platform_state env e'.inner) × (e'.start_event ≡ platform_start_event e'.inner)
unfolding persist_platform notify_platform_start
persist-HasFrame env e ipc h p =
    let i = advance_revision env e.inner in
    let f = record e { inner = i; start_event = platform_start_event i } in
    rw h (publish_on-HasFrame env f ipc p, publish_on-event env (some ipc) f refl)

publish_on-inner :
    (env : Env) (o : Option PlatformIpc) (e : SessionEngine)
    → (publish_on env o e).1.inner ≡ e.inner
publish_on-inner env none e = refl
publish_on-inner env (some ipc) e = refl

publish_on-journal :
    (env : Env) (o : Option PlatformIpc) (e : SessionEngine)
    → (publish_on env o e).1.journal ≡ e.journal
publish_on-journal env none e = refl
publish_on-journal env (some ipc) e = refl

-- Publishing changes nothing under the lock but the revision.
pub persist-inner :
    (env : Env) (e : SessionEngine)
    → (persist_platform env e).1.inner ≡ advance_revision env e.inner
unfolding persist_platform notify_platform_start
persist-inner env e = publish_on-inner env e.platform_ipc _

pub persist-journal :
    (env : Env) (e : SessionEngine) → (persist_platform env e).1.journal ≡ e.journal
unfolding persist_platform notify_platform_start
persist-journal env e = publish_on-journal env e.platform_ipc _

-- Every publication has a larger revision than the one before, so no state is taken for a repetition,
-- until the 128 bits are used up.
pub persist-revision :
    (env : Env) (e : SessionEngine)
    → e.inner.platform_local_state_updated_at < 2 ^ 128 - 1
    → e.inner.platform_local_state_updated_at
      < (persist_platform env e).1.inner.platform_local_state_updated_at
persist-revision env e h =
    let p : (persist_platform env e).1.inner.platform_local_state_updated_at
        ≡ max env.now_nanos (saturating_suc 128 e.inner.platform_local_state_updated_at) =
      ap (λ (x : Inner). x.platform_local_state_updated_at) (persist-inner env e) in
    omega (arith, h, p)
