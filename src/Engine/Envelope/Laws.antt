-- ===== src/Engine/Envelope/Laws.antt =====
-- What a frame of the other process can and cannot do to an engine.
use h_openconnect.Base.{
  ◌≡◌, ◌≢◌, refl, ap, ◌∙◌, sym, inl, inr, Bool, true, false, ◌&&◌, Option, Bool-cases, arith, Text,
  text_eq, text_eq_refl,
}
use mathlib.Core.Path.{subst}
use h_openconnect.Bridge.State.{PlatformStartOutcome, PlatformVpnState}
use h_openconnect.Engine.State.{Inner, SessionEngine, Env}
use h_openconnect.Engine.Diagnostics.{push_diag}
use h_openconnect.Engine.Publish.{notify_platform_start}
use h_openconnect.Engine.Publish.Frames.{persist-inner}
use h_openconnect.Engine.Envelope.{
  remote_attempt_matches, adopts_attempt, adopt, fail_heartbeat, observe, apply_state,
}
use h_openconnect.Engine.Envelope.Merge.{is_terminal_outcome, is_pending}
use h_openconnect.Engine.Envelope.Rules.{
  Ended, Settled, merge-attempt, merge-stop, merge-Ended, merge-Settled,
}
use h_openconnect.Engine.Envelope.Tracking.{
  Tracked, observe-Tracked, Accepted, expires, passes, merges, accept_frame-Accepted,
}

Tracked-Settled : (i k : Inner) → Tracked i k → Settled i → Settled k
Tracked-Settled i k t s = subst Settled (sym t) (record { stopped = s.stopped; ended = s.ended })

Tracked-Ended : (i k : Inner) → Tracked i k → Ended i → Ended k
Tracked-Ended i k t s = subst Ended (sym t) s

Tracked-attempt :
    (i k : Inner) → Tracked i k → k.platform_start_attempt_id ≡ i.platform_start_attempt_id
Tracked-attempt i k t = ap (λ (x : Inner). x.platform_start_attempt_id) t

Tracked-stop : (i k : Inner) → Tracked i k → k.platform_stop_requested ≡ i.platform_stop_requested
Tracked-stop i k t = ap (λ (x : Inner). x.platform_stop_requested) t

module _ (env : Env) (e : SessionEngine) where
  fail_heartbeat-Ended : Ended (fail_heartbeat env e).inner
  unfolding fail_heartbeat push_diag
  fail_heartbeat-Ended = subst Ended (sym (persist-inner env _)) refl

  fail_heartbeat-Settled : Settled (fail_heartbeat env e).inner
  unfolding fail_heartbeat push_diag
  fail_heartbeat-Settled =
      subst Settled (sym (persist-inner env _)) (record { stopped = λ h. refl; ended = λ h. refl })

  fail_heartbeat-attempt :
      (fail_heartbeat env e).inner.platform_start_attempt_id ≡ e.inner.platform_start_attempt_id
  unfolding fail_heartbeat push_diag
  fail_heartbeat-attempt = ap (λ (x : Inner). x.platform_start_attempt_id) (persist-inner env _)

  fail_heartbeat-stop :
      (fail_heartbeat env e).inner.platform_stop_requested ≡ e.inner.platform_stop_requested
  unfolding fail_heartbeat push_diag
  fail_heartbeat-stop = ap (λ (x : Inner). x.platform_stop_requested) (persist-inner env _)

module _ (env : Env) (is_ui : Bool) (remote : PlatformVpnState) (e : SessionEngine) where
  seen-Tracked : (i k : Inner) (b : Bool) → observe env is_ui remote i ≡ (b, k) → Tracked i k
  seen-Tracked i k b o =
      subst (λ (x : Bool × Inner). Tracked i x.1) o (observe-Tracked env is_ui remote i)

  Accepted-attempt :
      {adopted : Bool} {i : Inner} {e' : SessionEngine}
      → Accepted env is_ui remote e adopted i e'
      → e'.inner.platform_start_attempt_id ≡ i.platform_start_attempt_id
  unfolding notify_platform_start
  Accepted-attempt {adopted} {i} (expires k o) =
      fail_heartbeat-attempt env (record e { inner = k })
      ∙ Tracked-attempt i k (seen-Tracked i k true o)
  Accepted-attempt {adopted} {i} (passes k o a b) = Tracked-attempt i k (seen-Tracked i k false o)
  Accepted-attempt {adopted} {i} (merges k o) =
      merge-attempt env is_ui remote k ∙ Tracked-attempt i k (seen-Tracked i k false o)

  Accepted-Ended :
      {adopted : Bool} {i : Inner} {e' : SessionEngine}
      → Accepted env is_ui remote e adopted i e'
      → Ended i
      → Ended e'.inner
  unfolding notify_platform_start
  Accepted-Ended (expires k o) h = fail_heartbeat-Ended env (record e { inner = k })
  Accepted-Ended {adopted} {i} (passes k o a b) h = Tracked-Ended i k (seen-Tracked i k false o) h
  Accepted-Ended {adopted} {i} (merges k o) h =
      merge-Ended env is_ui remote k (Tracked-Ended i k (seen-Tracked i k false o) h)

  -- An attempt that is adopted settles by the frame that it is adopted from.
  Accepted-Settled :
      {adopted : Bool} {i : Inner} {e' : SessionEngine}
      → Accepted env is_ui remote e adopted i e'
      → (adopted ≡ false → Settled i)
      → (is_terminal_outcome remote.start_outcome ≡ false → Ended i → Settled i)
      → Settled e'.inner
  unfolding notify_platform_start
  Accepted-Settled (expires k o) h g = fail_heartbeat-Settled env (record e { inner = k })
  Accepted-Settled {adopted} {i} (passes k o a b) h g =
      Tracked-Settled i k (seen-Tracked i k false o) (h b)
  Accepted-Settled {adopted} {i} (merges k o) h g =
      let t = seen-Tracked i k false o in
      merge-Settled env is_ui remote k (λ f u. Tracked-Settled i k t (
        g f (
          subst (λ (x : PlatformStartOutcome). is_terminal_outcome x ≡ true)
            (ap (λ (x : Inner). x.platform_start_outcome) t) u)))

  Accepted-stop :
      {adopted : Bool} {i : Inner} {e' : SessionEngine}
      → Accepted env is_ui remote e adopted i e'
      → i.platform_stop_requested ≡ true
      → e'.inner.platform_stop_requested ≡ true
  unfolding notify_platform_start
  Accepted-stop {adopted} {i} (expires k o) h =
      fail_heartbeat-stop env (record e { inner = k })
      ∙ (Tracked-stop i k (seen-Tracked i k true o) ∙ h)
  Accepted-stop {adopted} {i} (passes k o a b) h = Tracked-stop i k (seen-Tracked i k false o) ∙ h
  Accepted-stop {adopted} {i} (merges k o) h =
      merge-stop env is_ui remote k ∙ rw (Tracked-stop i k (seen-Tracked i k false o) ∙ h) refl

adopt-attempt :
    (remote : PlatformVpnState) (i : Inner)
    → (adopt remote i).platform_start_attempt_id ≡ remote.start_attempt_id
unfolding adopt
adopt-attempt remote i = elim (Bool-cases (remote.starting && is_pending remote.start_outcome)) [
  | inl t ↦ rw t refl
  | inr t ↦ rw t refl
]

adopt-outcome :
    (remote : PlatformVpnState) (i : Inner)
    → (adopt remote i).platform_start_outcome ≡ remote.start_outcome
unfolding adopt
adopt-outcome remote i = elim (Bool-cases (remote.starting && is_pending remote.start_outcome)) [
  | inl t ↦ rw t refl
  | inr t ↦ rw t refl
]

-- An attempt that is adopted is another one than before.
adopts-other :
    (is_ui : Bool) (expected : Option Text) (remote : PlatformVpnState) (i : Inner)
    → adopts_attempt is_ui expected remote i ≡ true
    → remote.start_attempt_id ≢ i.platform_start_attempt_id
unfolding adopts_attempt remote_attempt_matches
adopts-other is_ui expected remote i h p =
    let r : text_eq remote.start_attempt_id i.platform_start_attempt_id ≡ true =
      rw p (text_eq_refl i.platform_start_attempt_id) in
    ground arith

module _ (env : Env) (is_ui : Bool) (expected : Option Text) (remote : PlatformVpnState)
    (e : SessionEngine) where
  -- What a frame with a state leads to.
  pub data Applied : SessionEngine → Type 0 where
    ignored : remote_attempt_matches remote e.inner ≡ false → Applied e
    matched :
        (e' : SessionEngine)
        → remote_attempt_matches remote e.inner ≡ true
        → Accepted env is_ui remote e false e.inner e'
        → Applied e'
    adopted :
        (e' : SessionEngine)
        → adopts_attempt is_ui expected remote e.inner ≡ true
        → Accepted env is_ui remote e true (adopt remote e.inner) e'
        → Applied e'

  pub apply_state-Applied : Applied (apply_state env is_ui expected remote e)
  unfolding apply_state
  apply_state-Applied = elim (Bool-cases (adopts_attempt is_ui expected remote e.inner)) [
    | inl a ↦ rw a (elim (Bool-cases (remote_attempt_matches remote e.inner)) [
      | inl m ↦ rw m (adopted _ a (accept_frame-Accepted env is_ui remote e true))
      | inr m ↦ rw m (adopted _ a (accept_frame-Accepted env is_ui remote e true))
    ])
    | inr a ↦ rw a (elim (Bool-cases (remote_attempt_matches remote e.inner)) [
      | inl m ↦ rw m (matched _ m (accept_frame-Accepted env is_ui remote e false))
      | inr m ↦ rw m (ignored m)
    ])
  ]

  pub Applied-Settled : {e' : SessionEngine} → Applied e' → Settled e.inner → Settled e'.inner
  Applied-Settled (ignored m) s = s
  Applied-Settled (matched e' q a) s = Accepted-Settled env is_ui remote e a (λ b. s) (λ f u. s)
  Applied-Settled (adopted e' h a) s =
      Accepted-Settled env is_ui remote e a (λ b. cc)
        (λ f u. cc (sym f ∙ (ap is_terminal_outcome (sym (adopt-outcome remote e.inner)) ∙ u)))

  pub Applied-Ended :
      {e' : SessionEngine}
      → Applied e'
      → e'.inner.platform_start_attempt_id ≡ e.inner.platform_start_attempt_id
      → Ended e.inner
      → Ended e'.inner
  Applied-Ended (ignored m) p s = s
  Applied-Ended (matched e' q a) p s = Accepted-Ended env is_ui remote e a s
  Applied-Ended (adopted e' h a) p s = absurd (
      adopts-other is_ui expected remote e.inner h
        (sym (adopt-attempt remote e.inner) ∙ (sym (Accepted-attempt env is_ui remote e a) ∙ p)))

  pub Applied-stop :
      {e' : SessionEngine}
      → Applied e'
      → e'.inner.platform_start_attempt_id ≡ e.inner.platform_start_attempt_id
      → e.inner.platform_stop_requested ≡ true
      → e'.inner.platform_stop_requested ≡ true
  Applied-stop (ignored m) p s = s
  Applied-stop (matched e' q a) p s = Accepted-stop env is_ui remote e a s
  Applied-stop (adopted e' h a) p s = absurd (
      adopts-other is_ui expected remote e.inner h
        (sym (adopt-attempt remote e.inner) ∙ (sym (Accepted-attempt env is_ui remote e a) ∙ p)))

  pub Applied-attempt :
      {e' : SessionEngine}
      → Applied e'
      → adopts_attempt is_ui expected remote e.inner ≡ false
      → e'.inner.platform_start_attempt_id ≡ e.inner.platform_start_attempt_id
  Applied-attempt (ignored m) h = refl
  Applied-attempt (matched e' q a) h = Accepted-attempt env is_ui remote e a
  Applied-attempt (adopted e' t a) h = cc (sym h ∙ t)
