-- ===== src/Engine/Watchdog/Grace.antt =====
-- When the app gives the Extension up.
use h_openconnect.Base.{
  ℕ, ◌+◌, ◌-◌, ◌≤◌, ◌≡◌, refl, ◌↔◌, arith, Bool, true, false, Option, none, some, leb, leb→le,
  Bool-cases, inl, inr,
}
use h_openconnect.Engine.State.{Inner}
use h_openconnect.Engine.Watchdog.{
  heartbeat_watchdog_expired, heartbeat_frozen, get_or_insert, seen_long_ago, heartbeat_stale_after,
  heartbeat_wake_grace,
}

-- A time that is known and lies at least so far back.
abbrev pub Before : ℕ → ℕ → Option ℕ → Type 0
Before gap now o = (t : ℕ) × (o ≡ some t) × (t + gap ≤ now)

grace_over :
    (now : ℕ) (o : Option ℕ)
    → (leb heartbeat_wake_grace (now - get_or_insert now o) ≡ true)
      ↔ Before heartbeat_wake_grace now o
grace_over now none =
    (λ h. absurd (omega (arith, leb→le heartbeat_wake_grace (now - now) h)), λ (t, e, l). cc)
grace_over now (some t) = (
  λ h. (t, refl, omega (arith, leb→le heartbeat_wake_grace (now - t) h)),
  λ (s, e, l). let p : t ≡ s = some_injective t s e in ground arith,
)
  where
    some_injective : (a b : ℕ) → some a ≡ some b → a ≡ b
    some_injective a b e = cc

seen_Before :
    (now : ℕ) (o : Option ℕ) → seen_long_ago now o ≡ true → Before heartbeat_stale_after now o
seen_Before now none h = ground arith
seen_Before now (some t) h = (t, refl, omega (arith, leb→le heartbeat_stale_after (now - t) h))

pub watchdog-Before :
    (i : Inner) (now : ℕ) (is_ui running matches advanced : Bool)
    → ((heartbeat_watchdog_expired i now is_ui running matches advanced).0 ≡ true) ↔ (
        (heartbeat_frozen i now is_ui running matches advanced ≡ true)
        × Before heartbeat_wake_grace now i.platform_remote_stale_since)
unfolding heartbeat_watchdog_expired
watchdog-Before i now is_ui running matches advanced =
    elim (Bool-cases (heartbeat_frozen i now is_ui running matches advanced)) [
      | inl t ↦ rw t (
        λ h. (refl, (grace_over now i.platform_remote_stale_since).0 h),
        λ (f, b). (grace_over now i.platform_remote_stale_since).1 b,
      )
      | inr t ↦ rw t (λ h. cc, λ (f, b). cc)
    ]

-- A heartbeat is frozen only in the app, while both sides count as running, on a frame that is not new,
-- and when the last new frame came at least fifteen seconds ago.
pub frozen-Before :
    (i : Inner) (now : ℕ) (is_ui running matches advanced : Bool)
    → heartbeat_frozen i now is_ui running matches advanced ≡ true
    → (is_ui ≡ true)
      × (i.platform_vpn_running ≡ true)
      × (running ≡ true)
      × (advanced ≡ false)
      × Before heartbeat_stale_after now i.platform_remote_state_seen_at
unfolding heartbeat_frozen
frozen-Before i now is_ui running matches advanced h = (
  ground arith,
  ground arith,
  ground arith,
  ground arith,
  seen_Before now i.platform_remote_state_seen_at (ground arith),
)
