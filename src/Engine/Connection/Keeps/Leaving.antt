-- ===== src/Engine/Connection/Keeps/Leaving.antt =====
-- `Settled` and the end of a connection: `disconnect_inner`, `on_native_session_ended` and `tick` of
-- crates/hopenconnect_core/src/engine/connection.rs.
use h_openconnect.Base.{
  ℕ, ◌≡◌, refl, arith, Bool, true, false, ◌&&◌, ◌||◌, not, Option, none, some, Text, if◌then◌else◌,
  ◌==◌, Bool-cases, inl, inr,
}
use h_openconnect.Model.Lifecycle.{is_active}
use h_openconnect.Bridge.State.{PlatformStartOutcome}
use h_openconnect.Bridge.Envelope.{is_present}
use h_openconnect.Owner.Storage.{Json}
use h_openconnect.Engine.State.{Inner, SessionEngine, Env, ok, ◌>>=◌}
use h_openconnect.Engine.Diagnostics.{push_diag}
use h_openconnect.Engine.Publish.{persist_platform}
use h_openconnect.Engine.Envelope.{synced, with_inner}
use h_openconnect.Engine.Envelope.Merge.{
  is_terminal_outcome, is_failed_outcome, is_connected, is_disconnected,
}
use h_openconnect.Engine.Envelope.Rules.{Settled, is_over}
use h_openconnect.Engine.Envelope.Safety.{sync-Settled}
use h_openconnect.Engine.Keeps.{same-Keeps, bind-Keeps, test-Keeps}
use h_openconnect.Engine.Invariant.{settle-over}
use h_openconnect.Engine.Invariant.Methods.{KeepsSettled, publish-Settled, last_published}
use h_openconnect.Engine.Invariant.Stopped.{liveness-Keeps}
use h_openconnect.Engine.Ownership.{Host}
use h_openconnect.Engine.Connection.Ending.{
  is_other, begin_disconnect, disconnect_requested, finish_disconnect, disconnect_finished,
  is_leaving, on_native_session_ended, session_ended, has_ended, fail_outcome, name_end,
  end_quietly,
}
use h_openconnect.Engine.Connection.Tick.{
  begin_tick, check_liveness, refresh_stats, check_native, protect_failed, orphan_stopped,
  owner_mismatch, has_role, NativeState, after_native, loop_finished, loop_crashed, show_traffic,
  synthetic_traffic, finish_tick,
}
use h_openconnect.Engine.Connection.Keeps.{down-Settled, quietly-Settled}

requested_over :
    (o : PlatformStartOutcome)
    → is_over (if is_failed_outcome o then o else PlatformStartOutcome.cancelled) ≡ true
requested_over o = ground arith

fail_outcome-Settled :
    (env : Env) (t : Text) (i : Inner)
    → i.platform_vpn_running ≡ false
    → Settled (fail_outcome env t i)
unfolding push_diag
fail_outcome-Settled env t i r = down-Settled _ r (λ c. refl)

end_quietly-Settled :
    (i : Inner) → i.platform_vpn_running ≡ false → Settled i → Settled (end_quietly i)
end_quietly-Settled i r s = elim (Bool-cases (is_disconnected i.snapshot.lifecycle)) [
  | inl t ↦ rw t s
  | inr t ↦ rw t (
      down-Settled _ r
        (λ c. settle-over PlatformStartOutcome.cancelled i.platform_start_outcome (s.ended c)))
]

name_end-Settled :
    (env : Env) (b : Bool) (o : Option Text) (i : Inner)
    → i.platform_vpn_running ≡ false
    → Settled i
    → Settled (name_end env b o i)
name_end-Settled env b (some t) i r s = fail_outcome-Settled env t i r
name_end-Settled env true none i r s = fail_outcome-Settled env _ i r
name_end-Settled env false none i r s = end_quietly-Settled i r s

if-Settled : (b : Bool) {i j : Inner} → Settled i → Settled j → Settled (if b then i else j)
if-Settled true s t = s
if-Settled false s t = t

session_ended-Settled :
    (env : Env) (o : Option Text) (i : Inner) → Settled i → Settled (session_ended env o i)
unfolding session_ended
session_ended-Settled env o i s =
    let j = record i {
      running_native = none;
      pending_native = false;
      platform_vpn_running = false;
      platform_vpn_starting = false;
    } in
    let d = down-Settled j refl s.ended in
    let k =
      if-Settled (has_ended j.snapshot.lifecycle || is_terminal_outcome j.platform_start_outcome) d
        (name_end-Settled env (i.platform_vpn_running && is_connected i.platform_start_outcome) o j
          refl d) in
    record { stopped = k.stopped; ended = k.ended }

refresh_stats-Settled : (env : Env) (i : Inner) → Settled i → Settled (refresh_stats env i)
unfolding refresh_stats
refresh_stats-Settled env i s = go i.connected_at
  where
    go : (o : Option ℕ) → Settled (refresh_stats env (record i { connected_at = o }))
    go none = record { stopped = s.stopped; ended = s.ended }
    go (some t) =
        if-Settled (is_active i.snapshot.lifecycle)
          (record { stopped = s.stopped; ended = s.ended })
          (record { stopped = s.stopped; ended = s.ended })

after_native-Settled :
    (env : Env) (n : NativeState) (i : Inner) → Settled i → Settled (after_native env n i)
unfolding show_traffic loop_finished loop_crashed push_diag
after_native-Settled env (NativeState.working t) i s = record {
  stopped = s.stopped;
  ended = s.ended;
}
after_native-Settled env NativeState.finished i s =
    elim (Bool-cases (i.platform_vpn_running && is_connected i.platform_start_outcome)) [
      | inl t ↦ rw t (down-Settled _ refl (λ c. refl))
      | inr t ↦ rw t (down-Settled _ refl s.ended)
    ]
after_native-Settled env (NativeState.crashed t) i s = down-Settled _ refl (λ c. refl)

module _ (env : Env) where
  leaving-Settled : (i : Inner) → Settled (disconnect_requested env i)
  unfolding disconnect_requested push_diag
  leaving-Settled i = down-Settled _ refl (λ c. requested_over i.platform_start_outcome)

  pub begin_disconnect-Keeps :
      (expected : Option Text) → KeepsSettled (begin_disconnect env expected)
  unfolding begin_disconnect ◌>>=◌
  begin_disconnect-Keeps expected e s =
      test-Keeps Settled (is_other expected e.inner) (λ t. record { holds = s })
        λ t.
          test-Keeps Settled (is_disconnected e.inner.snapshot.lifecycle)
            (λ u. record { holds = s })
            λ u.
              bind-Keeps Settled (persist_platform env) _ (publish-Settled env)
                (λ x f p. record { holds = p }) (with_inner (disconnect_requested env) e)
                (leaving-Settled e.inner)

  finished-Settled : (i : Inner) → Settled i → Settled (disconnect_finished i)
  unfolding disconnect_finished
  finished-Settled i s = down-Settled _ refl s.ended

  pub finish_disconnect-Settled :
      (generation : ℕ) (expected : Option Text) (e : SessionEngine)
      → Settled e.inner
      → Settled (finish_disconnect env generation expected e).1.inner
  unfolding finish_disconnect
  finish_disconnect-Settled generation expected e s =
      elim (Bool-cases (not (e.inner.generation == generation) || is_other expected e.inner)) [
        | inl t ↦ rw t s
        | inr t ↦ elim (Bool-cases (is_leaving e.inner.snapshot.lifecycle)) [
          | inl u ↦ rw t (
              rw u (
                quietly-Settled env (with_inner disconnect_finished e)
                  (finished-Settled e.inner s)))
          | inr u ↦ rw t (rw u s)
        ]
      ]

  pub native_ended-Keeps :
      (generation : ℕ) (error : Option Text)
      → KeepsSettled (on_native_session_ended env generation error)
  unfolding on_native_session_ended
  native_ended-Keeps generation error e s =
      test-Keeps Settled (not (e.inner.generation == generation)) (λ t. record { holds = s })
        (λ t.
          last_published env (session_ended env error) e
            (session_ended-Settled env error e.inner s))

  protect-Settled : (t : Text) (i : Inner) → Settled (protect_failed env t i)
  unfolding protect_failed push_diag
  protect-Settled t i = down-Settled _ refl (λ c. refl)

  orphan-Settled : (i : Inner) → Settled i → Settled (orphan_stopped env i)
  unfolding orphan_stopped push_diag
  orphan-Settled i s = down-Settled _ refl s.ended

  check_native-Settled :
      (is_extension : Bool) (o : Option Text) (e : SessionEngine)
      → Settled e.inner
      → Settled (check_native env is_extension o e).inner
  check_native-Settled is_extension (some t) e s =
      quietly-Settled env (with_inner (protect_failed env t) e) (protect-Settled t e.inner)
  check_native-Settled is_extension none e s =
      elim (Bool-cases (
        is_extension
        && (owner_mismatch e.inner || is_terminal_outcome e.inner.platform_start_outcome)
        && is_present e.inner.running_native)) [
          | inl t ↦
              rw t
                (quietly-Settled env (with_inner (orphan_stopped env) e) (orphan-Settled e.inner s))
          | inr t ↦ rw t s
        ]

  check_liveness-Keeps : (json : Json) (host : Host) → KeepsSettled (check_liveness json env host)
  check_liveness-Keeps json host e s =
      test-Keeps Settled (has_role true e) (λ t. liveness-Keeps json env host e s)
        (λ t. same-Keeps Settled (ok tt) e s)

  pub begin_tick-Keeps :
      (json : Json) (host : Host) (error : Option Text)
      → KeepsSettled (begin_tick json env host error)
  unfolding begin_tick ◌>>=◌
  begin_tick-Keeps json host error e s =
      bind-Keeps Settled (check_liveness json env host) _ (check_liveness-Keeps json host)
        (λ x f p. record {
          holds =
              check_native-Settled _ _ (with_inner (refresh_stats env) f)
                (refresh_stats-Settled env f.inner p);
        })
        (synced env e) (sync-Settled env e s)

  synthetic-Settled : (i : Inner) → Settled i → Settled (synthetic_traffic i)
  unfolding synthetic_traffic
  synthetic-Settled i s =
      if-Settled (i.dry_run && is_active i.snapshot.lifecycle)
        (record { stopped = s.stopped; ended = s.ended }) s

  pub finish_tick-Settled :
      (native : NativeState) (e : SessionEngine)
      → Settled e.inner
      → Settled (finish_tick env native e).1.inner
  unfolding finish_tick
  finish_tick-Settled native e s = elim (Bool-cases (is_present e.inner.running_native)) [
    | inl t ↦ rw t (
        quietly-Settled env (with_inner (after_native env native) e)
          (after_native-Settled env native e.inner s))
    | inr t ↦ rw t (synthetic-Settled e.inner s)
  ]
