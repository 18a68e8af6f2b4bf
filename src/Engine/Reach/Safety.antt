-- ===== src/Engine/Reach/Safety.antt =====
-- What holds after any life of an engine.
use h_openconnect.Engine.Reach.{
  EngineStep, syncs, intends, begins_stop, completes_stop, fails_stop, cancels, asks_stop,
  shows_starting, reports_starting, shows_down, shows_up, fails, reports_failure, expires,
  clears_handoff, begins, gives_up, binds, cleans, claims, checks_owner, recovers, initializes,
  attaches, connects, authenticates, ends_connect, prepares, has_prepared, attaches_tun, has_tun,
  disconnects, has_disconnected, loses_session, ticks, has_ticked, reads_changes, queues_request,
  takes_request, clears_request, logs, EngineReach, created, next,
}
use h_openconnect.Base.{
  ℕ, ◌≡◌, refl, true, false, Text, Bool-cases, inl, inr, ltb, ◌+◌, ◌^◌, ◌==◌, ◌||◌, ◌&&◌, not,
  is_empty,
}
use h_openconnect.Owner.Storage.{Json, Entry}
use h_openconnect.Engine.State.{Inner, SessionEngine, Env, new}
use h_openconnect.Engine.Envelope.{synced}
use h_openconnect.Engine.Envelope.Merge.{is_terminal_outcome}
use h_openconnect.Engine.Envelope.Rules.{Settled}
use h_openconnect.Engine.Envelope.Safety.{sync-Settled}
use h_openconnect.Engine.Stop.{
  advance_platform_vpn_intent, fenced_at, begin_platform_vpn_os_stop, complete_platform_vpn_os_stop,
  fail_platform_vpn_os_stop,
}
use h_openconnect.Engine.Attempt.{set_platform_vpn_running, apply_platform_vpn_running}
use h_openconnect.Engine.Invariant.{up-Settled}
use h_openconnect.Engine.Invariant.Methods.{
  cancel-Settled, request-Settled, starting-Settled, starting_for-Settled, down-Keeps, failed-Keeps,
  failed_for-Keeps, expire-Keeps, clear-Keeps, last_published,
}
use h_openconnect.Engine.Invariant.Owners.{begin-Keeps, fail_if-Keeps}
use h_openconnect.Engine.Invariant.Bound.{bind_start-Keeps}
use h_openconnect.Engine.Invariant.Stopped.{cleanup-Keeps, claim-Keeps, liveness-Keeps}
use h_openconnect.Engine.Invariant.Released.{recover-Keeps}
use h_openconnect.Engine.Envelope.Safety.{line-Settled}
use h_openconnect.Engine.Requests.{changes-Keeps, queue-Keeps, take-Keeps, clear_request-Keeps}
use h_openconnect.Engine.Connection.Keeps.{
  initialize-Keeps, attach-Keeps, begin_connect-Keeps, authentication-Settled, finish_connect-Keeps,
  begin_prepare-Keeps, finish_prepare-Keeps, begin_attach-Settled, finish_attach-Keeps,
}
use h_openconnect.Engine.Connection.Keeps.Leaving.{
  begin_disconnect-Keeps, finish_disconnect-Settled, native_ended-Keeps, begin_tick-Keeps,
  finish_tick-Settled,
}

intend-Settled : (i : Inner) → Settled i → Settled (advance_platform_vpn_intent i).1
unfolding advance_platform_vpn_intent
intend-Settled i s = elim (Bool-cases (ltb (i.platform_vpn_intent_epoch + 1) (2 ^ 64))) [
  | inl t ↦ rw t (record { stopped = s.stopped; ended = s.ended })
  | inr t ↦ rw t s
]

begin_os-Settled :
    (epoch : ℕ) (a : Text) (i : Inner)
    → Settled i
    → Settled (begin_platform_vpn_os_stop epoch a i).1
unfolding begin_platform_vpn_os_stop
begin_os-Settled epoch a i s =
    elim (Bool-cases
      (epoch == 0 || not (i.platform_vpn_intent_epoch == epoch) || i.platform_os_stop_in_flight)) [
        | inl t ↦ rw t s
        | inr t ↦ elim (Bool-cases (i.platform_os_stop_epoch == 0)) [
          | inl u ↦ elim (Bool-cases (is_empty a)) [
            | inl v ↦ rw t (rw u (rw v (record { stopped = s.stopped; ended = s.ended })))
            | inr v ↦ rw t (rw u (rw v s))
          ]
          | inr u ↦ elim (Bool-cases (fenced_at epoch a i)) [
            | inl v ↦ rw t (rw u (rw v (record { stopped = s.stopped; ended = s.ended })))
            | inr v ↦ rw t (rw u (rw v s))
          ]
        ]
      ]

complete_os-Settled :
    (epoch : ℕ) (a : Text) (i : Inner)
    → Settled i
    → Settled (complete_platform_vpn_os_stop epoch a i).1
unfolding complete_platform_vpn_os_stop
complete_os-Settled epoch a i s =
    elim (Bool-cases (fenced_at epoch a i && i.platform_os_stop_in_flight)) [
      | inl t ↦ rw t (record { stopped = s.stopped; ended = s.ended })
      | inr t ↦ rw t s
    ]

fail_os-Settled :
    (epoch : ℕ) (a : Text) (i : Inner) → Settled i → Settled (fail_platform_vpn_os_stop epoch a i).1
unfolding fail_platform_vpn_os_stop
fail_os-Settled epoch a i s =
    elim (Bool-cases (fenced_at epoch a i && i.platform_os_stop_in_flight)) [
      | inl t ↦ rw t (record { stopped = s.stopped; ended = s.ended })
      | inr t ↦ rw t s
    ]

up-Keeps :
    (env : Env) (e : SessionEngine)
    → is_terminal_outcome (synced env e).inner.platform_start_outcome ≡ false
    → Settled e.inner
    → Settled (set_platform_vpn_running env true e).1.inner
unfolding set_platform_vpn_running
up-Keeps env e n s =
    (last_published env (apply_platform_vpn_running env true) (synced env e)
      (up-Settled env (synced env e).inner n (sync-Settled env e s))).holds

EngineStep-Settled :
    {json : Json} {e e' : SessionEngine} → EngineStep json e e' → Settled e.inner → Settled e'.inner
EngineStep-Settled (syncs env e) s = sync-Settled env e s
EngineStep-Settled (intends e) s = intend-Settled e.inner s
EngineStep-Settled (begins_stop epoch a e) s = begin_os-Settled epoch a e.inner s
EngineStep-Settled (completes_stop epoch a e) s = complete_os-Settled epoch a e.inner s
EngineStep-Settled (fails_stop epoch a e) s = fail_os-Settled epoch a e.inner s
EngineStep-Settled (cancels env a e) s = (cancel-Settled env a e s).holds
EngineStep-Settled (asks_stop env a e) s = (request-Settled env a e s).holds
EngineStep-Settled (shows_starting env b e) s = (starting-Settled env b e s).holds
EngineStep-Settled (reports_starting env a b e) s = (starting_for-Settled env a b e s).holds
EngineStep-Settled (shows_down env e) s = (down-Keeps env e s).holds
EngineStep-Settled (shows_up env e n) s = up-Keeps env e n s
EngineStep-Settled (fails env t e) s = (failed-Keeps env t e s).holds
EngineStep-Settled (reports_failure env a t e) s = (failed_for-Keeps env a t e s).holds
EngineStep-Settled (expires env e) s = (expire-Keeps env e s).holds
EngineStep-Settled (clears_handoff env a e) s = (clear-Keeps env a e s).holds
EngineStep-Settled {json} (begins env host epoch e) s = (begin-Keeps json env host epoch e s).holds
EngineStep-Settled {json} (gives_up env host a t b e) s =
    (fail_if-Keeps json env host a t b e s).holds
EngineStep-Settled {json} (binds env host a e) s = (bind_start-Keeps json env host a e s).holds
EngineStep-Settled {json} (cleans env host a e) s = (cleanup-Keeps json env host a e s).holds
EngineStep-Settled {json} (claims env host epoch e) s = (claim-Keeps json env host epoch e s).holds
EngineStep-Settled {json} (checks_owner env host e) s = (liveness-Keeps json env host e s).holds
EngineStep-Settled {json} (recovers a rs e) s = (recover-Keeps json a rs e s).holds
EngineStep-Settled (initializes env b c d e) s = (initialize-Keeps env b c d e s).holds
EngineStep-Settled (attaches lane b e) s = (attach-Keeps lane b e s).holds
EngineStep-Settled (connects env t u b e) s = (begin_connect-Keeps env t u b e s).holds
EngineStep-Settled (authenticates env e) s = authentication-Settled env e.inner s
EngineStep-Settled (ends_connect env n t r e) s = (finish_connect-Keeps env n t r e s).holds
EngineStep-Settled (prepares e) s = (begin_prepare-Keeps e s).holds
EngineStep-Settled (has_prepared env n a p e) s = (finish_prepare-Keeps env n a p e s).holds
EngineStep-Settled (attaches_tun e) s = begin_attach-Settled e s
EngineStep-Settled (has_tun env n a t p e) s = (finish_attach-Keeps env n a t p e s).holds
EngineStep-Settled (disconnects env o e) s = (begin_disconnect-Keeps env o e s).holds
EngineStep-Settled (has_disconnected env n o e) s = finish_disconnect-Settled env n o e s
EngineStep-Settled (loses_session env n o e) s = (native_ended-Keeps env n o e s).holds
EngineStep-Settled {json} (ticks env host o e) s = (begin_tick-Keeps env json host o e s).holds
EngineStep-Settled (has_ticked env n e) s = finish_tick-Settled env n e s
EngineStep-Settled (reads_changes env e) s = (changes-Keeps env e s).holds
EngineStep-Settled (queues_request env t e) s = (queue-Keeps env t e s).holds
EngineStep-Settled (takes_request env e) s = (take-Keeps env e s).holds
EngineStep-Settled (clears_request env e) s = (clear_request-Keeps env e s).holds
EngineStep-Settled (logs env t u e) s = line-Settled env t u e.inner s

new-Settled : (journal : Entry) → Settled (new journal).inner
new-Settled journal = record { stopped = λ h. refl; ended = λ h. cc }

-- Whatever methods an engine has gone through, those that bind the shared memory and those of the
-- connection worker included, and whatever frames, journals, leases and native sessions they met, if the
-- tunnel was shown as up only for attempts that had not ended: the VPN is not marked as running for an
-- attempt that has ended, and nothing is marked as cleaned up while a start is pending or connected.
pub EngineReach-Settled : {json : Json} {e : SessionEngine} → EngineReach json e → Settled e.inner
EngineReach-Settled (created journal) = new-Settled journal
EngineReach-Settled (next r step) = EngineStep-Settled step (EngineReach-Settled r)
