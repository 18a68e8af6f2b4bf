-- ===== src/Engine/Connection/Keeps.antt =====
-- `Settled` and the connection worker, crates/hopenconnect_core/src/engine/connection.rs, and the binding
-- of the shared memory.
pub mod Leaving
use h_openconnect.Base.{
  ℕ, ◌≡◌, refl, arith, Bool, true, false, ◌&&◌, ◌||◌, not, Option, none, some, Text, if◌then◌else◌,
  ◌==◌, ◌+◌, ◌%◌, ◌^◌, Bool-cases, inl, inr,
}
use h_openconnect.Model.Lifecycle.{is_busy, is_active}
use h_openconnect.Bridge.State.{PlatformStartOutcome}
use h_openconnect.Bridge.Envelope.{PlatformEnvelope, is_present}
use h_openconnect.Owner.Storage.{Json}
use h_openconnect.Engine.State.{
  Inner, SessionEngine, PlatformIpc, Env, CoreResult, EngineError, ok, err, Action, ◌>>=◌, ◌>>◌,
  return, change, run,
}
use h_openconnect.Engine.Diagnostics.{push_diag}
use h_openconnect.Engine.Publish.{persist_platform}
use h_openconnect.Engine.Envelope.{synced, with_inner}
use h_openconnect.Engine.Envelope.Merge.{
  is_terminal_outcome, is_opening, is_failed_outcome, is_connected, is_disconnected,
}
use h_openconnect.Engine.Envelope.Rules.{Settled, is_over}
use h_openconnect.Engine.Envelope.Safety.{sync-Settled}
use h_openconnect.Engine.Attempt.{settle}
use h_openconnect.Engine.Keeps.{After, Keeps, same-Keeps, bind-Keeps, test-Keeps}
use h_openconnect.Engine.Invariant.{settle-over, not_terminal}
use h_openconnect.Engine.Invariant.Methods.{KeepsSettled, publish-Settled, last_published}
use h_openconnect.Engine.Invariant.Stopped.{liveness-Keeps}
use h_openconnect.Engine.Ownership.{Host}
use h_openconnect.Engine.Memory.{
  initialize_platform_shared_memory, initialize_on, attach_platform_shared_memory, ui_memory,
}
use h_openconnect.Engine.Connection.{
  ConnectResult, prepared, refused, PreparedConnect, begin_connect, fresh_connect, prepare_line,
  current_generation, begin_authentication, finish_connect, connect_prepared, connect_failed,
  publish_quietly, next_generation, begin_prepare_in_extension, is_stale, resumed,
  finish_prepare_in_extension, begin_attach_tun, tun_attached, finish_attach_tun,
}
use h_openconnect.Engine.Connection.Ending.{
  is_other, begin_disconnect, disconnect_requested, Disconnecting, finish_disconnect,
  disconnect_finished, is_leaving, on_native_session_ended, session_ended, has_ended, fail_outcome,
  name_end, end_quietly,
}
use h_openconnect.Engine.Connection.Tick.{
  begin_tick, check_liveness, refresh_stats, check_session, check_native, stop_orphan,
  protect_failed, orphan_stopped, owner_mismatch, has_role, reported, NativeState, after_native,
  loop_finished, loop_crashed, show_traffic, synthetic_traffic, finish_tick,
}

-- The VPN counts as down, and what is cleaned up is over.
pub down-Settled :
    (i : Inner)
    → i.platform_vpn_running ≡ false
    → (i.platform_vpn_cleanup_complete ≡ true → is_over i.platform_start_outcome ≡ true)
    → Settled i
down-Settled i r h = record { stopped = λ e. r; ended = h }

-- An attempt that has not ended can get its TUN.
attached_tun-Settled :
    (env : Env) (generation : ℕ) (a line : Text) (p : PreparedConnect) (i : Inner)
    → is_terminal_outcome i.platform_start_outcome ≡ false
    → Settled i
    → Settled (tun_attached env generation a line p i)
unfolding tun_attached push_diag
attached_tun-Settled env generation a line p i n s = record {
  stopped = λ h. not_terminal i.platform_start_outcome n h;
  ended = λ c. settle-over PlatformStartOutcome.connected i.platform_start_outcome (s.ended c);
}

pub attach-Keeps :
    (lane : Option PlatformEnvelope) (attaches : Bool)
    → KeepsSettled (attach_platform_shared_memory lane attaches)
unfolding attach_platform_shared_memory
attach-Keeps lane attaches e s =
    test-Keeps Settled attaches
      (λ t. record { holds = record { stopped = s.stopped; ended = s.ended } })
      (λ t. same-Keeps Settled (err EngineError.ipc) e s)

pub begin_prepare-Keeps : KeepsSettled begin_prepare_in_extension
unfolding begin_prepare_in_extension ◌>>=◌
begin_prepare-Keeps e s = record { holds = record { stopped = s.stopped; ended = s.ended } }

pub begin_attach-Settled :
    (e : SessionEngine) → Settled e.inner → Settled (begin_attach_tun e).1.inner
unfolding begin_attach_tun
begin_attach-Settled e s = record { stopped = s.stopped; ended = s.ended }

module _ (env : Env) where
  pub quietly-Settled :
      (e : SessionEngine) → Settled e.inner → Settled (publish_quietly env e).inner
  quietly-Settled e s = (publish-Settled env e s).holds

  initialize_on-Settled :
      (gives resets creates : Bool) (o : Option PlatformIpc)
      → KeepsSettled (initialize_on env gives resets creates o)
  initialize_on-Settled gives resets creates none e s =
      test-Keeps Settled (resets && creates)
        (λ t. publish-Settled env (record e { platform_ipc = some ui_memory }) s)
        (λ t. same-Keeps Settled (err EngineError.ipc) e s)
  initialize_on-Settled gives resets creates (some ipc) e s =
      test-Keeps Settled (ipc.is_ui && gives) (λ t. same-Keeps Settled (ok tt) e s)
        (λ t. same-Keeps Settled (err EngineError.ipc) e s)

  pub initialize-Keeps :
      (gives resets creates : Bool)
      → KeepsSettled (initialize_platform_shared_memory env gives resets creates)
  unfolding initialize_platform_shared_memory
  initialize-Keeps gives resets creates e s =
      initialize_on-Settled gives resets creates e.platform_ipc e s

  generation-Keeps : KeepsSettled current_generation
  generation-Keeps e s = record { holds = s }

  fresh-Settled : (t : Text) (b : Bool) (i : Inner) → Settled (fresh_connect env t b i)
  unfolding fresh_connect push_diag
  fresh-Settled t b i = down-Settled _ refl (λ c. refl)

  pub begin_connect-Keeps :
      (server backend : Text) (dry_run : Bool)
      → KeepsSettled (begin_connect env server backend dry_run)
  unfolding begin_connect ◌>>=◌
  begin_connect-Keeps server backend dry_run e s =
      test-Keeps Settled (is_busy e.inner.snapshot.lifecycle) (λ t. record { holds = s })
        λ t.
          test-Keeps Settled (is_present e.inner.running_native || e.inner.pending_native)
            (λ u. record { holds = s })
            λ u.
              bind-Keeps Settled (persist_platform env) (λ x. current_generation)
                (publish-Settled env) (λ x. generation-Keeps)
                (with_inner (fresh_connect env (prepare_line server backend dry_run) dry_run) e)
                (fresh-Settled _ dry_run e.inner)

  pub authentication-Settled : (i : Inner) → Settled i → Settled (begin_authentication env i)
  unfolding begin_authentication push_diag
  authentication-Settled i s = record { stopped = s.stopped; ended = s.ended }

  prepared-Settled :
      (server : Text) (p : PreparedConnect) (i : Inner)
      → Settled i
      → Settled (connect_prepared env server p i)
  unfolding connect_prepared push_diag
  prepared-Settled server p i s = record { stopped = s.stopped; ended = s.ended }

  refused-Settled : (t : Text) (i : Inner) → Settled i → Settled (connect_failed env t i)
  unfolding connect_failed push_diag
  refused-Settled t i s = down-Settled _ refl s.ended

  pub finish_connect-Keeps :
      (generation : ℕ) (server : Text) (r : ConnectResult)
      → KeepsSettled (finish_connect env generation server r)
  unfolding finish_connect
  finish_connect-Keeps generation server (prepared p) e s =
      test-Keeps Settled (not (e.inner.generation == generation)) (λ t. record { holds = s })
        (λ t.
          last_published env (connect_prepared env server p) e
            (prepared-Settled server p e.inner s))
  finish_connect-Keeps generation server (refused m) e s =
      test-Keeps Settled (not (e.inner.generation == generation)) (λ t. record { holds = s })
        (λ t. record {
          holds =
              quietly-Settled (with_inner (connect_failed env m) e) (refused-Settled m e.inner s);
        })

  resumed-Settled : (p : PreparedConnect) (i : Inner) → Settled i → Settled (resumed p i)
  unfolding resumed
  resumed-Settled p i s = record { stopped = s.stopped; ended = s.ended }

  pub finish_prepare-Keeps :
      (generation : ℕ) (a : Text) (p : PreparedConnect)
      → KeepsSettled (finish_prepare_in_extension env generation a p)
  unfolding finish_prepare_in_extension
  finish_prepare-Keeps generation a p e s =
      test-Keeps Settled (is_stale generation a e.inner) (λ t. record { holds = s })
        (λ t. last_published env (resumed p) e (resumed-Settled p e.inner s))

  pub finish_attach-Keeps :
      (generation : ℕ) (a line : Text) (p : PreparedConnect)
      → KeepsSettled (finish_attach_tun env generation a line p)
  unfolding finish_attach_tun
  finish_attach-Keeps generation a line p e s =
      test-Keeps Settled
        (is_stale generation a e.inner || not (is_opening e.inner.snapshot.lifecycle))
        (λ t. record { holds = s })
        (λ t.
          last_published env (tun_attached env generation a line p) e
            (attached_tun-Settled env generation a line p e.inner (ground arith) s))
