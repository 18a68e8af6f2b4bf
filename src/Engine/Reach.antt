-- ===== src/Engine/Reach.antt =====
-- The life of one engine as steps: any method may take the lock next, whatever its clocks, the other
-- process, the journal, the leases and the native library answer. A method that locks more than once is
-- a step for each time. Left out are the methods on profiles and preferences, whose fields the state does
-- not have, and those that only read.
pub mod Safety
use h_openconnect.Base.{
  ℕ, Option, ◌≡◌, refl, Bool, true, false, Text, List, codes, Bool-cases, inl, inr, ltb, ◌+◌, ◌^◌,
  ◌==◌, ◌||◌, ◌&&◌, not, is_empty,
}
use h_openconnect.Owner.Storage.{Json, Entry}
use h_openconnect.Engine.State.{Inner, SessionEngine, Env, new}
use h_openconnect.Engine.Envelope.{synced, with_inner}
use h_openconnect.Bridge.Envelope.{PlatformEnvelope}
use h_openconnect.Engine.Diagnostics.{push_diag}
use h_openconnect.Engine.Memory.{initialize_platform_shared_memory, attach_platform_shared_memory}
use h_openconnect.Engine.Requests.{
  sync_platform_changes, queue_platform_browser_open_request, take_platform_browser_open_request,
  clear_platform_browser_open_request,
}
use h_openconnect.Engine.Connection.{
  PreparedConnect, ConnectResult, begin_connect, begin_authentication, finish_connect,
  begin_prepare_in_extension, finish_prepare_in_extension, begin_attach_tun, finish_attach_tun,
}
use h_openconnect.Engine.Connection.Ending.{
  begin_disconnect, finish_disconnect, on_native_session_ended,
}
use h_openconnect.Engine.Connection.Tick.{NativeState, begin_tick, finish_tick}
use h_openconnect.Engine.Envelope.Merge.{is_terminal_outcome}
use h_openconnect.Engine.Envelope.Rules.{Settled, Ended}
use h_openconnect.Engine.Envelope.Safety.{sync-Settled}
use h_openconnect.Engine.Ownership.{Host}
use h_openconnect.Engine.Stop.{
  advance_platform_vpn_intent, fenced_at, begin_platform_vpn_os_stop, complete_platform_vpn_os_stop,
  fail_platform_vpn_os_stop,
}
use h_openconnect.Engine.Attempt.{
  cancel_platform_vpn_start, request_platform_vpn_stop, set_platform_vpn_starting,
  set_platform_vpn_starting_for_attempt, set_platform_vpn_running, apply_platform_vpn_running,
  set_platform_vpn_failed, set_platform_vpn_failed_for_attempt, expire_platform_vpn_start,
  clear_platform_session_handoff,
}
use h_openconnect.Engine.Start.{begin_platform_vpn_start_for_intent, fail_platform_vpn_start_if}
use h_openconnect.Engine.Extension.{bind_platform_vpn_start, complete_platform_vpn_cleanup}
use h_openconnect.Engine.Recovery.{
  claim_current_platform_vpn_stop, refresh_platform_vpn_owner_liveness,
}
use h_openconnect.Engine.Cleanup.{Round, recover_platform_vpn_cleanup_after_confirmed_stop}
use h_openconnect.Engine.Invariant.{up-Settled}
use h_openconnect.Engine.Invariant.Methods.{
  cancel-Settled, request-Settled, starting-Settled, starting_for-Settled, down-Keeps, failed-Keeps,
  failed_for-Keeps, expire-Keeps, clear-Keeps, last_published,
}
use h_openconnect.Engine.Invariant.Owners.{begin-Keeps, fail_if-Keeps}
use h_openconnect.Engine.Invariant.Bound.{bind_start-Keeps}
use h_openconnect.Engine.Invariant.Stopped.{cleanup-Keeps, claim-Keeps, liveness-Keeps}
use h_openconnect.Engine.Invariant.Released.{recover-Keeps}

abbrev pub on_inner : {A : Type 0} → (Inner → A × Inner) → SessionEngine → SessionEngine
on_inner f e = record e { inner = (f e.inner).1 }

-- The tunnel is shown as up only for an attempt that has not ended: the app does it in a dry run.
pub data EngineStep (json : Json) : SessionEngine → SessionEngine → Type 0 where
  syncs : (env : Env) (e : SessionEngine) → EngineStep json e (synced env e)
  intends : (e : SessionEngine) → EngineStep json e (on_inner advance_platform_vpn_intent e)
  begins_stop :
      (epoch : ℕ) (a : Text) (e : SessionEngine)
      → EngineStep json e (on_inner (begin_platform_vpn_os_stop epoch a) e)
  completes_stop :
      (epoch : ℕ) (a : Text) (e : SessionEngine)
      → EngineStep json e (on_inner (complete_platform_vpn_os_stop epoch a) e)
  fails_stop :
      (epoch : ℕ) (a : Text) (e : SessionEngine)
      → EngineStep json e (on_inner (fail_platform_vpn_os_stop epoch a) e)
  cancels :
      (env : Env) (a : Text) (e : SessionEngine)
      → EngineStep json e (cancel_platform_vpn_start env a e).1
  asks_stop :
      (env : Env) (a : Text) (e : SessionEngine)
      → EngineStep json e (request_platform_vpn_stop env a e).1
  shows_starting :
      (env : Env) (b : Bool) (e : SessionEngine)
      → EngineStep json e (set_platform_vpn_starting env b e).1
  reports_starting :
      (env : Env) (a : Text) (b : Bool) (e : SessionEngine)
      → EngineStep json e (set_platform_vpn_starting_for_attempt env a b e).1
  shows_down :
      (env : Env) (e : SessionEngine) → EngineStep json e (set_platform_vpn_running env false e).1
  shows_up :
      (env : Env) (e : SessionEngine)
      → is_terminal_outcome (synced env e).inner.platform_start_outcome ≡ false
      → EngineStep json e (set_platform_vpn_running env true e).1
  fails :
      (env : Env) (t : Text) (e : SessionEngine)
      → EngineStep json e (set_platform_vpn_failed env t e).1
  reports_failure :
      (env : Env) (a t : Text) (e : SessionEngine)
      → EngineStep json e (set_platform_vpn_failed_for_attempt env a t e).1
  expires : (env : Env) (e : SessionEngine) → EngineStep json e (expire_platform_vpn_start env e).1
  clears_handoff :
      (env : Env) (a : Text) (e : SessionEngine)
      → EngineStep json e (clear_platform_session_handoff env a e).1
  begins :
      (env : Env) (host : Host) (epoch : ℕ) (e : SessionEngine)
      → EngineStep json e (begin_platform_vpn_start_for_intent json env host epoch e).1
  gives_up :
      (env : Env) (host : Host) (a t : Text) (b : Bool) (e : SessionEngine)
      → EngineStep json e (fail_platform_vpn_start_if json env host a t b e).1
  binds :
      (env : Env) (host : Host) (a : Text) (e : SessionEngine)
      → EngineStep json e (bind_platform_vpn_start json env host a e).1
  cleans :
      (env : Env) (host : Host) (a : Text) (e : SessionEngine)
      → EngineStep json e (complete_platform_vpn_cleanup json env host a e).1
  claims :
      (env : Env) (host : Host) (epoch : ℕ) (e : SessionEngine)
      → EngineStep json e (claim_current_platform_vpn_stop json env host epoch e).1
  checks_owner :
      (env : Env) (host : Host) (e : SessionEngine)
      → EngineStep json e (refresh_platform_vpn_owner_liveness json env host e).1
  recovers :
      (a : Text) (rs : List Round) (e : SessionEngine)
      → EngineStep json e (recover_platform_vpn_cleanup_after_confirmed_stop json a rs e).1
  initializes :
      (env : Env) (gives resets creates : Bool) (e : SessionEngine)
      → EngineStep json e (initialize_platform_shared_memory env gives resets creates e).1
  attaches :
      (lane : Option PlatformEnvelope) (b : Bool) (e : SessionEngine)
      → EngineStep json e (attach_platform_shared_memory lane b e).1
  connects :
      (env : Env) (server backend : Text) (dry_run : Bool) (e : SessionEngine)
      → EngineStep json e (begin_connect env server backend dry_run e).1
  authenticates :
      (env : Env) (e : SessionEngine) → EngineStep json e (with_inner (begin_authentication env) e)
  ends_connect :
      (env : Env) (generation : ℕ) (server : Text) (r : ConnectResult) (e : SessionEngine)
      → EngineStep json e (finish_connect env generation server r e).1
  prepares : (e : SessionEngine) → EngineStep json e (begin_prepare_in_extension e).1
  has_prepared :
      (env : Env) (generation : ℕ) (a : Text) (p : PreparedConnect) (e : SessionEngine)
      → EngineStep json e (finish_prepare_in_extension env generation a p e).1
  attaches_tun : (e : SessionEngine) → EngineStep json e (begin_attach_tun e).1
  has_tun :
      (env : Env) (generation : ℕ) (a line : Text) (p : PreparedConnect) (e : SessionEngine)
      → EngineStep json e (finish_attach_tun env generation a line p e).1
  disconnects :
      (env : Env) (expected : Option Text) (e : SessionEngine)
      → EngineStep json e (begin_disconnect env expected e).1
  has_disconnected :
      (env : Env) (generation : ℕ) (expected : Option Text) (e : SessionEngine)
      → EngineStep json e (finish_disconnect env generation expected e).1
  loses_session :
      (env : Env) (generation : ℕ) (error : Option Text) (e : SessionEngine)
      → EngineStep json e (on_native_session_ended env generation error e).1
  ticks :
      (env : Env) (host : Host) (error : Option Text) (e : SessionEngine)
      → EngineStep json e (begin_tick json env host error e).1
  has_ticked :
      (env : Env) (native : NativeState) (e : SessionEngine)
      → EngineStep json e (finish_tick env native e).1
  reads_changes :
      (env : Env) (e : SessionEngine) → EngineStep json e (sync_platform_changes env e).1
  queues_request :
      (env : Env) (uri : Text) (e : SessionEngine)
      → EngineStep json e (queue_platform_browser_open_request env uri e).1
  takes_request :
      (env : Env) (e : SessionEngine)
      → EngineStep json e (take_platform_browser_open_request env e).1
  clears_request :
      (env : Env) (e : SessionEngine)
      → EngineStep json e (clear_platform_browser_open_request env e).1
  logs :
      (env : Env) (level message : Text) (e : SessionEngine)
      → EngineStep json e (with_inner (push_diag env level message) e)

pub data EngineReach (json : Json) : SessionEngine → Type 0 where
  created : (journal : Entry) → EngineReach json (new journal)
  next : {e e' : SessionEngine} → EngineReach json e → EngineStep json e e' → EngineReach json e'
