-- ===== src/Engine/Start.antt =====
-- Starting an attempt in the app, and failing it: crates/hopenconnect_core/src/engine/platform.rs.
use h_openconnect.Base.{
  ℕ, Bool, true, false, ◌&&◌, ◌||◌, not, Option, none, some, if◌then◌else◌, is_empty, Text, codes,
  ◌++◌, ◌==◌, decimal,
}
use h_openconnect.Model.Lifecycle.{establishing}
use h_openconnect.Bridge.State.{PlatformStartOutcome, SessionHandoff}
use h_openconnect.Owner.Record.{
  ProcessIdentity, pending, PlatformVpnOwnerJournal, JournalRead, PlatformVpnOwnerLeaseRole,
  PlatformVpnOwnerLeaseRecord,
}
use h_openconnect.Owner.Storage.{Json}
use h_openconnect.Owner.Lease.{acquire_owner_lease_exact}
use h_openconnect.Owner.Journal.{read, create_pending_exact, delete_pending_exact}
use h_openconnect.Engine.State.{
  Inner, Env, EngineError, ok, Action, ◌>>=◌, ◌>>◌, return, fail, change, saturating_suc,
}
use h_openconnect.Engine.Diagnostics.{set_lifecycle, push_diag}
use h_openconnect.Engine.Publish.{persist_platform}
use h_openconnect.Engine.Envelope.{synced}
use h_openconnect.Engine.Envelope.Merge.{is_pending}
use h_openconnect.Engine.Attempt.{platform_start_is_pending, apply_platform_vpn_failed}
use h_openconnect.Engine.Ownership.{Host, lift, on_journal, platform_owner_lease_record}

-- The id of the next attempt: the clock and the sequence number.
unfoldable pub next_attempt_id : Env → Inner → Text
next_attempt_id env i =
    decimal env.now_nanos ++ codes "-" ++ decimal (saturating_suc 64 i.platform_start_sequence)

abbrev pub pending_journal : Text → ProcessIdentity → PlatformVpnOwnerJournal
pending_journal attempt issuer = record {
  attempt_id = attempt;
  issuer = issuer;
  extension = none;
  phase = pending;
}

abbrev pub no_owner : JournalRead → Action (Unit {0})
no_owner JournalRead.missing = return tt
no_owner (JournalRead.present owner) = fail EngineError.owner_pending

-- A handoff that waits goes to the new attempt.
abbrev pub readdress : Env → Text → Option SessionHandoff → Option SessionHandoff
readdress env attempt none = none
readdress env attempt (some handoff) =
    some (record handoff { attempt_id = attempt; updated_at = env.now_nanos })

unfoldable pub started : Env → Text → PlatformVpnOwnerLeaseRecord → Inner → Inner
started env attempt lease i =
    let j = record i {
      platform_vpn_issuer_lease = some lease;
      platform_vpn_extension_lease = none;
      platform_start_sequence = saturating_suc 64 i.platform_start_sequence;
      platform_start_attempt_id = attempt;
      platform_start_outcome = PlatformStartOutcome.pending;
      platform_start_delivery_observed = false;
      platform_extension_attached = false;
      platform_stop_requested = false;
      platform_extension_owner_pid = 0;
      platform_extension_owner_start_time = 0;
      platform_vpn_cleanup_complete = false;
      platform_session_handoff = readdress env attempt i.platform_session_handoff;
      platform_vpn_starting = true;
      platform_vpn_running = false;
      platform_remote_state_updated_at = 0;
      platform_remote_state_seen_at = none;
      platform_remote_stale_since = none;
      platform_watchdog_cleanup_recoverable = false;
    } in
    push_diag env (codes "info") (codes "platform VPN start transaction " ++ attempt)
      (set_lifecycle establishing none j)

-- The state must be free for another attempt.
unfoldable pub start_refusal : Inner → Option EngineError
start_refusal i =
    if is_pending i.platform_start_outcome
    then some EngineError.start_pending
    else if not (is_empty i.platform_start_attempt_id) && not i.platform_vpn_cleanup_complete
    then some EngineError.cleanup_pending
    else if i.platform_vpn_running
    then some EngineError.already_connected
    else none

abbrev pub unless : Option EngineError → Action (Unit {0})
unless none = return tt
unless (some x) = fail x

unfoldable pub intent_refusal : ℕ → Inner → Option EngineError
intent_refusal epoch i =
    if epoch == 0 || not (i.platform_vpn_intent_epoch == epoch)
    then some EngineError.superseded
    else if not (i.platform_os_stop_epoch == 0)
    then some EngineError.stop_pending
    else none

-- The state of a start that fails; one that no Extension has is cleaned up with it.
unfoldable pub failed_start : Env → Bool → Text → Inner → Inner
failed_start env require_unattached error i =
    let j = record (apply_platform_vpn_failed env error i) {
      platform_start_outcome = PlatformStartOutcome.failed;
    } in
    let clean = require_unattached || j.platform_vpn_cleanup_complete in
    record j {
      platform_vpn_cleanup_complete = clean;
      platform_vpn_issuer_lease = if clean then none else j.platform_vpn_issuer_lease;
      platform_vpn_extension_lease = if clean then none else j.platform_vpn_extension_lease;
    }

module _ (json : Json) (env : Env) (host : Host) where
  -- The journal and the lease of a new attempt, before the state changes.
  unfoldable pub claim_attempt : Text → ProcessIdentity → Action PlatformVpnOwnerLeaseRecord
  claim_attempt attempt issuer = do
    owner ← on_journal (read json host.journal)
    no_owner owner
    lease ← lift (
        acquire_owner_lease_exact host.issuer_lease
          (platform_owner_lease_record attempt issuer PlatformVpnOwnerLeaseRole.issuer))
    on_journal (create_pending_exact json host.update (pending_journal attempt issuer))
    return lease

  abbrev pub begin_attempt : Text → ProcessIdentity → Action Text
  begin_attempt attempt issuer = do
    lease ← claim_attempt attempt issuer
    change (started env attempt lease)
    persist_platform env
    return attempt

  abbrev pub begin_synced : ProcessIdentity → Action Text
  begin_synced issuer e =
      (do unless (start_refusal e.inner); begin_attempt (next_attempt_id env e.inner) issuer) e

  abbrev pub begin_for : ℕ → ProcessIdentity → Action Text
  begin_for epoch issuer e =
      (do unless (intent_refusal epoch e.inner); (λ f. begin_synced issuer (synced env f))) e

  unfoldable pub begin_platform_vpn_start_for_intent : ℕ → Action Text
  begin_platform_vpn_start_for_intent epoch = do issuer ← lift host.identity; begin_for epoch issuer

  abbrev pub fail_now : Bool → Text → Action Bool
  fail_now require_unattached error = do
    change (failed_start env require_unattached error)
    persist_platform env
    return true

  abbrev pub fail_if_deleted : Text → Bool → Action Bool
  fail_if_deleted error true = fail_now true error
  fail_if_deleted error false = return false

  abbrev pub fail_synced : Text → Text → Bool → Action Bool
  fail_synced attempt error require_unattached e =
      if not (platform_start_is_pending e.inner attempt)
        || (require_unattached && e.inner.platform_extension_attached)
      then (ok false, e)
      else if require_unattached
      then (do
        deleted ← on_journal (delete_pending_exact json host.update attempt)
        fail_if_deleted error deleted)
          e
      else fail_now false error e

  unfoldable pub fail_platform_vpn_start_if : Text → Text → Bool → Action Bool
  fail_platform_vpn_start_if attempt error require_unattached e =
      fail_synced attempt error require_unattached (synced env e)

  unfoldable pub fail_unattached_platform_vpn_start : Text → Text → Action Bool
  fail_unattached_platform_vpn_start attempt error = fail_platform_vpn_start_if attempt error true

  unfoldable pub fail_platform_vpn_start : Text → Text → Action Bool
  fail_platform_vpn_start attempt error = fail_platform_vpn_start_if attempt error false
