-- ===== src/Engine/Cleanup.antt =====
-- `recover_platform_vpn_cleanup_after_confirmed_stop` of
-- crates/hopenconnect_core/src/engine/platform.rs: the app releases the cleanup barrier itself once the
-- OS has stopped the Extension and its lease is free. A round of the loop has two environments, since
-- the lock is let go in between.
use h_openconnect.Base.{
  Bool, true, false, ◌&&◌, not, Option, none, some, List, [], ◌∷◌, if◌then◌else◌, is_empty, Text,
  text_eq, codes, ◌++◌,
}
use h_openconnect.Model.Lifecycle.{disconnected}
use h_openconnect.Bridge.State.{PlatformStartOutcome}
use h_openconnect.Owner.Record.{
  ProcessIdentity, PlatformVpnOwnerPhase, pending, attached, stopping, PlatformVpnOwnerJournal,
  JournalRead, PlatformVpnOwnerLeaseRole,
}
use h_openconnect.Owner.Storage.{Json}
use h_openconnect.Owner.Lease.{PlatformVpnOwnerLeaseObservation, observe_owner_lease_exact}
use h_openconnect.Owner.Journal.{read, delete_exact}
use h_openconnect.Engine.State.{
  Inner, SessionEngine, Env, EngineError, CoreResult, ok, err, Action, ◌>>=◌, ◌>>◌, return, fail,
  change,
}
use h_openconnect.Engine.Diagnostics.{set_lifecycle, push_diag}
use h_openconnect.Engine.Publish.{persist_platform}
use h_openconnect.Engine.Envelope.{synced}
use h_openconnect.Engine.Envelope.Merge.{is_terminal_outcome, is_failed_outcome}
use h_openconnect.Engine.Ownership.{Host, lift, on_journal, platform_owner_lease_record}

pub data CleanupRecoveryProof : Type 0 where
  proven owner_alive owner_liveness_unknown : CleanupRecoveryProof

-- How a round ends: with the method's answer, at once with another round, or after a pause.
pub data RoundOutcome : Type 0 where
  answered : Bool → RoundOutcome
  repeats pauses : RoundOutcome

abbrev proof_of : PlatformVpnOwnerLeaseObservation → CleanupRecoveryProof
proof_of PlatformVpnOwnerLeaseObservation.released = CleanupRecoveryProof.proven
proof_of PlatformVpnOwnerLeaseObservation.held_exact = CleanupRecoveryProof.owner_alive
proof_of PlatformVpnOwnerLeaseObservation.held_other = CleanupRecoveryProof.owner_liveness_unknown

abbrev pub is_cleaned : Text → Inner → Bool
is_cleaned attempt i =
    text_eq i.platform_start_attempt_id attempt && i.platform_vpn_cleanup_complete

unfoldable pub local_unattached_fence : Text → Inner → Bool
local_unattached_fence attempt i =
    text_eq i.platform_start_attempt_id attempt
    && not i.platform_extension_attached
    && i.platform_stop_requested
    && is_terminal_outcome i.platform_start_outcome

-- The reason at the end of the line is left out.
unfoldable pub released_barrier : Env → Text → Inner → Inner
released_barrier env attempt i =
    let j = record i {
      platform_vpn_starting = false;
      platform_vpn_running = false;
      platform_start_outcome =
          if is_failed_outcome i.platform_start_outcome
          then i.platform_start_outcome
          else PlatformStartOutcome.cancelled;
    } in
    let k =
      if is_failed_outcome i.platform_start_outcome then j else set_lifecycle disconnected none j in
    record (push_diag env (codes "warn")
      (codes "released orphaned platform VPN cleanup barrier for "
        ++ attempt
        ++ codes " after confirmed OS stop: ")
      (record k {
        platform_vpn_cleanup_complete = true;
        platform_extension_attached = false;
        platform_stop_requested = true;
        platform_extension_owner_pid = 0;
        platform_extension_owner_start_time = 0;
        platform_watchdog_cleanup_recoverable = false;
      })) { platform_vpn_issuer_lease = none; platform_vpn_extension_lease = none }

module _ (json : Json) (env env' : Env) (host : Host) (expired : Bool) where
  abbrev pub prove_by :
      PlatformVpnOwnerPhase
      → Option ProcessIdentity
      → Bool
      → Text
      → PlatformVpnOwnerJournal
      → Action CleanupRecoveryProof
  prove_by stopping none unattached attempt journal = return CleanupRecoveryProof.proven
  prove_by pending none true attempt journal = return CleanupRecoveryProof.proven
  prove_by pending none false attempt journal = do
    seen ← lift (
        observe_owner_lease_exact host.issuer_lease
          (platform_owner_lease_record attempt journal.issuer PlatformVpnOwnerLeaseRole.issuer))
    return (proof_of seen)
  prove_by attached (some extension) unattached attempt journal = do
    seen ← lift (
        observe_owner_lease_exact host.extension_lease
          (platform_owner_lease_record attempt extension PlatformVpnOwnerLeaseRole.extension))
    return (proof_of seen)
  prove_by _ _ unattached attempt journal = fail EngineError.invalid_phase

  abbrev pub release_synced : Text → Action RoundOutcome
  release_synced attempt e =
      if not (text_eq e.inner.platform_start_attempt_id attempt)
      then (ok (RoundOutcome.answered true), e)
      else if e.inner.platform_vpn_cleanup_complete
      then (ok (RoundOutcome.answered true), e)
      else (do
        change (released_barrier env' attempt)
        persist_platform env'
        return (RoundOutcome.answered true))
          e

  -- Ownership that changed between the proof and the deletion is read again.
  abbrev pub release_if : Text → Bool → Action RoundOutcome
  release_if attempt false e = (ok RoundOutcome.repeats, e)
  release_if attempt true e = release_synced attempt (synced env' e)

  abbrev pub recover_by :
      CleanupRecoveryProof → Text → PlatformVpnOwnerJournal → Action RoundOutcome
  recover_by CleanupRecoveryProof.proven attempt journal = do
    deleted ← on_journal (delete_exact json host.update attempt journal.extension)
    release_if attempt deleted
  recover_by CleanupRecoveryProof.owner_alive attempt journal =
      return (if expired then RoundOutcome.answered false else RoundOutcome.pauses)
  recover_by CleanupRecoveryProof.owner_liveness_unknown attempt journal =
      fail EngineError.lease_unknown

  abbrev pub journal_gone : Text → Action RoundOutcome
  journal_gone attempt e =
      let e' = synced env' e in
      if is_cleaned attempt e'.inner
      then (ok (RoundOutcome.answered true), e')
      else (err EngineError.journal_missing, e')

  abbrev pub recover_found : Bool → Text → JournalRead → Action RoundOutcome
  recover_found unattached attempt JournalRead.missing = journal_gone attempt
  recover_found unattached attempt (JournalRead.present journal) =
      if text_eq journal.attempt_id attempt
      then (do
        proof ← prove_by journal.phase journal.extension unattached attempt journal
        recover_by proof attempt journal)
      else return (RoundOutcome.answered false)

  abbrev pub recover_synced : Text → Action RoundOutcome
  recover_synced attempt e =
      if is_cleaned attempt e.inner
      then (ok (RoundOutcome.answered true), e)
      else (do
        found ← on_journal (read json host.journal)
        recover_found (local_unattached_fence attempt e.inner) attempt found)
          e

  unfoldable pub recover_round : Text → Action RoundOutcome
  recover_round attempt e = recover_synced attempt (synced env e)

-- What one round of the loop meets: its environments, and whether the deadline has passed.
pub record Round : Type 0 where
  pub first : Env
  pub second : Env
  pub host : Host
  pub expired : Bool

abbrev pub after_round :
    Action (Option Bool)
    → CoreResult RoundOutcome × SessionEngine
    → CoreResult (Option Bool) × SessionEngine
after_round rest (ok (RoundOutcome.answered b), e) = (ok (some b), e)
after_round rest (ok RoundOutcome.repeats, e) = rest e
after_round rest (ok RoundOutcome.pauses, e) = rest e
after_round rest (err x, e) = (err x, e)

-- The loop over the rounds that the clock allows; with none left it is still waiting.
unfoldable pub recover_rounds : Json → Text → List Round → Action (Option Bool)
recover_rounds json attempt [] e = (ok none, e)
recover_rounds json attempt (r ∷ rs) e =
    let rest = λ (f : SessionEngine). recover_rounds json attempt rs f in
    after_round rest (recover_round json r.first r.second r.host r.expired attempt e)

unfoldable pub recover_platform_vpn_cleanup_after_confirmed_stop :
    Json → Text → List Round → Action (Option Bool)
recover_platform_vpn_cleanup_after_confirmed_stop json attempt rounds e =
    if is_empty attempt then (ok (some false), e) else recover_rounds json attempt rounds e
