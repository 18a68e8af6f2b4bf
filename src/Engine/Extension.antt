-- ===== src/Engine/Extension.antt =====
-- The Extension's side of an attempt: binding to it and acknowledging its cleanup, in
-- crates/hopenconnect_core/src/engine/platform.rs.
use h_openconnect.Base.{
  ltb, Bool, true, false, ◌&&◌, ◌||◌, not, Option, none, some, if◌then◌else◌, is_empty, Text,
  text_eq, codes, ◌++◌, ◌==◌, decimal,
}
use h_openconnect.Model.Lifecycle.{as_str}
use h_openconnect.Bridge.State.{PlatformStartOutcome}
use h_openconnect.Bridge.Envelope.{is_present}
use h_openconnect.Owner.Record.{
  ProcessIdentity, PlatformVpnOwnerPhase, pending, attached, PlatformVpnOwnerJournal, JournalRead,
  PlatformVpnOwnerLeaseRole, PlatformVpnOwnerLeaseRecord, identity_eq,
}
use h_openconnect.Owner.Storage.{Json}
use h_openconnect.Owner.Lease.{acquire_owner_lease_exact, observe_owner_lease_exact}
use h_openconnect.Owner.Journal.{read, upgrade_attached_exact, rebind_attached_exact, delete_exact}
use h_openconnect.Engine.State.{
  Inner, Env, EngineError, CoreResult, ok, err, Action, ◌>>=◌, ◌>>◌, return, fail, change, run,
  guard,
}
use h_openconnect.Engine.Diagnostics.{push_diag}
use h_openconnect.Engine.Publish.{persist_platform}
use h_openconnect.Engine.Envelope.{synced, sync_platform_for_binding}
use h_openconnect.Engine.Envelope.Merge.{
  is_terminal_outcome, is_pending, is_connected, is_failed_outcome,
}
use h_openconnect.Engine.Ownership.{
  Host, lift, on_journal, journal_of, platform_owner_lease_record, require_held, require_released,
}

-- A connected attempt without a worker here is opened again.
unfoldable pub reopened : Env → Text → Inner → Inner
reopened env attempt i =
    if is_connected i.platform_start_outcome && not (is_present i.running_native)
    then push_diag env (codes "info")
        (codes "platform VPN extension recovering connected attempt " ++ attempt)
        (record i {
          platform_start_outcome = PlatformStartOutcome.pending;
          platform_vpn_starting = true;
          platform_vpn_running = false;
          platform_vpn_cleanup_complete = false;
          platform_watchdog_cleanup_recoverable = false;
        })
    else i

abbrev pub bind_refusal : Text → Inner → Option EngineError
bind_refusal attempt i =
    if not (text_eq i.platform_start_attempt_id attempt)
    then some EngineError.stale_attempt
    else if is_terminal_outcome i.platform_start_outcome
    then some EngineError.already_terminal
    else none

abbrev pub proceed : Option EngineError → Action (Unit {0})
proceed none = return tt
proceed (some x) = fail x

-- The owner's identity, and the attachment if it is new.
unfoldable pub attached_state : Env → Text → ProcessIdentity → Inner → Inner
attached_state env attempt owner i =
    let j = record i {
      platform_extension_owner_pid = owner.pid;
      platform_extension_owner_start_time = owner.start_time;
    } in
    if not i.platform_extension_attached
    then push_diag env (codes "info") (codes "platform VPN extension attached to " ++ attempt)
        (record j {
          platform_start_delivery_observed = true;
          platform_extension_attached = true;
          platform_vpn_cleanup_complete = false;
          platform_watchdog_cleanup_recoverable = false;
        })
    else if is_pending i.platform_start_outcome
        && i.platform_vpn_starting
        && not i.platform_vpn_running
    then record j { platform_start_delivery_observed = true }
    else j

-- Whether the attachment has to be published.
unfoldable pub attachment_changed : ProcessIdentity → Inner → Bool
attachment_changed owner i =
    not i.platform_extension_attached
    || (is_pending i.platform_start_outcome
        && i.platform_vpn_starting
        && not i.platform_vpn_running)
    || not (i.platform_extension_owner_pid == owner.pid)
    || not (i.platform_extension_owner_start_time == owner.start_time)

abbrev owner_name : ProcessIdentity → Text
owner_name owner =
    decimal owner.pid
    ++ codes ":"
    ++ (if ltb 0 owner.start_time then decimal owner.start_time else codes "unavailable")

-- The journal's Extension must be the process that acknowledges, as the state knows it.
abbrev pub is_acknowledging :
    ProcessIdentity → Inner → PlatformVpnOwnerPhase → Option ProcessIdentity → Bool
is_acknowledging owner i attached (some extension) =
    identity_eq extension owner
    && extension.pid == i.platform_extension_owner_pid
    && extension.start_time == i.platform_extension_owner_start_time
is_acknowledging owner i _ _ = false

unfoldable pub cleaned : Env → Text → Inner → Inner
cleaned env attempt i =
    record (push_diag env (codes "info")
      (codes "platform VPN connection cleanup completed for " ++ attempt)
      (record i {
        platform_vpn_cleanup_complete = true;
        platform_extension_attached = false;
        platform_stop_requested = true;
        platform_extension_owner_pid = 0;
        platform_extension_owner_start_time = 0;
        platform_watchdog_cleanup_recoverable = false;
      })) { platform_vpn_issuer_lease = none; platform_vpn_extension_lease = none }

-- The attempt must have ended in this process.
unfoldable pub may_be_cleaned : Text → Inner → Bool
may_be_cleaned attempt i =
    not (is_empty attempt)
    && text_eq i.platform_start_attempt_id attempt
    && not i.platform_vpn_running
    && not i.platform_vpn_starting
    && is_terminal_outcome i.platform_start_outcome

module _ (json : Json) (env : Env) (host : Host) where
  abbrev pub hold : Text → ProcessIdentity → Action PlatformVpnOwnerLeaseRecord
  hold attempt owner = lift (
      acquire_owner_lease_exact host.extension_lease
        (platform_owner_lease_record attempt owner PlatformVpnOwnerLeaseRole.extension))

  abbrev pub keep_lease : PlatformVpnOwnerLeaseRecord → Action (Unit {0})
  keep_lease lease = change (λ i. record i { platform_vpn_extension_lease = some lease })

  -- The same process keeps its lease; another one must have released its own.
  abbrev pub adopt_attached :
      ProcessIdentity → Text → ProcessIdentity → PlatformVpnOwnerJournal → Action (Unit {0})
  adopt_attached current attempt owner journal e =
      if identity_eq current owner
      then (if is_present e.inner.platform_vpn_extension_lease
          then (ok tt, e)
          else (do lease ← hold attempt owner; keep_lease lease) e)
      else (do
        seen ← lift (
            observe_owner_lease_exact host.extension_lease
              (platform_owner_lease_record attempt current PlatformVpnOwnerLeaseRole.extension))
        require_released seen
        lease ← hold attempt owner
        on_journal (rebind_attached_exact json host.update attempt journal.issuer current owner)
        keep_lease lease)
          e

  -- By the phase of the journal and the Extension that it names.
  abbrev pub adopt_by :
      PlatformVpnOwnerPhase
      → Option ProcessIdentity
      → Text
      → ProcessIdentity
      → PlatformVpnOwnerJournal
      → Action (Unit {0})
  adopt_by pending none attempt owner journal = do
    seen ← lift (
        observe_owner_lease_exact host.issuer_lease
          (platform_owner_lease_record attempt journal.issuer PlatformVpnOwnerLeaseRole.issuer))
    require_held seen
    lease ← hold attempt owner
    on_journal (upgrade_attached_exact json host.update attempt journal.issuer owner)
    keep_lease lease
  adopt_by attached (some current) attempt owner journal =
      adopt_attached current attempt owner journal
  adopt_by _ _ attempt owner journal = fail EngineError.invalid_phase

  abbrev pub still_bound : Text → Action (Unit {0})
  still_bound attempt e =
      if text_eq e.inner.platform_start_attempt_id attempt
      then (ok tt, e)
      else (err EngineError.superseded, e)

  abbrev pub publish_attachment : Text → ProcessIdentity → Action (Unit {0})
  publish_attachment attempt owner e =
      if attachment_changed owner e.inner
      then (do change (attached_state env attempt owner); persist_platform env) e
      else change (attached_state env attempt owner) e

  abbrev pub check_bind : Text → Action (Unit {0})
  check_bind attempt e = proceed (bind_refusal attempt e.inner) e

  unfoldable pub bind_platform_vpn_start : Text → Action Text
  bind_platform_vpn_start attempt = do
    guard (not (is_empty attempt)) EngineError.empty_attempt
    owner ← lift host.identity
    taken ← sync_platform_for_binding env attempt
    check_bind attempt
    change (reopened env attempt)
    found ← on_journal (read json host.journal)
    journal ← journal_of attempt found
    adopt_by journal.phase journal.extension attempt owner journal
    run (synced env)
    still_bound attempt
    publish_attachment attempt owner
    return (owner_name owner)

  abbrev pub finish_cleanup : Text → Bool → Action Bool
  finish_cleanup attempt false = fail EngineError.journal_changed
  finish_cleanup attempt true = do change (cleaned env attempt); persist_platform env; return true

  abbrev pub delete_acknowledged : Text → ProcessIdentity → PlatformVpnOwnerJournal → Action Bool
  delete_acknowledged attempt owner journal e =
      if is_acknowledging owner e.inner journal.phase journal.extension
      then (do
        deleted ← on_journal (delete_exact json host.update attempt journal.extension)
        finish_cleanup attempt deleted)
          e
      else (err EngineError.owner_mismatch, e)

  abbrev pub cleanup_found : Text → ProcessIdentity → JournalRead → Action Bool
  cleanup_found attempt owner JournalRead.missing = fail EngineError.journal_missing
  cleanup_found attempt owner (JournalRead.present journal) =
      if text_eq journal.attempt_id attempt
      then delete_acknowledged attempt owner journal
      else return false

  abbrev pub cleanup_synced : Text → ProcessIdentity → Action Bool
  cleanup_synced attempt owner e =
      if not (may_be_cleaned attempt e.inner)
      then (ok false, e)
      else if e.inner.platform_vpn_cleanup_complete
      then (ok true, e)
      else if not (is_present e.inner.platform_vpn_extension_lease)
      then (err EngineError.lease_missing, e)
      else (do found ← on_journal (read json host.journal); cleanup_found attempt owner found) e

  unfoldable pub complete_platform_vpn_cleanup : Text → Action Bool
  complete_platform_vpn_cleanup attempt = do
    owner ← lift host.identity
    (λ e. cleanup_synced attempt owner (synced env e))

-- The answer to a heartbeat, after the tick of the session that is modelled by its snapshot's lifecycle.
unfoldable pub extension_answer : Text → Inner → CoreResult Text
extension_answer attempt i =
    if not (text_eq i.platform_start_attempt_id attempt)
    then err EngineError.stale_attempt
    else if i.platform_stop_requested
    then ok (codes "stopping")
    else if is_terminal_outcome i.platform_start_outcome
    then ok (
        if is_failed_outcome i.platform_start_outcome then codes "failed" else codes "disconnected")
    else if not i.platform_extension_attached
    then err EngineError.no_owner
    else ok (as_str i.snapshot.lifecycle)
