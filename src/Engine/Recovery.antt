-- ===== src/Engine/Recovery.antt =====
-- The app's side of a stop: claiming it, releasing the cleanup barrier after the OS has stopped the
-- Extension, and noticing that its lease is free. crates/hopenconnect_core/src/engine/platform.rs.
use h_openconnect.Base.{
  ℕ, Bool, true, false, ◌&&◌, ◌||◌, not, Option, none, some, if◌then◌else◌, is_empty, [], Text,
  text_eq, codes, ◌++◌, ◌==◌,
}
use h_openconnect.Model.Lifecycle.{failed}
use h_openconnect.Bridge.State.{PlatformStartOutcome}
use h_openconnect.Owner.Record.{
  ProcessIdentity, PlatformVpnOwnerPhase, pending, attached, stopping, PlatformVpnOwnerJournal,
  JournalRead,
}
use h_openconnect.Owner.Storage.{Json}
use h_openconnect.Owner.Lease.{lock_released_owner_lease}
use h_openconnect.Owner.Journal.{read, fence_pending_stop_exact}
use h_openconnect.Engine.State.{
  Inner, Env, EngineError, ok, err, Action, ◌>>=◌, ◌>>◌, return, fail, change, run,
}
use h_openconnect.Engine.Diagnostics.{set_lifecycle, push_diag}
use h_openconnect.Engine.Publish.{persist_platform}
use h_openconnect.Engine.Envelope.{synced}
use h_openconnect.Engine.Envelope.Merge.{is_pending, is_connected}
use h_openconnect.Engine.Ownership.{Host, lift, on_journal}

-- The fence takes the intent and the attempt.
unfoldable pub fence : ℕ → Text → Inner → Inner
fence epoch attempt i = record i {
  platform_os_stop_epoch = epoch;
  platform_os_stop_attempt_id = attempt;
  platform_os_stop_in_flight = false;
}

-- `retained_stop_attempt`: what an earlier claim has fenced.
abbrev pub retained_attempt : Inner → Option Text
retained_attempt i =
    if i.platform_os_stop_epoch == 0 then none else some i.platform_os_stop_attempt_id

abbrev pub differs : Option Text → Text → Bool
differs none attempt = false
differs (some retained) attempt = not (text_eq retained attempt)

-- An attempt that still owes its cleanup.
abbrev pub owes_cleanup : Inner → Bool
owes_cleanup i = not (is_empty i.platform_start_attempt_id) && not i.platform_vpn_cleanup_complete

-- The stop intent; a pending start is cancelled before a late Want can attach.
unfoldable pub stop_claimed : Env → Text → Inner → Inner
stop_claimed env attempt i =
    let pending_start = is_pending i.platform_start_outcome in
    push_diag env (codes "info") (codes "platform VPN stop claimed exact owner " ++ attempt)
      (record i {
        platform_start_outcome =
            if pending_start then PlatformStartOutcome.cancelled else i.platform_start_outcome;
        platform_vpn_starting = if pending_start then false else i.platform_vpn_starting;
        platform_vpn_running = if pending_start then false else i.platform_vpn_running;
        platform_stop_requested = true;
      })

abbrev pub claimed_cold : Env → Text → Inner → Inner
claimed_cold env attempt i =
    push_diag env (codes "info") (codes "platform VPN stop claimed cold owner journal " ++ attempt)
      i

abbrev pub fenced_line : Env → Text → Inner → Inner
fenced_line env attempt i =
    push_diag env (codes "info")
      (codes "platform VPN pending owner durably fenced for stop " ++ attempt) i

-- `Stopping` without an Extension, or `Attached` with one.
abbrev pub is_stoppable : PlatformVpnOwnerPhase → Option ProcessIdentity → Bool
is_stoppable stopping none = true
is_stoppable attached (some extension) = true
is_stoppable _ _ = false

-- The Extension's lease is free although its record stands.
unfoldable pub owner_lost : Env → Inner → Inner
owner_lost env i =
    let message = codes "VPN extension owner lease was released" in
    push_diag env (codes "error") message (
      set_lifecycle failed (some message) (record i {
        platform_vpn_running = false;
        platform_vpn_starting = false;
        platform_start_outcome = PlatformStartOutcome.failed;
        platform_remote_stale_since = none;
        connected_at = none;
      }))

abbrev pub is_known_owner : Inner → PlatformVpnOwnerPhase → Option ProcessIdentity → Bool
is_known_owner i attached (some owner) =
    owner.pid == i.platform_extension_owner_pid
    && owner.start_time == i.platform_extension_owner_start_time
is_known_owner i _ _ = false

module _ (json : Json) (env : Env) (host : Host) where
  abbrev pub mark_stop : Text → Action (Unit {0})
  mark_stop attempt e =
      if owes_cleanup e.inner
      then (do change (stop_claimed env attempt); persist_platform env) e
      else change (claimed_cold env attempt) e

  -- The fence was refused: the record must have been attached or fenced by another process.
  abbrev pub lost_race : Text → JournalRead → Action (Unit {0})
  lost_race attempt JournalRead.missing = fail EngineError.journal_missing
  lost_race attempt (JournalRead.present current) =
      if text_eq current.attempt_id attempt && is_stoppable current.phase current.extension
      then return tt
      else fail EngineError.owner_changed

  abbrev pub fence_answer : Text → Bool → Action (Unit {0})
  fence_answer attempt true = change (fenced_line env attempt)
  fence_answer attempt false = do
    current ← on_journal (read json host.reread)
    lost_race attempt current

  abbrev pub fence_owner :
      PlatformVpnOwnerPhase → Option ProcessIdentity → PlatformVpnOwnerJournal → Action (Unit {0})
  fence_owner stopping none journal = return tt
  fence_owner attached (some extension) journal = return tt
  fence_owner pending none journal = do
    fenced ←
        on_journal (fence_pending_stop_exact json host.update journal.attempt_id journal.issuer)
    fence_answer journal.attempt_id fenced
  fence_owner _ _ journal = fail EngineError.invalid_phase

  abbrev pub claim_owner : ℕ → PlatformVpnOwnerJournal → Action Text
  claim_owner epoch journal = do
    mark_stop journal.attempt_id
    fence_owner journal.phase journal.extension journal
    change (fence epoch journal.attempt_id)
    return journal.attempt_id

  abbrev pub claim_missing : ℕ → Option Text → Action Text
  claim_missing epoch none = return []
  claim_missing epoch (some attempt) = do change (fence epoch attempt); return attempt

  abbrev pub claim_found : ℕ → Option Text → JournalRead → Action Text
  claim_found epoch retained JournalRead.missing e =
      if owes_cleanup e.inner
      then (err EngineError.journal_missing, e)
      else claim_missing epoch retained e
  claim_found epoch retained (JournalRead.present journal) e =
      if differs retained journal.attempt_id
        || (owes_cleanup e.inner
            && not (text_eq e.inner.platform_start_attempt_id journal.attempt_id))
      then (err EngineError.state_mismatch, e)
      else claim_owner epoch journal e

  unfoldable pub claim_current_platform_vpn_stop : ℕ → Action Text
  claim_current_platform_vpn_stop epoch e =
      if epoch == 0 || not (e.inner.platform_vpn_intent_epoch == epoch)
      then (err EngineError.superseded, e)
      else if e.inner.platform_os_stop_in_flight
      then (err EngineError.stop_in_flight, e)
      else (do
        run (synced env)
        found ← on_journal (read json host.journal)
        claim_found epoch (retained_attempt e.inner) found)
          e

  abbrev pub lose_owner : JournalRead → Action (Unit {0})
  lose_owner JournalRead.missing e = (ok tt, e)
  lose_owner (JournalRead.present journal) e =
      if text_eq journal.attempt_id e.inner.platform_start_attempt_id
        && is_known_owner e.inner journal.phase journal.extension
      then (do change (owner_lost env); persist_platform env) e
      else (ok tt, e)

  abbrev pub check_owner : Bool → Action (Unit {0})
  check_owner false = return tt
  check_owner true = do found ← on_journal (read json host.journal); lose_owner found

  unfoldable pub refresh_platform_vpn_owner_liveness : Action (Unit {0})
  refresh_platform_vpn_owner_liveness e =
      if not e.inner.platform_extension_attached
        || e.inner.platform_vpn_cleanup_complete
        || not (
            is_pending e.inner.platform_start_outcome
            || is_connected e.inner.platform_start_outcome)
      then (ok tt, e)
      else (do
        released ← lift (lock_released_owner_lease host.extension_lease)
        check_owner released)
          e
