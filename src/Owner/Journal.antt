-- ===== src/Owner/Journal.antt =====
-- The compare-and-swap operations on the owner journal in
-- crates/hopenconnect_core/src/platform_owner.rs.
pub mod Rules
pub mod Evolution
pub mod Outcomes
pub mod Confirms
pub mod Answers
use h_openconnect.Base.{
  Bool, true, false, ◌&&◌, not, Option, none, some, if◌then◌else◌, Text, text_eq,
}
use h_openconnect.Owner.Record.{
  ProcessIdentity, PlatformVpnOwnerPhase, pending, attached, stopping, PlatformVpnOwnerJournal,
  JournalRead, OwnerError, Result, ok, err, check, identity_eq, extension_eq, phase_eq, journal_eq,
  validate_attempt_id, validate_identity, validate_record,
}
use h_openconnect.Owner.Storage.{
  Io, Json, Action, ◌>>=◌, ◌>>◌, lift, fail, return, lock_journal, read_unlocked, write_unlocked,
  remove_file,
}

-- The record of the expected attempt and issuer.
abbrev pub is_current : PlatformVpnOwnerJournal → Text → ProcessIdentity → Bool
is_current c attempt issuer = text_eq c.attempt_id attempt && identity_eq c.issuer issuer

abbrev pub is_none : Option ProcessIdentity → Bool
is_none none = true
is_none (some e) = false

abbrev pub validate_expected : Option ProcessIdentity → Result (Unit {0})
validate_expected none = ok tt
validate_expected (some e) = validate_identity e

module _ (json : Json) (io : Io) where
  unfoldable pub read : Action JournalRead
  read = do lock_journal io; read_unlocked json io

  abbrev pub create_by : PlatformVpnOwnerJournal → JournalRead → Action (Unit {0})
  create_by j JournalRead.missing = write_unlocked json io j
  create_by j (JournalRead.present c) =
      if journal_eq c j then return tt else fail OwnerError.create_conflict

  unfoldable pub create_pending_exact : PlatformVpnOwnerJournal → Action (Unit {0})
  create_pending_exact j = do
    lift (validate_record j)
    lift (check (phase_eq j.phase pending && is_none j.extension) OwnerError.not_pending)
    lock_journal io
    found ← read_unlocked json io
    create_by j found

  -- By the phase and the Extension of the current record.
  abbrev pub attach_by :
      PlatformVpnOwnerPhase
      → Option ProcessIdentity
      → PlatformVpnOwnerJournal
      → ProcessIdentity
      → Action (Unit {0})
  attach_by pending none c extension =
      write_unlocked json io (record c { phase = attached; extension = some extension })
  attach_by attached (some current) c extension =
      if identity_eq current extension then return tt else fail OwnerError.attach_conflict
  attach_by _ _ c extension = fail OwnerError.attach_conflict

  abbrev pub upgrade_by : Text → ProcessIdentity → ProcessIdentity → JournalRead → Action (Unit {0})
  upgrade_by attempt issuer extension JournalRead.missing = fail OwnerError.attach_missing
  upgrade_by attempt issuer extension (JournalRead.present c) =
      if is_current c attempt issuer
      then attach_by c.phase c.extension c extension
      else fail OwnerError.attach_conflict

  unfoldable pub upgrade_attached_exact :
      Text → ProcessIdentity → ProcessIdentity → Action (Unit {0})
  upgrade_attached_exact attempt issuer extension = do
    lift (validate_attempt_id attempt)
    lift (validate_identity issuer)
    lift (validate_identity extension)
    lock_journal io
    found ← read_unlocked json io
    upgrade_by attempt issuer extension found

  abbrev pub fence_phase :
      PlatformVpnOwnerPhase → Option ProcessIdentity → PlatformVpnOwnerJournal → Action Bool
  fence_phase pending none c = do
    write_unlocked json io (record c { phase = stopping })
    return true
  fence_phase stopping none c = return true
  fence_phase attached (some e) c = return false
  fence_phase _ _ c = fail OwnerError.fence_conflict

  abbrev pub fence_by : Text → ProcessIdentity → JournalRead → Action Bool
  fence_by attempt issuer JournalRead.missing = return false
  fence_by attempt issuer (JournalRead.present c) =
      if is_current c attempt issuer then fence_phase c.phase c.extension c else return false

  unfoldable pub fence_pending_stop_exact : Text → ProcessIdentity → Action Bool
  fence_pending_stop_exact attempt issuer = do
    lift (validate_attempt_id attempt)
    lift (validate_identity issuer)
    lock_journal io
    found ← read_unlocked json io
    fence_by attempt issuer found

  abbrev pub rebind_from :
      Option ProcessIdentity
      → PlatformVpnOwnerJournal
      → ProcessIdentity
      → ProcessIdentity
      → Action (Unit {0})
  rebind_from none c expected replacement = fail OwnerError.rebind_conflict
  rebind_from (some e) c expected replacement =
      if identity_eq e expected
      then (if identity_eq e replacement
          then return tt
          else write_unlocked json io (record c { extension = some replacement }))
      else if identity_eq e replacement
      then return tt
      else fail OwnerError.rebind_conflict

  abbrev pub rebind_by :
      Text → ProcessIdentity → ProcessIdentity → ProcessIdentity → JournalRead → Action (Unit {0})
  rebind_by attempt issuer expected replacement JournalRead.missing = fail OwnerError.rebind_missing
  rebind_by attempt issuer expected replacement (JournalRead.present c) =
      if is_current c attempt issuer && phase_eq c.phase attached
      then rebind_from c.extension c expected replacement
      else fail OwnerError.rebind_conflict

  unfoldable pub rebind_attached_exact :
      Text → ProcessIdentity → ProcessIdentity → ProcessIdentity → Action (Unit {0})
  rebind_attached_exact attempt issuer expected replacement = do
    lift (validate_attempt_id attempt)
    lift (validate_identity issuer)
    lift (validate_identity expected)
    lift (validate_identity replacement)
    lock_journal io
    found ← read_unlocked json io
    rebind_by attempt issuer expected replacement found

  abbrev pub delete_if : Bool → Action Bool
  delete_if matched = if matched then (do remove_file io; return true) else return false

  abbrev pub delete_by : Text → Option ProcessIdentity → JournalRead → Action Bool
  delete_by attempt expected JournalRead.missing = return false
  delete_by attempt expected (JournalRead.present c) =
      delete_if (text_eq c.attempt_id attempt && extension_eq c.extension expected)

  unfoldable pub delete_exact : Text → Option ProcessIdentity → Action Bool
  delete_exact attempt expected = do
    lift (validate_attempt_id attempt)
    lift (validate_expected expected)
    lock_journal io
    found ← read_unlocked json io
    delete_by attempt expected found

  abbrev pub delete_pending_by : Text → JournalRead → Action Bool
  delete_pending_by attempt JournalRead.missing = return false
  delete_pending_by attempt (JournalRead.present c) =
      delete_if (text_eq c.attempt_id attempt && phase_eq c.phase pending && is_none c.extension)

  unfoldable pub delete_pending_exact : Text → Action Bool
  delete_pending_exact attempt = do
    lift (validate_attempt_id attempt)
    lock_journal io
    found ← read_unlocked json io
    delete_pending_by attempt found
