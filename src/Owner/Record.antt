-- ===== src/Owner/Record.antt =====
-- The owner records of crates/hopenconnect_core/src/platform_owner.rs and their validation.
use h_openconnect.Base.{
  ℕ, ◌==◌, Bool, true, false, ◌&&◌, ◌||◌, not, Option, none, some, if◌then◌else◌, is_empty, Text,
  text_eq, trim,
}

pub record ProcessIdentity : Type 0 where
  pub boot_id : Text
  pub pid : ℕ  -- u32
  pub start_time : ℕ  -- u64

pub data PlatformVpnOwnerPhase : Type 0 where
  pending attached stopping : PlatformVpnOwnerPhase

pub record PlatformVpnOwnerJournal : Type 0 where
  pub attempt_id : Text
  pub issuer : ProcessIdentity
  pub extension : Option ProcessIdentity
  pub phase : PlatformVpnOwnerPhase

pub data JournalRead : Type 0 where
  missing : JournalRead
  present : PlatformVpnOwnerJournal → JournalRead

pub data PlatformVpnOwnerLeaseRole : Type 0 where
  issuer extension : PlatformVpnOwnerLeaseRole

pub record PlatformVpnOwnerLeaseRecord : Type 0 where
  pub attempt_id : Text
  pub identity : ProcessIdentity
  pub role : PlatformVpnOwnerLeaseRole

pub record StoredPlatformVpnOwnerJournal : Type 0 where
  pub version : ℕ
  pub attempt_id : Text
  pub issuer : ProcessIdentity
  pub extension : Option ProcessIdentity
  pub phase : PlatformVpnOwnerPhase

-- What the error messages tell apart.
pub data OwnerError : Type 0 where
  io busy not_regular too_large malformed unsupported_version empty_attempt incomplete_identity
        inconsistent_phase not_pending create_conflict attach_missing attach_conflict fence_conflict
        rebind_missing rebind_conflict :
      OwnerError

pub data Result (A : Type 0) : Type 0 where
  ok : A → Result A
  err : OwnerError → Result A

abbrev pub check : Bool → OwnerError → Result (Unit {0})
check true e = ok tt
check false e = err e

abbrev pub journal_version : ℕ
journal_version = 1

-- The derived equalities.
unfoldable pub identity_eq : ProcessIdentity → ProcessIdentity → Bool
identity_eq a b = text_eq a.boot_id b.boot_id && a.pid == b.pid && a.start_time == b.start_time

abbrev pub extension_eq : Option ProcessIdentity → Option ProcessIdentity → Bool
extension_eq none none = true
extension_eq (some a) (some b) = identity_eq a b
extension_eq _ _ = false

abbrev pub phase_eq : PlatformVpnOwnerPhase → PlatformVpnOwnerPhase → Bool
phase_eq pending pending = true
phase_eq attached attached = true
phase_eq stopping stopping = true
phase_eq _ _ = false

unfoldable pub journal_eq : PlatformVpnOwnerJournal → PlatformVpnOwnerJournal → Bool
journal_eq a b =
    text_eq a.attempt_id b.attempt_id
    && identity_eq a.issuer b.issuer
    && extension_eq a.extension b.extension
    && phase_eq a.phase b.phase

unfoldable pub validate_attempt_id : Text → Result (Unit {0})
validate_attempt_id id = check (not (is_empty (trim id))) OwnerError.empty_attempt

unfoldable pub is_complete : ProcessIdentity → Bool
is_complete p = not (is_empty (trim p.boot_id) || p.pid == 0 || p.start_time == 0)

unfoldable pub validate_identity : ProcessIdentity → Result (Unit {0})
unfolding is_complete
validate_identity p = check (is_complete p) OwnerError.incomplete_identity

-- Only an attached owner has an Extension identity.
abbrev pub is_consistent : PlatformVpnOwnerPhase → Option ProcessIdentity → Bool
is_consistent pending none = true
is_consistent attached (some e) = true
is_consistent stopping none = true
is_consistent _ _ = false

abbrev extension_complete : Option ProcessIdentity → Bool
extension_complete none = true
extension_complete (some e) = is_complete e

abbrev pub and_then : {A : Type 0} → Result (Unit {0}) → Result A → Result A
and_then (ok u) r = r
and_then (err e) r = err e

unfoldable pub validate_record : PlatformVpnOwnerJournal → Result (Unit {0})
unfolding validate_attempt_id validate_identity
validate_record j = and_then (validate_attempt_id j.attempt_id) (
    and_then (validate_identity j.issuer) (
      and_then (check (extension_complete j.extension) OwnerError.incomplete_identity)
        (check (is_consistent j.phase j.extension) OwnerError.inconsistent_phase)))

unfoldable pub to_stored : PlatformVpnOwnerJournal → StoredPlatformVpnOwnerJournal
to_stored j = record {
  version = journal_version;
  attempt_id = j.attempt_id;
  issuer = j.issuer;
  extension = j.extension;
  phase = j.phase;
}

abbrev pub stored_record : StoredPlatformVpnOwnerJournal → PlatformVpnOwnerJournal
stored_record s = record {
  attempt_id = s.attempt_id;
  issuer = s.issuer;
  extension = s.extension;
  phase = s.phase;
}

unfoldable pub from_stored : StoredPlatformVpnOwnerJournal → Result PlatformVpnOwnerJournal
from_stored s =
    if s.version == journal_version
    then and_then (validate_record (stored_record s)) (ok (stored_record s))
    else err OwnerError.unsupported_version
