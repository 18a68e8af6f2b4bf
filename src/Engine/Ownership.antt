-- ===== src/Engine/Ownership.antt =====
-- How the engine reaches the owner journal and the leases, and the checks that
-- crates/hopenconnect_core/src/engine/platform.rs makes on what it finds there. `Host` is what the
-- operating system answers during one call of the engine: the process's identity, the journal's file
-- at each access, and the two leases.
use h_openconnect.Base.{if◌then◌else◌, Text, text_eq}
use h_openconnect.Owner.Record.{
  ProcessIdentity, PlatformVpnOwnerJournal, JournalRead, PlatformVpnOwnerLeaseRole,
  PlatformVpnOwnerLeaseRecord, Result,
}
use h_openconnect.Owner.Storage.{Entry, Io}
use h_openconnect.Owner.Lease.{LeaseIo, PlatformVpnOwnerLeaseObservation}
use h_openconnect.Engine.State.{EngineError, CoreResult, Action, return, fail}

pub record Host : Type 0 where
  pub identity : Result ProcessIdentity
  pub journal : Io
  pub update : Io
  pub reread : Io
  pub issuer_lease : LeaseIo
  pub extension_lease : LeaseIo

abbrev pub lift_result : {A : Type 0} → Result A → CoreResult A
lift_result (Result.ok a) = CoreResult.ok a
lift_result (Result.err x) = CoreResult.err (EngineError.owner x)

abbrev pub lift : {A : Type 0} → Result A → Action A
lift r e = (lift_result r, e)

-- An operation on the journal's file.
abbrev pub on_journal : {A : Type 0} → (Entry → Result A × Entry) → Action A
on_journal act e = let (r, entry) = act e.journal in (lift_result r, record e { journal = entry })

abbrev pub platform_owner_lease_record :
    Text → ProcessIdentity → PlatformVpnOwnerLeaseRole → PlatformVpnOwnerLeaseRecord
platform_owner_lease_record attempt identity role = record {
  attempt_id = attempt;
  identity = identity;
  role = role;
}

-- The journal of the attempt.
abbrev pub journal_of : Text → JournalRead → Action PlatformVpnOwnerJournal
journal_of attempt JournalRead.missing = fail EngineError.journal_missing
journal_of attempt (JournalRead.present journal) =
    if text_eq journal.attempt_id attempt then return journal else fail EngineError.journal_other

-- Go on only while the issuer of a pending start holds its lease.
abbrev pub require_held : PlatformVpnOwnerLeaseObservation → Action (Unit {0})
require_held PlatformVpnOwnerLeaseObservation.held_exact = return tt
require_held PlatformVpnOwnerLeaseObservation.released = fail EngineError.lease_released
require_held PlatformVpnOwnerLeaseObservation.held_other = fail EngineError.lease_unknown

-- Go on only when the previous Extension has let go.
abbrev pub require_released : PlatformVpnOwnerLeaseObservation → Action (Unit {0})
require_released PlatformVpnOwnerLeaseObservation.released = return tt
require_released PlatformVpnOwnerLeaseObservation.held_exact = fail EngineError.lease_held
require_released PlatformVpnOwnerLeaseObservation.held_other = fail EngineError.lease_unknown
