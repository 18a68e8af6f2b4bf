-- ===== src/Owner/Lease.antt =====
-- The leases of crates/hopenconnect_core/src/platform_owner.rs: one locked file per role. `LeaseIo` is
-- what the operating system answers during one call; `content` is the record that the file decodes to,
-- if it does.
use h_openconnect.Base.{Bool, true, false, ◌&&◌, Option, none, some, if◌then◌else◌, text_eq}
use h_openconnect.Owner.Record.{
  PlatformVpnOwnerLeaseRole, issuer, extension, PlatformVpnOwnerLeaseRecord, OwnerError, Result, ok,
  err, validate_attempt_id, validate_identity, identity_eq, and_then,
}
use h_openconnect.Owner.Storage.{LockOutcome}

pub data PlatformVpnOwnerLeaseObservation : Type 0 where
  held_exact held_other released : PlatformVpnOwnerLeaseObservation

pub record LeaseIo : Type 0 where
  pub opens : Bool
  pub lock : LockOutcome
  pub writes : Bool
  pub reads : Bool
  pub content : Option PlatformVpnOwnerLeaseRecord

abbrev pub role_eq : PlatformVpnOwnerLeaseRole → PlatformVpnOwnerLeaseRole → Bool
role_eq issuer issuer = true
role_eq extension extension = true
role_eq _ _ = false

unfoldable pub lease_eq : PlatformVpnOwnerLeaseRecord → PlatformVpnOwnerLeaseRecord → Bool
lease_eq a b =
    text_eq a.attempt_id b.attempt_id && identity_eq a.identity b.identity && role_eq a.role b.role

unfoldable pub validate_lease_record : PlatformVpnOwnerLeaseRecord → Result (Unit {0})
validate_lease_record r = and_then (validate_attempt_id r.attempt_id) (validate_identity r.identity)

-- Opening the file, then taking its lock without waiting: whether it was free.
abbrev pub try_lock_owner_lease : LeaseIo → Result Bool
try_lock_owner_lease io = if io.opens then by_lock io.lock else err OwnerError.io
  where
    by_lock : LockOutcome → Result Bool
    by_lock LockOutcome.acquired = ok true
    by_lock LockOutcome.held_elsewhere = ok false
    by_lock LockOutcome.lock_failed = err OwnerError.io

abbrev take_lease :
    LeaseIo → PlatformVpnOwnerLeaseRecord → Result Bool → Result PlatformVpnOwnerLeaseRecord
take_lease io r (ok true) = if io.writes then ok r else err OwnerError.io
take_lease io r (ok false) = err OwnerError.busy
take_lease io r (err x) = err x

-- The lease, as the record that it is held for; a lease that cannot be written is dropped.
unfoldable pub acquire_owner_lease_exact :
    LeaseIo → PlatformVpnOwnerLeaseRecord → Result PlatformVpnOwnerLeaseRecord
acquire_owner_lease_exact io r =
    and_then (validate_lease_record r) (take_lease io r (try_lock_owner_lease io))

abbrev is_lease : PlatformVpnOwnerLeaseRecord → Option PlatformVpnOwnerLeaseRecord → Bool
is_lease expected none = false
is_lease expected (some r) = lease_eq r expected

abbrev observe_held :
    LeaseIo → PlatformVpnOwnerLeaseRecord → Result Bool → Result PlatformVpnOwnerLeaseObservation
observe_held io expected (ok true) = ok PlatformVpnOwnerLeaseObservation.released
observe_held io expected (ok false) =
    if io.reads
    then ok (
        if is_lease expected io.content
        then PlatformVpnOwnerLeaseObservation.held_exact
        else PlatformVpnOwnerLeaseObservation.held_other)
    else err OwnerError.io
observe_held io expected (err x) = err x

unfoldable pub observe_owner_lease_exact :
    LeaseIo → PlatformVpnOwnerLeaseRecord → Result PlatformVpnOwnerLeaseObservation
observe_owner_lease_exact io expected =
    and_then (validate_lease_record expected) (observe_held io expected (try_lock_owner_lease io))

-- Whether the lease was free, and is held from now on.
unfoldable pub lock_released_owner_lease : LeaseIo → Result Bool
lock_released_owner_lease io = try_lock_owner_lease io
