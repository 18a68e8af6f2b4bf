-- ===== src/Engine/Invariant/Bound.antt =====
-- `Settled` and `bind_platform_vpn_start`.
use h_openconnect.Base.{Bool, true, false, not, Option, none, some, Text, is_empty, text_eq}
use h_openconnect.Bridge.Envelope.{is_present, PlatformEnvelope}
use h_openconnect.Owner.Record.{
  ProcessIdentity, PlatformVpnOwnerPhase, pending, attached, stopping, PlatformVpnOwnerJournal,
  JournalRead, PlatformVpnOwnerLeaseRecord, identity_eq,
}
use h_openconnect.Owner.Storage.{Json}
use h_openconnect.Owner.Lease.{PlatformVpnOwnerLeaseObservation}
use h_openconnect.Engine.State.{
  Inner, PlatformIpc, RemoteRead, Env, return, fail, change, CoreResult, ok, err, EngineError,
}
use h_openconnect.Engine.Envelope.{
  sync_platform_for_binding, bind_on, bind_read, bind_frame, validate_platform_start_envelope,
  apply_platform_envelope,
}
use h_openconnect.Engine.Envelope.Rules.{Settled}
use h_openconnect.Engine.Envelope.Safety.{sync-Settled, envelope-Settled}
use h_openconnect.Engine.Keeps.{After, test-Keeps, guard-Keeps, if-Keeps}
use h_openconnect.Engine.Ownership.{Host, journal_of, require_held, require_released}
use h_openconnect.Engine.Extension.{
  bind_platform_vpn_start, reopened, attached_state, attachment_changed, proceed, adopt_by,
  adopt_attached, hold, keep_lease, still_bound, publish_attachment, bind_refusal,
}
use h_openconnect.Engine.Invariant.{reopened-Settled, attached-Settled}
use h_openconnect.Engine.Invariant.Methods.{KeepsSettled, last_published}
use h_openconnect.Engine.Invariant.Owners.{
  journal-Keeps, lift-Keeps, return-Keeps, fail-Keeps, then-Keeps,
}

pub change-Keeps :
    (f : Inner → Inner) → ((i : Inner) → Settled i → Settled (f i)) → KeepsSettled (change f)
change-Keeps f h e s = record { holds = h e.inner s }

journal_of-Keeps : (a : Text) (r : JournalRead) → KeepsSettled (journal_of a r)
journal_of-Keeps a JournalRead.missing e s = record { holds = s }
journal_of-Keeps a (JournalRead.present j) e s =
    if-Keeps Settled (text_eq j.attempt_id a) (return j) (fail EngineError.journal_other)
      (return-Keeps j) (fail-Keeps EngineError.journal_other) e s

require_held-Keeps : (o : PlatformVpnOwnerLeaseObservation) → KeepsSettled (require_held o)
require_held-Keeps PlatformVpnOwnerLeaseObservation.held_exact = return-Keeps tt
require_held-Keeps PlatformVpnOwnerLeaseObservation.released = fail-Keeps EngineError.lease_released
require_held-Keeps PlatformVpnOwnerLeaseObservation.held_other =
    fail-Keeps EngineError.lease_unknown

require_released-Keeps : (o : PlatformVpnOwnerLeaseObservation) → KeepsSettled (require_released o)
require_released-Keeps PlatformVpnOwnerLeaseObservation.held_exact =
    fail-Keeps EngineError.lease_held
require_released-Keeps PlatformVpnOwnerLeaseObservation.released = return-Keeps tt
require_released-Keeps PlatformVpnOwnerLeaseObservation.held_other =
    fail-Keeps EngineError.lease_unknown

proceed-Keeps : (o : Option EngineError) → KeepsSettled (proceed o)
proceed-Keeps none = return-Keeps tt
proceed-Keeps (some x) = fail-Keeps x

module _ (env : Env) (a : Text) where
  bind_frame-Keeps : (envelope : PlatformEnvelope) → KeepsSettled (bind_frame env a envelope)
  bind_frame-Keeps envelope e s = go (validate_platform_start_envelope envelope a)
    where
      go :
          (r : CoreResult (Unit {0}))
          → After Settled {A = Bool} (elim r [
            | err x ↦ (err x, e)
            | ok u ↦
                let (taken, e') = apply_platform_envelope env false (some a) envelope e in
                (ok taken, e')
          ])
      go (err x) = record { holds = s }
      go (ok u) = record { holds = envelope-Settled env (some a) false envelope e s }

  bind_read-Keeps : (is_ui : Bool) (r : RemoteRead) → KeepsSettled (bind_read env a is_ui r)
  bind_read-Keeps true r e s = record { holds = s }
  bind_read-Keeps false RemoteRead.read_failed e s = record { holds = s }
  bind_read-Keeps false RemoteRead.no_frame e s = record { holds = s }
  bind_read-Keeps false (RemoteRead.frame envelope) e s = bind_frame-Keeps envelope e s

  bind_on-Keeps : (o : Option PlatformIpc) → KeepsSettled (bind_on env a o)
  bind_on-Keeps none e s = record { holds = s }
  bind_on-Keeps (some ipc) e s = bind_read-Keeps ipc.is_ui env.remote e s

  binding-Keeps : KeepsSettled (sync_platform_for_binding env a)
  unfolding sync_platform_for_binding
  binding-Keeps e s = bind_on-Keeps e.platform_ipc e s

module _ (json : Json) (env : Env) (host : Host) (a : Text) where
  hold-Keeps : (o : ProcessIdentity) → KeepsSettled (hold json env host a o)
  hold-Keeps o = lift-Keeps _

  keep_lease-Keeps : (l : PlatformVpnOwnerLeaseRecord) → KeepsSettled (keep_lease json env host l)
  keep_lease-Keeps l = change-Keeps _ λ i s. record { stopped = s.stopped; ended = s.ended }

  adopt_attached-Keeps :
      (c o : ProcessIdentity) (j : PlatformVpnOwnerJournal)
      → KeepsSettled (adopt_attached json env host c a o j)
  adopt_attached-Keeps c o j e s =
      test-Keeps Settled (identity_eq c o)
        (λ t.
          test-Keeps Settled (is_present e.inner.platform_vpn_extension_lease)
            (λ u. return-Keeps tt e s) (λ u. then-Keeps _ _ (hold-Keeps o) keep_lease-Keeps e s))
        (λ t.
          then-Keeps _ _ (lift-Keeps _)
            (λ seen. then-Keeps _ _ (require_released-Keeps seen) (λ u.
              then-Keeps _ _ (hold-Keeps o)
                (λ l. then-Keeps _ _ (journal-Keeps _) (λ v. keep_lease-Keeps l))))
            e s)

  adopt_by-Keeps :
      (ph : PlatformVpnOwnerPhase) (x : Option ProcessIdentity) (o : ProcessIdentity)
      (j : PlatformVpnOwnerJournal)
      → KeepsSettled (adopt_by json env host ph x a o j)
  adopt_by-Keeps pending none o j = then-Keeps _ _ (lift-Keeps _) λ seen.
      then-Keeps _ _ (require_held-Keeps seen) λ u.
        then-Keeps _ _ (hold-Keeps o) λ l. then-Keeps _ _ (journal-Keeps _) λ v. keep_lease-Keeps l
  adopt_by-Keeps attached (some c) o j = adopt_attached-Keeps c o j
  adopt_by-Keeps pending (some c) o j = fail-Keeps EngineError.invalid_phase
  adopt_by-Keeps attached none o j = fail-Keeps EngineError.invalid_phase
  adopt_by-Keeps stopping x o j = fail-Keeps EngineError.invalid_phase

  publish_attachment-Keeps :
      (o : ProcessIdentity) → KeepsSettled (publish_attachment json env host a o)
  publish_attachment-Keeps o e s =
      test-Keeps Settled (attachment_changed o e.inner)
        (λ t. last_published env (attached_state env a o) e (attached-Settled env a o e.inner s))
        (λ t. record { holds = attached-Settled env a o e.inner s })

  still_bound-Keeps : KeepsSettled (still_bound json env host a)
  still_bound-Keeps e s =
      test-Keeps Settled (text_eq e.inner.platform_start_attempt_id a) (λ t. record { holds = s })
        (λ t. record { holds = s })

  pub bind_start-Keeps : KeepsSettled (bind_platform_vpn_start json env host a)
  unfolding bind_platform_vpn_start
  bind_start-Keeps =
      then-Keeps _ _ (guard-Keeps Settled (not (is_empty a)) EngineError.empty_attempt) λ u.
        then-Keeps _ _ (lift-Keeps host.identity) λ o. then-Keeps _ _ (binding-Keeps env a) λ taken.
          then-Keeps _ _ (λ e. proceed-Keeps (bind_refusal a e.inner) e)
            λ v. then-Keeps _ _ (change-Keeps (reopened env a) (reopened-Settled env a)) λ w.
              then-Keeps _ _ (journal-Keeps _) λ found.
                then-Keeps _ _ (journal_of-Keeps a found) λ j.
                  then-Keeps _ _ (adopt_by-Keeps j.phase j.extension o j) λ x.
                    then-Keeps _ _ (λ e s. record { holds = sync-Settled env e s })
                      λ y.
                        then-Keeps _ _ still_bound-Keeps
                          λ z. then-Keeps _ _ (publish_attachment-Keeps o) λ q. return-Keeps _
