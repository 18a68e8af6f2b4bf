-- ===== src/Engine/Invariant/Released.antt =====
-- `Settled` and the rounds that release the cleanup barrier.
use h_openconnect.Base.{
  not, Bool, true, false, Option, none, some, Text, is_empty, text_eq, List, [], ◌∷◌,
}
use h_openconnect.Owner.Record.{
  ProcessIdentity, PlatformVpnOwnerPhase, pending, attached, stopping, PlatformVpnOwnerJournal,
  JournalRead,
}
use h_openconnect.Owner.Storage.{Json}
use h_openconnect.Engine.State.{SessionEngine, Env, CoreResult, ok, err, EngineError}
use h_openconnect.Engine.Envelope.{synced}
use h_openconnect.Engine.Envelope.Rules.{Settled}
use h_openconnect.Engine.Envelope.Safety.{sync-Settled}
use h_openconnect.Engine.Keeps.{After, test-Keeps, if-Keeps}
use h_openconnect.Engine.Ownership.{Host}
use h_openconnect.Engine.Cleanup.{
  CleanupRecoveryProof, RoundOutcome, is_cleaned, local_unattached_fence, released_barrier,
  prove_by, release_synced, release_if, recover_by, recover_found, recover_round, Round,
  after_round, recover_rounds, recover_platform_vpn_cleanup_after_confirmed_stop,
}
use h_openconnect.Engine.Invariant.{released-Settled}
use h_openconnect.Engine.Invariant.Methods.{KeepsSettled, published_change}
use h_openconnect.Engine.Invariant.Owners.{
  journal-Keeps, lift-Keeps, return-Keeps, fail-Keeps, then-Keeps,
}

module _ (json : Json) (env env2 : Env) (host : Host) (expired : Bool) where
  prove_by-Keeps :
      (p : PlatformVpnOwnerPhase) (x : Option ProcessIdentity) (b : Bool) (a : Text)
      (j : PlatformVpnOwnerJournal)
      → KeepsSettled (prove_by json env env2 host expired p x b a j)
  prove_by-Keeps stopping none b a j = return-Keeps CleanupRecoveryProof.proven
  prove_by-Keeps pending none true a j = return-Keeps CleanupRecoveryProof.proven
  prove_by-Keeps pending none false a j = then-Keeps _ _ (lift-Keeps _) λ o. return-Keeps _
  prove_by-Keeps attached (some x) b a j = then-Keeps _ _ (lift-Keeps _) λ o. return-Keeps _
  prove_by-Keeps stopping (some x) b a j = fail-Keeps EngineError.invalid_phase
  prove_by-Keeps pending (some x) b a j = fail-Keeps EngineError.invalid_phase
  prove_by-Keeps attached none b a j = fail-Keeps EngineError.invalid_phase

  release_synced-Keeps : (a : Text) → KeepsSettled (release_synced json env env2 host expired a)
  release_synced-Keeps a e s =
      test-Keeps Settled (not (text_eq e.inner.platform_start_attempt_id a))
        (λ t. record { holds = s })
        λ t.
          test-Keeps Settled e.inner.platform_vpn_cleanup_complete (λ u. record { holds = s })
            λ u.
              published_change env2 (released_barrier env2 a) (RoundOutcome.answered true) e
                (released-Settled env2 a e.inner)

  release_if-Keeps :
      (a : Text) (b : Bool) → KeepsSettled (release_if json env env2 host expired a b)
  release_if-Keeps a false e s = record { holds = s }
  release_if-Keeps a true e s = release_synced-Keeps a (synced env2 e) (sync-Settled env2 e s)

  recover_by-Keeps :
      (p : CleanupRecoveryProof) (a : Text) (j : PlatformVpnOwnerJournal)
      → KeepsSettled (recover_by json env env2 host expired p a j)
  recover_by-Keeps CleanupRecoveryProof.proven a j =
      then-Keeps _ _ (journal-Keeps _) (release_if-Keeps a)
  recover_by-Keeps CleanupRecoveryProof.owner_alive a j = return-Keeps _
  recover_by-Keeps CleanupRecoveryProof.owner_liveness_unknown a j =
      fail-Keeps EngineError.lease_unknown

  recover_found-Keeps :
      (b : Bool) (a : Text) (r : JournalRead)
      → KeepsSettled (recover_found json env env2 host expired b a r)
  recover_found-Keeps b a JournalRead.missing e s =
      test-Keeps Settled (is_cleaned a (synced env2 e).inner)
        (λ t. record { holds = sync-Settled env2 e s })
        (λ t. record { holds = sync-Settled env2 e s })
  recover_found-Keeps b a (JournalRead.present j) e s =
      if-Keeps Settled (text_eq j.attempt_id a) _ _
        (then-Keeps _ _ (prove_by-Keeps j.phase j.extension b a j) (λ p. recover_by-Keeps p a j))
        (return-Keeps (RoundOutcome.answered false)) e s

  pub round-Keeps : (a : Text) → KeepsSettled (recover_round json env env2 host expired a)
  unfolding recover_round
  round-Keeps a e' s' =
      let e = synced env e' in
      let s = sync-Settled env e' s' in
      test-Keeps Settled (is_cleaned a e.inner) (λ t. record { holds = s })
        (λ t.
          then-Keeps _ _ (journal-Keeps _)
            (recover_found-Keeps (local_unattached_fence a e.inner) a) e s)

after_round-Keeps :
    (rest : SessionEngine → CoreResult (Option Bool) × SessionEngine)
    (r : CoreResult RoundOutcome × SessionEngine)
    → KeepsSettled rest
    → After Settled r
    → After Settled (after_round rest r)
after_round-Keeps rest (ok (RoundOutcome.answered b), e) k s = record { holds = s.holds }
after_round-Keeps rest (ok RoundOutcome.repeats, e) k s = k e s.holds
after_round-Keeps rest (ok RoundOutcome.pauses, e) k s = k e s.holds
after_round-Keeps rest (err x, e) k s = record { holds = s.holds }

rounds-Keeps : (json : Json) (a : Text) (rs : List Round) → KeepsSettled (recover_rounds json a rs)
unfolding recover_rounds
rounds-Keeps json a [] e s = record { holds = s }
rounds-Keeps json a (r ∷ rs) e s =
    after_round-Keeps _ _ (rounds-Keeps json a rs)
      (round-Keeps json r.first r.second r.host r.expired a e s)

pub recover-Keeps :
    (json : Json) (a : Text) (rs : List Round)
    → KeepsSettled (recover_platform_vpn_cleanup_after_confirmed_stop json a rs)
unfolding recover_platform_vpn_cleanup_after_confirmed_stop
recover-Keeps json a rs e s =
    test-Keeps Settled (is_empty a) (λ t. record { holds = s }) (λ t. rounds-Keeps json a rs e s)
