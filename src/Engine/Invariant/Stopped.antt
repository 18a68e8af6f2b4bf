-- ===== src/Engine/Invariant/Stopped.antt =====
-- `Settled` and the methods that clean up, claim a stop and check the owner.
use h_openconnect.Base.{
  ℕ, ◌≡◌, arith, Bool, true, false, ◌&&◌, ◌||◌, not, Option, none, some, Text, Bool-cases, inl, inr,
  text_eq, ◌==◌,
}
use h_openconnect.Bridge.Envelope.{is_present}
use h_openconnect.Owner.Record.{
  ProcessIdentity, PlatformVpnOwnerPhase, pending, attached, stopping, PlatformVpnOwnerJournal,
  JournalRead, Result,
}
use h_openconnect.Owner.Storage.{Json, Entry}
use h_openconnect.Engine.State.{SessionEngine, Env, Action, continue, ◌>>=◌, EngineError}
use h_openconnect.Engine.Envelope.{synced}
use h_openconnect.Engine.Envelope.Merge.{is_pending, is_connected}
use h_openconnect.Engine.Envelope.Rules.{Settled}
use h_openconnect.Engine.Envelope.Safety.{sync-Settled, line-Settled}
use h_openconnect.Engine.Keeps.{After, test-Keeps, if-Keeps}
use h_openconnect.Engine.Ownership.{Host, lift_result, on_journal}
use h_openconnect.Engine.Extension.{
  complete_platform_vpn_cleanup, cleanup_synced, cleanup_found, delete_acknowledged, finish_cleanup,
  may_be_cleaned, is_acknowledging, cleaned,
}
use h_openconnect.Engine.Recovery.{
  claim_current_platform_vpn_stop, claim_found, claim_missing, claim_owner, fence_owner,
  fence_answer, lost_race, mark_stop, fence, stop_claimed, owes_cleanup, differs, retained_attempt,
  is_stoppable, lose_owner, check_owner, owner_lost, is_known_owner,
  refresh_platform_vpn_owner_liveness,
}
use h_openconnect.Engine.Invariant.{cleaned-Settled, claimed-Settled, lost-Settled, fence-Settled}
use h_openconnect.Engine.Invariant.Methods.{KeepsSettled, published_change, last_published}
use h_openconnect.Engine.Invariant.Owners.{
  journal-Keeps, lift-Keeps, return-Keeps, fail-Keeps, then-Keeps,
}
use h_openconnect.Engine.Invariant.Bound.{change-Keeps}

-- After an access to the journal the state is as before, so what was tested of it still holds.
pub journal_then-After :
    {A B : Type 0} (act : Entry → Result A × Entry) (f : A → Action B) (e : SessionEngine)
    → Settled e.inner
    → ((a : A) (y : Entry) → After Settled (f a (record e { journal = y })))
    → After Settled ((on_journal act >>= f) e)
unfolding ◌>>=◌
journal_then-After {A} {B} act f e s k = go (act e.journal).0 (act e.journal).1
  where
    go :
        (r : Result A) (y : Entry)
        → After Settled (continue (lift_result r, record e { journal = y }) f)
    go (Result.ok a) y = k a y
    go (Result.err x) y = record { holds = s }

module _ (json : Json) (env : Env) (host : Host) where
  lost_race-Keeps : (a : Text) (r : JournalRead) → KeepsSettled (lost_race json env host a r)
  lost_race-Keeps a JournalRead.missing e s = record { holds = s }
  lost_race-Keeps a (JournalRead.present j) e s =
      if-Keeps Settled (text_eq j.attempt_id a && is_stoppable j.phase j.extension) _ _
        (return-Keeps tt) (fail-Keeps EngineError.owner_changed) e s

  claim_missing-Keeps :
      (epoch : ℕ) (o : Option Text) → KeepsSettled (claim_missing json env host epoch o)
  unfolding ◌>>=◌ fence
  claim_missing-Keeps epoch none e s = record { holds = s }
  claim_missing-Keeps epoch (some a) e s = record { holds = fence-Settled epoch a e.inner s }

  finish_cleanup-Keeps :
      (a : Text) (b : Bool) (e : SessionEngine)
      → may_be_cleaned a e.inner ≡ true
      → Settled e.inner
      → After Settled (finish_cleanup json env host a b e)
  finish_cleanup-Keeps a true e m s =
      published_change env (cleaned env a) true e (cleaned-Settled env a e.inner m)
  finish_cleanup-Keeps a false e m s = record { holds = s }

  acknowledged-Keeps :
      (a : Text) (o : ProcessIdentity) (j : PlatformVpnOwnerJournal) (e : SessionEngine)
      → may_be_cleaned a e.inner ≡ true
      → Settled e.inner
      → After Settled (delete_acknowledged json env host a o j e)
  acknowledged-Keeps a o j e m s =
      test-Keeps Settled (is_acknowledging o e.inner j.phase j.extension)
        (λ t.
          journal_then-After _ (finish_cleanup json env host a) e s
            (λ b y. finish_cleanup-Keeps a b (record e { journal = y }) m s))
        (λ t. record { holds = s })

  cleanup_found-Keeps :
      (a : Text) (o : ProcessIdentity) (r : JournalRead) (e : SessionEngine)
      → may_be_cleaned a e.inner ≡ true
      → Settled e.inner
      → After Settled (cleanup_found json env host a o r e)
  cleanup_found-Keeps a o JournalRead.missing e m s = record { holds = s }
  cleanup_found-Keeps a o (JournalRead.present j) e m s =
      elim (Bool-cases (text_eq j.attempt_id a)) [
        | inl t ↦ rw t (acknowledged-Keeps a o j e m s)
        | inr t ↦ rw t (record { holds = s })
      ]

  cleanup_synced-Keeps :
      (a : Text) (o : ProcessIdentity) → KeepsSettled (cleanup_synced json env host a o)
  cleanup_synced-Keeps a o e s =
      test-Keeps Settled (not (may_be_cleaned a e.inner)) (λ t. record { holds = s })
        λ t.
          test-Keeps Settled e.inner.platform_vpn_cleanup_complete (λ u. record { holds = s })
            λ u.
              test-Keeps Settled (not (is_present e.inner.platform_vpn_extension_lease))
                (λ v. record { holds = s })
                λ v.
                  journal_then-After _ (cleanup_found json env host a o) e s
                    (λ r y. cleanup_found-Keeps a o r (record e { journal = y }) (ground arith) s)

  pub cleanup-Keeps : (a : Text) → KeepsSettled (complete_platform_vpn_cleanup json env host a)
  unfolding complete_platform_vpn_cleanup
  cleanup-Keeps a =
      then-Keeps _ _ (lift-Keeps host.identity)
        λ o e s. cleanup_synced-Keeps a o (synced env e) (sync-Settled env e s)

  mark_stop-Keeps : (a : Text) → KeepsSettled (mark_stop json env host a)
  mark_stop-Keeps a e s =
      test-Keeps Settled (owes_cleanup e.inner)
        (λ t. last_published env (stop_claimed env a) e (claimed-Settled env a e.inner s))
        (λ t. record { holds = line-Settled env _ _ _ s })

  fence_answer-Keeps : (a : Text) (b : Bool) → KeepsSettled (fence_answer json env host a b)
  fence_answer-Keeps a true e s = record { holds = line-Settled env _ _ _ s }
  fence_answer-Keeps a false e s = then-Keeps _ _ (journal-Keeps _) (lost_race-Keeps a) e s

  fence_owner-Keeps :
      (p : PlatformVpnOwnerPhase) (x : Option ProcessIdentity) (j : PlatformVpnOwnerJournal)
      → KeepsSettled (fence_owner json env host p x j)
  fence_owner-Keeps stopping none j = return-Keeps tt
  fence_owner-Keeps attached (some x) j = return-Keeps tt
  fence_owner-Keeps pending none j =
      then-Keeps _ _ (journal-Keeps _) (fence_answer-Keeps j.attempt_id)
  fence_owner-Keeps stopping (some x) j = fail-Keeps EngineError.invalid_phase
  fence_owner-Keeps attached none j = fail-Keeps EngineError.invalid_phase
  fence_owner-Keeps pending (some x) j = fail-Keeps EngineError.invalid_phase

  claim_owner-Keeps :
      (epoch : ℕ) (j : PlatformVpnOwnerJournal) → KeepsSettled (claim_owner json env host epoch j)
  claim_owner-Keeps epoch j = then-Keeps _ _ (mark_stop-Keeps j.attempt_id) λ u.
      then-Keeps _ _ (fence_owner-Keeps j.phase j.extension j) λ v.
        then-Keeps _ _ (change-Keeps (fence epoch j.attempt_id) (fence-Settled epoch j.attempt_id))
          λ w. return-Keeps j.attempt_id

  claim_found-Keeps :
      (epoch : ℕ) (retained : Option Text) (r : JournalRead)
      → KeepsSettled (claim_found json env host epoch retained r)
  claim_found-Keeps epoch retained JournalRead.missing e s =
      test-Keeps Settled (owes_cleanup e.inner) (λ t. record { holds = s })
        (λ t. claim_missing-Keeps epoch retained e s)
  claim_found-Keeps epoch retained (JournalRead.present j) e s =
      test-Keeps Settled
        (differs retained j.attempt_id
          || (owes_cleanup e.inner && not (text_eq e.inner.platform_start_attempt_id j.attempt_id)))
        (λ t. record { holds = s }) (λ t. claim_owner-Keeps epoch j e s)

  pub claim-Keeps : (epoch : ℕ) → KeepsSettled (claim_current_platform_vpn_stop json env host epoch)
  unfolding claim_current_platform_vpn_stop
  claim-Keeps epoch e s =
      test-Keeps Settled (epoch == 0 || not (e.inner.platform_vpn_intent_epoch == epoch))
        (λ t. record { holds = s })
        λ t.
          test-Keeps Settled e.inner.platform_os_stop_in_flight (λ u. record { holds = s })
            λ u.
              then-Keeps _ _ (λ f p. record { holds = sync-Settled env f p })
                (λ v.
                  then-Keeps _ _ (journal-Keeps _)
                    (claim_found-Keeps epoch (retained_attempt e.inner)))
                e s

  lose_owner-Keeps : (r : JournalRead) → KeepsSettled (lose_owner json env host r)
  lose_owner-Keeps JournalRead.missing e s = record { holds = s }
  lose_owner-Keeps (JournalRead.present j) e s =
      test-Keeps Settled
        (text_eq j.attempt_id e.inner.platform_start_attempt_id
          && is_known_owner e.inner j.phase j.extension)
        (λ t. last_published env (owner_lost env) e (lost-Settled env e.inner))
        (λ t. record { holds = s })

  check_owner-Keeps : (b : Bool) → KeepsSettled (check_owner json env host b)
  check_owner-Keeps false = return-Keeps tt
  check_owner-Keeps true = then-Keeps _ _ (journal-Keeps _) lose_owner-Keeps

  pub liveness-Keeps : KeepsSettled (refresh_platform_vpn_owner_liveness json env host)
  unfolding refresh_platform_vpn_owner_liveness
  liveness-Keeps e s =
      test-Keeps Settled
        (not e.inner.platform_extension_attached
          || e.inner.platform_vpn_cleanup_complete
          || not (
              is_pending e.inner.platform_start_outcome
              || is_connected e.inner.platform_start_outcome))
        (λ t. record { holds = s }) (λ t. then-Keeps _ _ (lift-Keeps _) check_owner-Keeps e s)
