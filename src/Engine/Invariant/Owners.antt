-- ===== src/Engine/Invariant/Owners.antt =====
-- `Settled` and the methods that begin a start or give one up.
use h_openconnect.Base.{ℕ, Bool, true, false, ◌&&◌, ◌||◌, not, Option, none, some, Text}
use h_openconnect.Owner.Record.{ProcessIdentity, JournalRead, Result}
use h_openconnect.Owner.Storage.{Entry, Json}
use h_openconnect.Engine.State.{Env, Action, ◌>>=◌, return, fail, EngineError}
use h_openconnect.Engine.Envelope.{synced}
use h_openconnect.Engine.Envelope.Rules.{Settled}
use h_openconnect.Engine.Envelope.Safety.{sync-Settled}
use h_openconnect.Engine.Keeps.{bind-Keeps, test-Keeps}
use h_openconnect.Engine.Ownership.{Host, lift, on_journal}
use h_openconnect.Engine.Attempt.{platform_start_is_pending}
use h_openconnect.Engine.Start.{
  begin_platform_vpn_start_for_intent, begin_attempt, claim_attempt, no_owner, unless,
  start_refusal, intent_refusal, next_attempt_id, started, failed_start, fail_platform_vpn_start_if,
  fail_now, fail_if_deleted,
}
use h_openconnect.Engine.Invariant.{started-Settled, failed_start-Settled}
use h_openconnect.Engine.Invariant.Methods.{KeepsSettled, published_change}

-- A step that changes only the journal's file, or nothing.
pub journal-Keeps : {A : Type 0} (act : Entry → Result A × Entry) → KeepsSettled (on_journal act)
journal-Keeps act e s = record { holds = s }

pub lift-Keeps : {A : Type 0} (r : Result A) → KeepsSettled (lift r)
lift-Keeps r e s = record { holds = s }

pub return-Keeps : {A : Type 0} (a : A) → KeepsSettled (return a)
return-Keeps a e s = record { holds = s }

pub fail-Keeps : {A : Type 0} (x : EngineError) → KeepsSettled (fail {A = A} x)
fail-Keeps x e s = record { holds = s }

unless-Keeps : (o : Option EngineError) → KeepsSettled (unless o)
unless-Keeps none e s = record { holds = s }
unless-Keeps (some x) e s = record { holds = s }

no_owner-Keeps : (r : JournalRead) → KeepsSettled (no_owner r)
no_owner-Keeps JournalRead.missing e s = record { holds = s }
no_owner-Keeps (JournalRead.present j) e s = record { holds = s }

pub then-Keeps :
    {A B : Type 0} (m : Action A) (f : A → Action B)
    → KeepsSettled m
    → ((a : A) → KeepsSettled (f a))
    → KeepsSettled (m >>= f)
then-Keeps m f k l = bind-Keeps Settled m f k l

module _ (json : Json) (env : Env) (host : Host) where
  claim_attempt-Keeps :
      (a : Text) (i : ProcessIdentity) → KeepsSettled (claim_attempt json env host a i)
  unfolding claim_attempt
  claim_attempt-Keeps a i = then-Keeps _ _ (journal-Keeps _) λ owner.
      then-Keeps _ _ (no_owner-Keeps owner) λ u.
        then-Keeps _ _ (lift-Keeps _)
          λ lease. then-Keeps _ _ (journal-Keeps _) λ v. return-Keeps lease

  begin_attempt-Keeps :
      (a : Text) (i : ProcessIdentity) → KeepsSettled (begin_attempt json env host a i)
  begin_attempt-Keeps a i =
      then-Keeps (claim_attempt json env host a i) _ (claim_attempt-Keeps a i) λ lease e s.
        published_change env (started env a lease) a e (started-Settled env a lease e.inner)

  pub begin-Keeps :
      (epoch : ℕ) → KeepsSettled (begin_platform_vpn_start_for_intent json env host epoch)
  unfolding begin_platform_vpn_start_for_intent
  begin-Keeps epoch = then-Keeps _ _ (lift-Keeps host.identity) λ i e s.
      then-Keeps _ _ (unless-Keeps (intent_refusal epoch e.inner))
        (λ u f p.
          let g = synced env f in
          then-Keeps _ _ (unless-Keeps (start_refusal g.inner))
            (λ v. begin_attempt-Keeps (next_attempt_id env g.inner) i) g (sync-Settled env f p))
        e s

  fail_now-Keeps : (b : Bool) (t : Text) → KeepsSettled (fail_now json env host b t)
  fail_now-Keeps b t e s =
      published_change env (failed_start env b t) true e (failed_start-Settled env b t e.inner)

  fail_if_deleted-Keeps : (t : Text) (b : Bool) → KeepsSettled (fail_if_deleted json env host t b)
  fail_if_deleted-Keeps t true = fail_now-Keeps true t
  fail_if_deleted-Keeps t false = return-Keeps false

  pub fail_if-Keeps :
      (a t : Text) (b : Bool) → KeepsSettled (fail_platform_vpn_start_if json env host a t b)
  unfolding fail_platform_vpn_start_if
  fail_if-Keeps a t b e' s' =
      let e = synced env e' in
      let s = sync-Settled env e' s' in
      test-Keeps Settled
        (not (platform_start_is_pending e.inner a) || (b && e.inner.platform_extension_attached))
        (λ x. return-Keeps false e s)
        λ x.
          test-Keeps Settled b (λ y. then-Keeps _ _ (journal-Keeps _) (fail_if_deleted-Keeps t) e s)
            (λ y. fail_now-Keeps false t e s)
