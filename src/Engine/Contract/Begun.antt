-- ===== src/Engine/Contract/Begun.antt =====
-- What a start that is begun has brought about.
use h_openconnect.Base.{ℕ, ◌≡◌, sym, ap, true, false, Option, none, some, Text}
use mathlib.Core.Path.{subst}
use h_openconnect.Bridge.State.{PlatformStartOutcome}
use h_openconnect.Owner.Record.{
  ProcessIdentity, pending, JournalRead, Result, PlatformVpnOwnerLeaseRecord,
}
use h_openconnect.Owner.Storage.{Json, Entry}
use h_openconnect.Owner.Journal.{read, create_pending_exact}
use h_openconnect.Owner.Journal.Confirms.{Owned}
use h_openconnect.Owner.Journal.Answers.{create_confirms}
use h_openconnect.Engine.State.{
  Inner, SessionEngine, Env, Action, ◌>>=◌, ◌>>◌, return, change, ok, EngineError,
}
use h_openconnect.Engine.Diagnostics.{push_diag}
use h_openconnect.Engine.Publish.{persist_platform, advance_revision}
use h_openconnect.Engine.Publish.Frames.{persist-inner, persist-journal}
use h_openconnect.Engine.Envelope.{synced}
use h_openconnect.Engine.Ownership.{Host, lift}
use h_openconnect.Engine.Start.{
  begin_platform_vpn_start_for_intent, begin_for, begin_synced, begin_attempt, claim_attempt,
  no_owner, unless, start_refusal, intent_refusal, next_attempt_id, started, pending_journal,
}
use h_openconnect.Engine.Contract.{
  Yields, bind-Yields, lift-Yields, journal-Yields, Yields-answer, state-Yields,
}

-- The attempt is the engine's own, pending, starting and not running, nothing is asked of it, and the journal names it
-- and the process that begins it.
pub record Begun (json : Json) (host : Host) (attempt : Text) (e : SessionEngine) : Type 0 where
  pub issuer : ProcessIdentity
  pub by_issuer : host.identity ≡ Result.ok issuer
  pub current : e.inner.platform_start_attempt_id ≡ attempt
  pub waits : e.inner.platform_start_outcome ≡ PlatformStartOutcome.pending
  pub starting : e.inner.platform_vpn_starting ≡ true
  pub down : e.inner.platform_vpn_running ≡ false
  pub unattached : e.inner.platform_extension_attached ≡ false
  pub unasked : e.inner.platform_stop_requested ≡ false
  pub uncleaned : e.inner.platform_vpn_cleanup_complete ≡ false
  pub owned : Owned json e.journal attempt issuer pending none

fresh_state :
    (json : Json) (env : Env) (host : Host) (issuer : ProcessIdentity) (a : Text)
    (lease : PlatformVpnOwnerLeaseRecord) (i : Inner) (f : SessionEngine)
    → host.identity ≡ Result.ok issuer
    → f.inner ≡ advance_revision env (started env a lease i)
    → Owned json f.journal a issuer pending none
    → Begun json host a f
unfolding started push_diag
fresh_state json env host issuer a lease i f h s o = record {
  issuer = issuer;
  by_issuer = h;
  current = ap (λ (x : Inner). x.platform_start_attempt_id) s;
  waits = ap (λ (x : Inner). x.platform_start_outcome) s;
  starting = ap (λ (x : Inner). x.platform_vpn_starting) s;
  down = ap (λ (x : Inner). x.platform_vpn_running) s;
  unattached = ap (λ (x : Inner). x.platform_extension_attached) s;
  unasked = ap (λ (x : Inner). x.platform_stop_requested) s;
  uncleaned = ap (λ (x : Inner). x.platform_vpn_cleanup_complete) s;
  owned = o;
}

module _ (json : Json) (env : Env) (host : Host) (issuer : ProcessIdentity)
    (known : host.identity ≡ Result.ok issuer) where
  fresh_start :
      (a : Text) (lease : PlatformVpnOwnerLeaseRecord) (e : SessionEngine)
      → Owned json e.journal a issuer pending none
      → Yields
          (Begun json host)
          ((do change (started env a lease); persist_platform env; return a) e)
  unfolding ◌>>=◌
  fresh_start a lease e o =
      let e2 = record e { inner = started env a lease e.inner } in
      bind-Yields (λ u f. Begun json host a f) (Begun json host) (persist_platform env)
        (λ u. return a) e2
        (state-Yields (Begun json host a) (persist_platform env e2) (
          fresh_state json env host issuer a lease e.inner (persist_platform env e2).1 known
            (persist-inner env e2)
            (subst (λ (y : Entry). Owned json y a issuer pending none)
              (sym (persist-journal env e2)) o)))
        (λ u f b. b)

  no_owner-Yields : (r : JournalRead) (e : SessionEngine) → Yields (λ u f. Unit {0}) (no_owner r e)
  no_owner-Yields JournalRead.missing e = tt
  no_owner-Yields (JournalRead.present c) e = tt

  claim-Yields :
      (a : Text) (e : SessionEngine)
      → Yields
          (λ l f. Owned json f.journal a issuer pending none)
          (claim_attempt json env host a issuer e)
  unfolding claim_attempt
  claim-Yields a e =
      bind-Yields (λ r f. Unit {0}) (λ l f. Owned json f.journal a issuer pending none) _ _ e
        (journal-Yields (λ r f. Unit {0}) (read json host.journal) e (λ r h. tt))
        λ r f u.
          bind-Yields (λ r f. Unit {0}) (λ l f. Owned json f.journal a issuer pending none) _ _ f
            (no_owner-Yields r f)
            λ w g v.
              bind-Yields (λ r f. Unit {0}) (λ l f. Owned json f.journal a issuer pending none) _ _
                g (lift-Yields (λ r f. Unit {0}) _ g (λ l h. tt))
                λ l k v2.
                  bind-Yields (λ u f. Owned json f.journal a issuer pending none)
                    (λ l f. Owned json f.journal a issuer pending none) _ _ k
                    (journal-Yields (λ u f. Owned json f.journal a issuer pending none)
                      (create_pending_exact json host.update (pending_journal a issuer)) k
                      (λ t h.
                        create_confirms json host.update k.journal (pending_journal a issuer) h))
                    (λ t m o. o)

  begin_attempt-Yields :
      (a : Text) (e : SessionEngine)
      → Yields (Begun json host) (begin_attempt json env host a issuer e)
  begin_attempt-Yields a e =
      bind-Yields (λ l f. Owned json f.journal a issuer pending none) (Begun json host)
        (claim_attempt json env host a issuer) _ e (claim-Yields a e) (λ l f o. fresh_start a l f o)

  unless-Yields :
      (o : Option EngineError) (m : Action Text) (e : SessionEngine)
      → Yields (Begun json host) (m e)
      → Yields (Begun json host) ((unless o >> m) e)
  unfolding ◌>>=◌
  unless-Yields none m e k = k
  unless-Yields (some x) m e k = tt

  begin_for-Yields :
      (epoch : ℕ) (e : SessionEngine)
      → Yields (Begun json host) (begin_for json env host epoch issuer e)
  begin_for-Yields epoch e =
      unless-Yields (intent_refusal epoch e.inner)
        (λ f. begin_synced json env host issuer (synced env f)) e
        (let g = synced env e in
          unless-Yields (start_refusal g.inner)
            (begin_attempt json env host (next_attempt_id env g.inner) issuer) g
            (begin_attempt-Yields (next_attempt_id env g.inner) g))

-- When the app begins a start and is told the new attempt, that attempt is the engine's own, pending and
-- starting, neither running nor attached nor asked to stop nor cleaned up, and the journal has a pending
-- record of it that names the app's process and no Extension.
pub begin-Begun :
    (json : Json) (env : Env) (host : Host) (epoch : ℕ) (e : SessionEngine) (attempt : Text)
    → (begin_platform_vpn_start_for_intent json env host epoch e).0 ≡ ok attempt
    → Begun json host attempt (begin_platform_vpn_start_for_intent json env host epoch e).1
unfolding begin_platform_vpn_start_for_intent
begin-Begun json env host epoch e attempt = Yields-answer (Begun json host) _ attempt (
    bind-Yields (λ i f. host.identity ≡ Result.ok i) (Begun json host) (lift host.identity)
      (λ i. begin_for json env host epoch i) e
      (lift-Yields (λ i f. host.identity ≡ Result.ok i) host.identity e (λ i h. h))
      (λ i f h. begin_for-Yields json env host i h epoch f))
