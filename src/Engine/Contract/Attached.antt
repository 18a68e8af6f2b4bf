-- ===== src/Engine/Contract/Attached.antt =====
-- What a binding that succeeds has brought about.
use h_openconnect.Base.{
  ◌≡◌, refl, sym, ap, ◌∙◌, true, not, ◌&&◌, Text, text_eq, text_eq→eq, is_empty, Bool-cases, inl,
  inr,
}
use mathlib.Core.Path.{subst}
use h_openconnect.Owner.Record.{ProcessIdentity, PlatformVpnOwnerJournal, JournalRead, Result}
use h_openconnect.Owner.Storage.{Json}
use h_openconnect.Owner.Journal.{read}
use h_openconnect.Owner.Journal.Rules.{Reads}
use h_openconnect.Owner.Journal.Answers.{read_confirms}
use h_openconnect.Engine.State.{
  Inner, SessionEngine, Env, ◌>>=◌, ◌>>◌, return, change, run, guard, ok, EngineError,
}
use h_openconnect.Engine.Diagnostics.{push_diag}
use h_openconnect.Engine.Publish.{persist_platform}
use h_openconnect.Engine.Publish.Frames.{persist-inner, persist-journal}
use h_openconnect.Engine.Envelope.{synced, sync_platform_for_binding}
use h_openconnect.Engine.Envelope.Journal.{sync-journal}
use h_openconnect.Engine.Envelope.Merge.{is_pending}
use h_openconnect.Engine.Ownership.{Host, lift, on_journal, journal_of}
use h_openconnect.Engine.Extension.{
  bind_platform_vpn_start, reopened, attached_state, attachment_changed, adopt_by, still_bound,
  publish_attachment, check_bind,
}
use h_openconnect.Engine.Contract.{
  Yields, bind-Yields, lift-Yields, journal-Yields, Yields-answer, state-Yields,
}
use h_openconnect.Engine.Contract.Adopted.{
  AttachedBy, Found, Found-Yields, Any, Any-Yields, adopt_by-Here,
}

-- The engine has the attempt, attached to this process, and so has the journal.
pub record Attached (json : Json) (host : Host) (attempt : Text) (e : SessionEngine) : Type 0 where
  pub owner : ProcessIdentity
  pub by_owner : host.identity ≡ Result.ok owner
  pub current : e.inner.platform_start_attempt_id ≡ attempt
  pub attached_here : e.inner.platform_extension_attached ≡ true
  pub pid : e.inner.platform_extension_owner_pid ≡ owner.pid
  pub start_time : e.inner.platform_extension_owner_start_time ≡ owner.start_time
  pub recorded : AttachedBy json attempt owner e.journal

-- The attachment as the state has it afterwards.
record Shows (a : Text) (owner : ProcessIdentity) (i : Inner) : Type 0 where
  current : i.platform_start_attempt_id ≡ a
  attached_here : i.platform_extension_attached ≡ true
  pid : i.platform_extension_owner_pid ≡ owner.pid
  start_time : i.platform_extension_owner_start_time ≡ owner.start_time

attached-Shows :
    (env : Env) (a : Text) (owner : ProcessIdentity) (i : Inner)
    → i.platform_start_attempt_id ≡ a
    → Shows a owner (attached_state env a owner i)
unfolding attached_state push_diag
attached-Shows env a owner i h = elim (Bool-cases i.platform_extension_attached) [
  | inr t ↦ rw t (record { current = h; attached_here = refl; pid = refl; start_time = refl })
  | inl t ↦
      elim (Bool-cases (
        is_pending i.platform_start_outcome
        && i.platform_vpn_starting
        && not i.platform_vpn_running)) [
          | inl u ↦
              rw (t, u)
                (record { current = h; attached_here = refl; pid = refl; start_time = refl })
          | inr u ↦
              rw (t, u)
                (record { current = h; attached_here = refl; pid = refl; start_time = refl })
        ]
]

module _ (json : Json) (env : Env) (host : Host) (a : Text) (owner : ProcessIdentity)
    (known : host.identity ≡ Result.ok owner) where
  shown :
      (e : SessionEngine)
      → Shows a owner e.inner
      → AttachedBy json a owner e.journal
      → Attached json host a e
  shown e s r = record {
    owner = owner;
    by_owner = known;
    current = s.current;
    attached_here = s.attached_here;
    pid = s.pid;
    start_time = s.start_time;
    recorded = r;
  }

  published :
      (e : SessionEngine)
      → Shows a owner e.inner
      → AttachedBy json a owner e.journal
      → Attached json host a (persist_platform env e).1
  published e s r =
      shown (persist_platform env e).1
        (subst (Shows a owner) (sym (persist-inner env e)) (record {
          current = s.current;
          attached_here = s.attached_here;
          pid = s.pid;
          start_time = s.start_time;
        }))
        (subst (AttachedBy json a owner) (sym (persist-journal env e)) r)

  publish-Attached :
      (e : SessionEngine)
      → e.inner.platform_start_attempt_id ≡ a
      → AttachedBy json a owner e.journal
      → Yields (λ u f. Attached json host a f) (publish_attachment json env host a owner e)
  unfolding ◌>>=◌
  publish-Attached e h r =
      let f = record e { inner = attached_state env a owner e.inner } in
      let s = attached-Shows env a owner e.inner h in
      elim (Bool-cases (attachment_changed owner e.inner)) [
        | inl t ↦
            rw t (state-Yields (Attached json host a) (persist_platform env f) (published f s r))
        | inr t ↦ rw t (shown f s r)
      ]

  still-Yields :
      (e : SessionEngine)
      → AttachedBy json a owner e.journal
      → Yields
          (λ u f. (f.inner.platform_start_attempt_id ≡ a) × AttachedBy json a owner f.journal)
          (still_bound json env host a e)
  still-Yields e r = elim (Bool-cases (text_eq e.inner.platform_start_attempt_id a)) [
    | inl t ↦ rw t (text_eq→eq e.inner.platform_start_attempt_id a t, r)
    | inr t ↦ rw t tt
  ]

  -- After the journal has been adopted.
  finished :
      (name : Text) (e : SessionEngine)
      → AttachedBy json a owner e.journal
      → Yields
          (λ n f. Attached json host a f)
          ((do
            run (synced env)
            still_bound json env host a
            publish_attachment json env host a owner
            return name)
            e)
  finished name e r =
      bind-Yields (λ u f. AttachedBy json a owner f.journal) (λ n f. Attached json host a f)
        (run (synced env)) _ e (subst (AttachedBy json a owner) (sym (sync-journal env e)) r)
        λ u f s.
          bind-Yields
            (λ u f. (f.inner.platform_start_attempt_id ≡ a) × AttachedBy json a owner f.journal)
            (λ n f. Attached json host a f) _ _ f (still-Yields f s)
            λ v g t.
              bind-Yields (λ u f. Attached json host a f) (λ n f. Attached json host a f) _ _ g
                (publish-Attached g t.0 t.1) (λ w k q. q)

  found_read :
      (e : SessionEngine)
      → Yields
          (λ r f.
            (c : PlatformVpnOwnerJournal) → r ≡ JournalRead.present c → Reads json f.journal c)
          (on_journal (read json host.journal) e)
  found_read e =
      let seen = read_confirms json host.journal e.journal in
      journal-Yields _ (read json host.journal) e
        λ r h c p. subst (λ y. Reads json y c) (sym seen.0) (seen.1 c (h ∙ ap Result.ok p))

  -- After the process is known, the frame is taken and the attempt may be bound.
  adopted :
      (name : Text) (e : SessionEngine)
      → Yields
          (λ n f. Attached json host a f)
          ((do
            found ← on_journal (read json host.journal)
            journal ← journal_of a found
            adopt_by json env host journal.phase journal.extension a owner journal
            run (synced env)
            still_bound json env host a
            publish_attachment json env host a owner
            return name)
            e)
  adopted name e =
      bind-Yields _ (λ n f. Attached json host a f) (on_journal (read json host.journal)) _ e
        (found_read e)
        λ r f h.
          bind-Yields (Found json a) (λ n f. Attached json host a f) (journal_of a r) _ f
            (Found-Yields json a r f h)
            λ j g q.
              bind-Yields (λ u k. AttachedBy json a owner k.journal) (λ n f. Attached json host a f)
                _ _ g (adopt_by-Here json env host a owner j.phase j.extension j g q refl refl)
                (λ u k. finished name k)

-- When an Extension binds an attempt and is told its owner, the engine has that attempt, attached to
-- this very process, and the journal has it attached to the same process, under one issuer.
pub bind-Attached :
    (json : Json) (env : Env) (host : Host) (attempt name : Text) (e : SessionEngine)
    → (bind_platform_vpn_start json env host attempt e).0 ≡ ok name
    → Attached json host attempt (bind_platform_vpn_start json env host attempt e).1
unfolding bind_platform_vpn_start
bind-Attached json env host a name e =
    Yields-answer (λ n f. Attached json host a f) _ name
      (bind-Yields Any (λ n f. Attached json host a f)
        (guard (not (is_empty a)) EngineError.empty_attempt) _ e (Any-Yields _)
        λ u f v.
          bind-Yields (λ i g. host.identity ≡ Result.ok i) (λ n f. Attached json host a f)
            (lift host.identity) _ f
            (lift-Yields (λ i g. host.identity ≡ Result.ok i) host.identity f (λ i h. h))
            λ owner g known.
              bind-Yields Any (λ n f. Attached json host a f) (sync_platform_for_binding env a) _ g
                (Any-Yields _)
                λ t k w.
                  bind-Yields Any (λ n f. Attached json host a f) (check_bind json env host a) _ k
                    (Any-Yields _)
                    λ t2 l w2.
                      bind-Yields Any (λ n f. Attached json host a f) (change (reopened env a)) _ l
                        tt λ t3 m w3. adopted json env host a owner known _ m)
