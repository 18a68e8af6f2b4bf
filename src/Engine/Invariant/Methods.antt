-- ===== src/Engine/Invariant/Methods.antt =====
-- `Settled` and the methods on the attempt, crates/hopenconnect_core/src/engine/platform.rs.
use h_openconnect.Base.{
  arith, Bool, true, false, ◌&&◌, ◌||◌, not, none, Text, if◌then◌else◌, is_empty, text_eq, codes,
}
use h_openconnect.Engine.State.{
  Inner, SessionEngine, Env, Action, ◌>>=◌, ◌>>◌, return, change, CoreResult,
}
use h_openconnect.Engine.Publish.{persist_platform}
use h_openconnect.Engine.Envelope.{synced}
use h_openconnect.Engine.Envelope.Rules.{Settled}
use h_openconnect.Engine.Envelope.Safety.{sync-Settled, line-Settled}
use h_openconnect.Engine.Diagnostics.{push_diag}
use h_openconnect.Engine.Keeps.{After, same-Keeps, Keeps, bind-Keeps, test-Keeps, persist-Keeps}
use h_openconnect.Engine.Attempt.{
  under_lock, cancel_platform_vpn_start, cancelled_start, platform_start_is_pending,
  request_platform_vpn_stop, request_locked, stop_requested, set_platform_vpn_starting,
  set_platform_vpn_starting_for_attempt, start_flag, set_platform_vpn_running,
  apply_platform_vpn_running, set_platform_vpn_failed, set_platform_vpn_failed_for_attempt,
  apply_platform_vpn_failed, expire_platform_vpn_start, expired_start,
  clear_platform_session_handoff, is_handoff_of, platform_attempt_accepts_updates,
}
use h_openconnect.Bridge.Envelope.{is_present}
use h_openconnect.Engine.Envelope.Merge.{is_pending}
use h_openconnect.Engine.Invariant.{
  revision-Settled, cancelled-Settled, requested-Settled, flag-Settled, failed-Settled,
  expired-Settled, down-Settled,
}

abbrev pub KeepsSettled : {A : Type 0} → Action A → Type 0
KeepsSettled m = Keeps Settled m

module _ (env : Env) where
  pub publish-Settled : KeepsSettled (persist_platform env)
  publish-Settled = persist-Keeps Settled env (revision-Settled env)

  -- A change that leaves the state settled, published.
  pub published_change :
      {A : Type 0} (f : Inner → Inner) (r : A) (e : SessionEngine)
      → Settled (f e.inner)
      → After Settled ((do change f; persist_platform env; return r) e)
  unfolding ◌>>=◌
  published_change f r e s =
      bind-Keeps Settled (persist_platform env) (λ u. return r) publish-Settled
        (λ u. same-Keeps Settled (CoreResult.ok r)) (record e { inner = f e.inner }) s

  pub under_lock-Settled :
      {A : Type 0} (m : Action A) → KeepsSettled m → KeepsSettled (under_lock env m)
  under_lock-Settled m k e s = k (synced env e) (sync-Settled env e s)

  pub cancel-Settled : (a : Text) → KeepsSettled (cancel_platform_vpn_start env a)
  unfolding cancel_platform_vpn_start
  cancel-Settled a e' s' =
      let e = synced env e' in
      let s = sync-Settled env e' s' in
      test-Keeps Settled (platform_start_is_pending e.inner a)
        (λ t. published_change (cancelled_start env a) true e (cancelled-Settled env a e.inner))
        (λ t. same-Keeps Settled (CoreResult.ok false) e s)

  same :
      {A : Type 0} (r : A) (e : SessionEngine)
      → Settled e.inner
      → After Settled (CoreResult.ok r, e)
  same r e s = same-Keeps Settled (CoreResult.ok r) e s

  request_locked-Settled : (a : Text) → KeepsSettled (request_locked env a)
  request_locked-Settled a e s =
      test-Keeps Settled (not (text_eq e.inner.platform_start_attempt_id a)) (λ x. same false e s)
        λ x.
          test-Keeps Settled e.inner.platform_vpn_cleanup_complete (λ y. same true e s)
            λ y.
              test-Keeps Settled (not e.inner.platform_extension_attached) (λ z. same false e s)
                λ z.
                  test-Keeps Settled e.inner.platform_stop_requested (λ w. same true e s)
                    λ w.
                      published_change (stop_requested env a) true e
                        (requested-Settled env a e.inner s)

  pub request-Settled : (a : Text) → KeepsSettled (request_platform_vpn_stop env a)
  unfolding request_platform_vpn_stop
  request-Settled a e s =
      test-Keeps Settled (is_empty a) (λ t. same false e s)
        λ t. under_lock-Settled (request_locked env a) (request_locked-Settled a) e s

  -- A change that leaves the state settled, published as the last step.
  pub last_published :
      (f : Inner → Inner) (e : SessionEngine)
      → Settled (f e.inner)
      → After Settled ((do change f; persist_platform env) e)
  unfolding ◌>>=◌
  last_published f e s = publish-Settled (record e { inner = f e.inner }) s

  flag_line-Settled :
      (b : Bool) (i : Inner)
      → Settled i
      → Settled (
          if b
          then push_diag env
              (codes "info")
              (codes "platform VPN extension starting")
              (start_flag true i)
          else start_flag false i)
  flag_line-Settled true i s = line-Settled env _ _ _ (flag-Settled true i s)
  flag_line-Settled false i s = flag-Settled false i s

  pub starting-Settled : (b : Bool) → KeepsSettled (set_platform_vpn_starting env b)
  unfolding set_platform_vpn_starting
  starting-Settled b e' s' =
      let e = synced env e' in
      let s = sync-Settled env e' s' in
      test-Keeps Settled (b && e.inner.platform_vpn_running) (λ t. same tt e s)
        λ t.
          last_published
            (λ i.
              if b
              then push_diag env (codes "info") (codes "platform VPN extension starting")
                  (start_flag true i)
              else start_flag false i)
            e (flag_line-Settled b e.inner s)

  pub starting_for-Settled :
      (a : Text) (b : Bool) → KeepsSettled (set_platform_vpn_starting_for_attempt env a b)
  unfolding set_platform_vpn_starting_for_attempt
  starting_for-Settled a b e' s' =
      let e = synced env e' in
      let s = sync-Settled env e' s' in
      test-Keeps Settled (not (platform_attempt_accepts_updates e.inner a)) (λ t. same false e s)
        λ t.
          test-Keeps Settled (b && not (is_pending e.inner.platform_start_outcome))
            (λ u. same false e s)
            λ u. published_change (start_flag b) true e (flag-Settled b e.inner s)

  pub down-Keeps : KeepsSettled (set_platform_vpn_running env false)
  unfolding set_platform_vpn_running
  down-Keeps e' s' =
      let e = synced env e' in
      last_published (apply_platform_vpn_running env false) e
        (down-Settled env e.inner (sync-Settled env e' s'))

  pub failed-Keeps : (t : Text) → KeepsSettled (set_platform_vpn_failed env t)
  unfolding set_platform_vpn_failed
  failed-Keeps t e' s' =
      let e = synced env e' in
      last_published (apply_platform_vpn_failed env t) e
        (failed-Settled env t e.inner (sync-Settled env e' s'))

  pub failed_for-Keeps : (a t : Text) → KeepsSettled (set_platform_vpn_failed_for_attempt env a t)
  unfolding set_platform_vpn_failed_for_attempt
  failed_for-Keeps a t e' s' =
      let e = synced env e' in
      let s = sync-Settled env e' s' in
      test-Keeps Settled (platform_attempt_accepts_updates e.inner a)
        (λ u.
          published_change (apply_platform_vpn_failed env t) true e
            (failed-Settled env t e.inner s))
        (λ u. same false e s)

  pub expire-Keeps : KeepsSettled (expire_platform_vpn_start env)
  unfolding expire_platform_vpn_start
  expire-Keeps e' s' =
      let e = synced env e' in
      let s = sync-Settled env e' s' in
      test-Keeps Settled (not e.inner.platform_vpn_starting || e.inner.platform_vpn_running)
        (λ t. same false e s)
        λ t.
          test-Keeps Settled (is_present e.inner.running_native) (λ u. same false e s)
            λ u. published_change expired_start true e (expired-Settled e.inner (ground arith) s)

  pub clear-Keeps : (a : Text) → KeepsSettled (clear_platform_session_handoff env a)
  unfolding clear_platform_session_handoff
  clear-Keeps a e s =
      test-Keeps Settled (is_handoff_of a e.inner.platform_session_handoff)
        (λ t.
          last_published (λ i. record i { platform_session_handoff = none }) e
            (record { stopped = s.stopped; ended = s.ended }))
        (λ t. same tt e s)
