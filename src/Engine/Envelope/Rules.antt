-- ===== src/Engine/Envelope/Rules.antt =====
-- What merging a frame does to the fields of the transaction.
use h_openconnect.Base.{
  ◌≡◌, refl, inl, inr, Bool, true, false, ◌&&◌, ◌||◌, not, Bool-cases, if◌then◌else◌, arith,
}
use h_openconnect.Bridge.State.{PlatformStartOutcome, PlatformVpnState}
use h_openconnect.Bridge.Envelope.{is_present}
use h_openconnect.Engine.State.{Inner, Env}
use h_openconnect.Engine.Envelope.Merge.{
  is_terminal_outcome, is_pending, merge_intent, merge_outcome, merge_attachment, release_leases,
  fail_pending, merge_transaction, merge_snapshot, is_running, merge, is_failed,
}

-- An attempt has ended.
abbrev pub Ended : Inner → Type 0
Ended i = is_terminal_outcome i.platform_start_outcome ≡ true

-- No start is under way, and none has led to a connection.
abbrev pub is_over : PlatformStartOutcome → Bool
is_over PlatformStartOutcome.pending = false
is_over PlatformStartOutcome.connected = false
is_over _ = true

pub terminal_over : (o : PlatformStartOutcome) → is_terminal_outcome o ≡ true → is_over o ≡ true
terminal_over o h = ground arith

-- The VPN is not marked as running for an attempt that has ended, and nothing is marked as cleaned up
-- while a start is pending or connected.
pub record Settled (i : Inner) : Type 0 where
  pub stopped : Ended i → i.platform_vpn_running ≡ false
  pub ended : i.platform_vpn_cleanup_complete ≡ true → is_over i.platform_start_outcome ≡ true

-- The three ways to merge an outcome.
pub data OutcomeOf (remote : PlatformVpnState) (i : Inner) : Inner → Type 0 where
  follows_end :
      is_terminal_outcome remote.start_outcome ≡ true
      → OutcomeOf remote i (record i {
        platform_start_outcome = remote.start_outcome;
        platform_vpn_starting = false;
        platform_vpn_running = false;
        platform_vpn_cleanup_complete = remote.cleanup_complete;
      })
  keeps_end : is_terminal_outcome remote.start_outcome ≡ false → Ended i → OutcomeOf remote i i
  follows :
      is_terminal_outcome remote.start_outcome ≡ false
      → is_terminal_outcome i.platform_start_outcome ≡ false
      → OutcomeOf remote i (record i {
        platform_vpn_running = remote.running;
        platform_vpn_starting = not remote.running && remote.starting;
        platform_vpn_cleanup_complete = false;
        platform_start_outcome =
            if remote.running && is_pending i.platform_start_outcome
            then PlatformStartOutcome.connected
            else i.platform_start_outcome;
      })

pub merge_outcome-OutcomeOf :
    (remote : PlatformVpnState) (i : Inner) → OutcomeOf remote i (merge_outcome remote i)
unfolding merge_outcome
merge_outcome-OutcomeOf remote i = elim (Bool-cases (is_terminal_outcome remote.start_outcome)) [
  | inl t ↦ rw t (follows_end t)
  | inr f ↦ rw f (elim (Bool-cases (is_terminal_outcome i.platform_start_outcome)) [
    | inl t ↦ rw t (keeps_end f t)
    | inr g ↦ rw g (follows f g)
  ])
]

OutcomeOf-attempt :
    {remote : PlatformVpnState} {i j : Inner}
    → OutcomeOf remote i j
    → j.platform_start_attempt_id ≡ i.platform_start_attempt_id
OutcomeOf-attempt (follows_end t) = refl
OutcomeOf-attempt (keeps_end f t) = refl
OutcomeOf-attempt (follows f g) = refl

OutcomeOf-stop :
    {remote : PlatformVpnState} {i j : Inner}
    → OutcomeOf remote i j
    → j.platform_stop_requested ≡ i.platform_stop_requested
OutcomeOf-stop (follows_end t) = refl
OutcomeOf-stop (keeps_end f t) = refl
OutcomeOf-stop (follows f g) = refl

OutcomeOf-Ended :
    {remote : PlatformVpnState} {i j : Inner} → OutcomeOf remote i j → Ended i → Ended j
OutcomeOf-Ended (follows_end t) e = t
OutcomeOf-Ended (keeps_end f t) e = e
OutcomeOf-Ended (follows f g) e = ground arith

open_outcome :
    (b : Bool) (o : PlatformStartOutcome)
    → is_terminal_outcome o ≡ false
    → is_terminal_outcome (if b then PlatformStartOutcome.connected else o) ≡ false
open_outcome true o h = refl
open_outcome false o h = h

-- The state before matters only when it has ended and the other process has not.
OutcomeOf-Settled :
    {remote : PlatformVpnState} {i j : Inner}
    → OutcomeOf remote i j
    → (is_terminal_outcome remote.start_outcome ≡ false → Ended i → Settled i)
    → Settled j
OutcomeOf-Settled {remote} (follows_end t) s = record {
  stopped = λ e. refl;
  ended = λ c. terminal_over remote.start_outcome t;
}
OutcomeOf-Settled (keeps_end f t) s = s f t
OutcomeOf-Settled {remote} {i} (follows f g) s = record {
  stopped = λ e.
      let n =
        open_outcome (remote.running && is_pending i.platform_start_outcome)
          i.platform_start_outcome g in
      ground arith;
  ended = λ c. ground arith;
}

-- Once an attempt has ended, its outcome is not pending.
ended_not_pending : (o : PlatformStartOutcome) → is_terminal_outcome o ≡ true → is_pending o ≡ false
ended_not_pending o h = ground arith

pub fail_pending-Ended :
    (running : Bool) (remote : PlatformVpnState) (i : Inner)
    → Ended i
    → Ended (fail_pending running remote i)
unfolding fail_pending
fail_pending-Ended running remote i e =
    let n = ended_not_pending i.platform_start_outcome e in ground arith

failed_over :
    (o : PlatformStartOutcome) (b : Bool)
    → is_over o ≡ true
    → is_over (if b then PlatformStartOutcome.failed else o) ≡ true
failed_over o true h = refl
failed_over o false h = h

fail_pending-stopped :
    (b c : Bool) (o : PlatformStartOutcome) (running vpn_running : Bool)
    → (running ≡ false → vpn_running ≡ false)
    → (is_terminal_outcome o ≡ true → vpn_running ≡ false)
    → is_terminal_outcome (if not running && b && c then PlatformStartOutcome.failed else o) ≡ true
    → vpn_running ≡ false
fail_pending-stopped b c o true v h s e = s e
fail_pending-stopped b c o false v h s e = h refl

pub fail_pending-Settled :
    (running : Bool) (remote : PlatformVpnState) (i : Inner)
    → (running ≡ false → i.platform_vpn_running ≡ false)
    → Settled i
    → Settled (fail_pending running remote i)
unfolding fail_pending
fail_pending-Settled running remote i h s = record {
  stopped =
      fail_pending-stopped (is_pending i.platform_start_outcome)
        (is_failed remote.lifecycle || is_present remote.last_error) i.platform_start_outcome
        running i.platform_vpn_running h s.stopped;
  ended = λ c. failed_over i.platform_start_outcome _ (s.ended c);
}

-- The tests of `is_running` name the running flag.
is_running-stopped :
    (remote : PlatformVpnState) (i j : Inner)
    → OutcomeOf remote i j
    → (k : Inner) → k.platform_vpn_running ≡ j.platform_vpn_running
    → is_running remote k ≡ false
    → j.platform_vpn_running ≡ false
is_running-stopped remote i _ (follows_end t) k e h = refl
is_running-stopped remote i _ (keeps_end f g) k e h = ground arith
is_running-stopped remote i _ (follows f g) k e h = ground arith

module _ (env : Env) (is_ui : Bool) (remote : PlatformVpnState) (i : Inner) where
  taken :
      OutcomeOf remote
        (merge_intent is_ui remote i)
        (merge_outcome remote (merge_intent is_ui remote i))
  taken = merge_outcome-OutcomeOf remote (merge_intent is_ui remote i)

  pub merge-attempt :
      (merge env is_ui remote i).platform_start_attempt_id ≡ i.platform_start_attempt_id
  unfolding merge merge_snapshot fail_pending merge_transaction merge_attachment merge_intent
      release_leases
  merge-attempt = OutcomeOf-attempt taken

  -- A stop intent that either side has is kept.
  pub merge-stop :
      (merge env is_ui remote i).platform_stop_requested
      ≡ (i.platform_stop_requested || remote.stop_requested)
  unfolding merge merge_snapshot fail_pending merge_transaction merge_attachment merge_intent
      release_leases merge_outcome
  merge-stop = OutcomeOf-stop taken

  pub merge-Ended : Ended i → Ended (merge env is_ui remote i)
  unfolding merge merge_snapshot merge_transaction merge_attachment merge_intent release_leases
  merge-Ended e =
      fail_pending-Ended _ remote (merge_transaction is_ui remote i) (OutcomeOf-Ended taken e)

  pub merge-Settled :
      (is_terminal_outcome remote.start_outcome ≡ false → Ended i → Settled i)
      → Settled (merge env is_ui remote i)
  unfolding merge merge_snapshot merge_transaction merge_attachment merge_intent release_leases
  merge-Settled h =
      let j = merge_transaction is_ui remote i in
      let m : is_terminal_outcome remote.start_outcome ≡ false
          → Ended i
          → Settled (merge_intent is_ui remote i) =
        λ f t. record { stopped = (h f t).stopped; ended = (h f t).ended } in
      let t : Settled (merge_outcome remote (merge_intent is_ui remote i)) =
        OutcomeOf-Settled taken m in
      let u : Settled j = record { stopped = t.stopped; ended = t.ended } in
      let v : Settled (fail_pending (is_running remote j) remote j) =
        fail_pending-Settled (is_running remote j) remote j
          (is_running-stopped remote (merge_intent is_ui remote i) _ taken j refl) u in
      record { stopped = v.stopped; ended = v.ended }
