-- ===== src/Engine/Invariant.antt =====
-- `Settled` and the changes that the methods of an engine make to its state,
-- crates/hopenconnect_core/src/engine/platform.rs.
pub mod Methods
pub mod Owners
pub mod Bound
pub mod Stopped
pub mod Released
use h_openconnect.Base.{
  ℕ, ◌≡◌, refl, sym, ap, ◌∙◌, arith, Bool, true, false, ◌&&◌, ◌||◌, not, Option, none, some, Text,
  if◌then◌else◌, Bool-cases, inl, inr,
}
use h_openconnect.Model.Lifecycle.{is_active}
use h_openconnect.Bridge.State.{PlatformStartOutcome}
use h_openconnect.Owner.Record.{ProcessIdentity, PlatformVpnOwnerLeaseRecord}
use h_openconnect.Engine.State.{Inner, Env}
use h_openconnect.Engine.Diagnostics.{push_diag}
use h_openconnect.Engine.Publish.{advance_revision}
use h_openconnect.Engine.Envelope.Merge.{
  is_terminal_outcome, is_pending, is_failed_outcome, is_connected,
}
use h_openconnect.Engine.Envelope.Rules.{Ended, Settled, is_over, terminal_over}
use h_openconnect.Engine.Envelope.Safety.{line-Settled}
use h_openconnect.Engine.Attempt.{
  settle, cancelled_start, stop_requested, start_flag, apply_platform_vpn_running,
  apply_platform_vpn_failed, expired_start, is_live,
}
use h_openconnect.Engine.Start.{started, failed_start}
use h_openconnect.Engine.Extension.{reopened, attached_state, cleaned, may_be_cleaned}
use h_openconnect.Bridge.Envelope.{is_present}
use h_openconnect.Engine.Recovery.{stop_claimed, fence, owner_lost}
use h_openconnect.Engine.Cleanup.{released_barrier}

pub not_terminal :
    (o : PlatformStartOutcome)
    → is_terminal_outcome o ≡ false
    → is_terminal_outcome (settle PlatformStartOutcome.connected o) ≡ true
    → true ≡ false
not_terminal o n h = ground arith

pub revision-Settled : (env : Env) (i : Inner) → Settled i → Settled (advance_revision env i)
revision-Settled env i s = record { stopped = s.stopped; ended = s.ended }

-- Settling leaves a start that is over as it is.
pub settle-over : (x o : PlatformStartOutcome) → is_over o ≡ true → is_over (settle x o) ≡ true
settle-over x o h = ground arith

pub cancelled-Settled : (env : Env) (a : Text) (i : Inner) → Settled (cancelled_start env a i)
unfolding cancelled_start push_diag
cancelled-Settled env a i = record { stopped = λ h. refl; ended = λ h. refl }

pub requested-Settled :
    (env : Env) (a : Text) (i : Inner) → Settled i → Settled (stop_requested env a i)
unfolding push_diag
requested-Settled env a i s = record { stopped = s.stopped; ended = s.ended }

pub flag-Settled : (b : Bool) (i : Inner) → Settled i → Settled (start_flag b i)
flag-Settled true i s = record { stopped = λ h. refl; ended = s.ended }
flag-Settled false i s = record { stopped = s.stopped; ended = s.ended }

pub failed-Settled :
    (env : Env) (t : Text) (i : Inner) → Settled i → Settled (apply_platform_vpn_failed env t i)
unfolding apply_platform_vpn_failed push_diag
failed-Settled env t i s = record {
  stopped = λ h. refl;
  ended = λ c. settle-over PlatformStartOutcome.failed i.platform_start_outcome (s.ended c);
}

pub expired-Settled :
    (i : Inner) → i.platform_vpn_running ≡ false → Settled i → Settled (expired_start i)
expired-Settled i r s = record {
  stopped = λ h. r;
  ended = λ c. settle-over PlatformStartOutcome.failed i.platform_start_outcome (s.ended c);
}

down-Settled :
    (env : Env) (i : Inner) → Settled i → Settled (apply_platform_vpn_running env false i)
unfolding apply_platform_vpn_running
down-Settled env i s = elim (Bool-cases (is_live i.snapshot.lifecycle)) [
  | inl t ↦ rw t (record {
    stopped = λ h. refl;
    ended = λ c. settle-over PlatformStartOutcome.cancelled i.platform_start_outcome (s.ended c);
  })
  | inr t ↦ rw t (record {
    stopped = λ h. refl;
    ended = λ c. settle-over PlatformStartOutcome.cancelled i.platform_start_outcome (s.ended c);
  })
]

pub started-Settled :
    (env : Env) (a : Text) (l : PlatformVpnOwnerLeaseRecord) (i : Inner)
    → Settled (started env a l i)
unfolding started push_diag
started-Settled env a l i = record { stopped = λ h. refl; ended = λ h. cc }

pub failed_start-Settled :
    (env : Env) (b : Bool) (t : Text) (i : Inner) → Settled (failed_start env b t i)
unfolding failed_start apply_platform_vpn_failed push_diag
failed_start-Settled env b t i = record { stopped = λ h. refl; ended = λ h. refl }

pub reopened-Settled : (env : Env) (a : Text) (i : Inner) → Settled i → Settled (reopened env a i)
unfolding reopened push_diag
reopened-Settled env a i s =
    elim (Bool-cases (is_connected i.platform_start_outcome && not (is_present i.running_native))) [
      | inl t ↦ rw t (record { stopped = λ h. refl; ended = λ h. cc })
      | inr t ↦ rw t s
    ]

-- An attachment that is new takes the mark of the cleanup away.
pub attached-Settled :
    (env : Env) (a : Text) (o : ProcessIdentity) (i : Inner)
    → Settled i
    → Settled (attached_state env a o i)
unfolding attached_state push_diag
attached-Settled env a o i s = elim (Bool-cases (not i.platform_extension_attached)) [
  | inl t ↦ rw t (record { stopped = s.stopped; ended = λ h. cc })
  | inr t ↦
      rw t
        (elim (Bool-cases (
          is_pending i.platform_start_outcome
          && i.platform_vpn_starting
          && not i.platform_vpn_running)) [
            | inl u ↦ rw u (record { stopped = s.stopped; ended = s.ended })
            | inr u ↦ rw u (record { stopped = s.stopped; ended = s.ended })
          ])
]

cleanable :
    (a : Text) (i : Inner) → may_be_cleaned a i ≡ true → (i.platform_vpn_running ≡ false) × Ended i
unfolding may_be_cleaned
cleanable a i h = (ground arith, ground arith)

pub cleaned-Settled :
    (env : Env) (a : Text) (i : Inner) → may_be_cleaned a i ≡ true → Settled (cleaned env a i)
unfolding cleaned push_diag
cleaned-Settled env a i h =
    let c = cleanable a i h in
    record { stopped = λ e. c.0; ended = λ e. terminal_over i.platform_start_outcome c.1 }

pub claimed-Settled :
    (env : Env) (a : Text) (i : Inner) → Settled i → Settled (stop_claimed env a i)
unfolding stop_claimed push_diag
claimed-Settled env a i s = elim (Bool-cases (is_pending i.platform_start_outcome)) [
  | inl t ↦ rw t (record { stopped = λ h. refl; ended = λ h. refl })
  | inr t ↦ rw t (record { stopped = s.stopped; ended = s.ended })
]

pub fence-Settled : (epoch : ℕ) (a : Text) (i : Inner) → Settled i → Settled (fence epoch a i)
unfolding fence
fence-Settled epoch a i s = record { stopped = s.stopped; ended = s.ended }

-- An attempt that is live can be shown as running.
pub up-Settled :
    (env : Env) (i : Inner)
    → is_terminal_outcome i.platform_start_outcome ≡ false
    → Settled i
    → Settled (apply_platform_vpn_running env true i)
unfolding apply_platform_vpn_running push_diag
up-Settled env i n s = elim (Bool-cases (is_active i.snapshot.lifecycle)) [
  | inl t ↦ rw t (record {
    stopped = λ h. not_terminal i.platform_start_outcome n h;
    ended = λ c. settle-over PlatformStartOutcome.connected i.platform_start_outcome (s.ended c);
  })
  | inr t ↦ rw t (record {
    stopped = λ h. not_terminal i.platform_start_outcome n h;
    ended = λ c. settle-over PlatformStartOutcome.connected i.platform_start_outcome (s.ended c);
  })
]

pub lost-Settled : (env : Env) (i : Inner) → Settled (owner_lost env i)
unfolding owner_lost push_diag
lost-Settled env i = record { stopped = λ h. refl; ended = λ h. refl }

pub released-Settled : (env : Env) (a : Text) (i : Inner) → Settled (released_barrier env a i)
unfolding released_barrier push_diag
released-Settled env a i = elim (Bool-cases (is_failed_outcome i.platform_start_outcome)) [
  | inl t ↦
      rw t (record { stopped = λ h. refl; ended = λ h. failed_over i.platform_start_outcome t })
  | inr t ↦ rw t (record { stopped = λ h. refl; ended = λ h. refl })
]
  where
    failed_over : (o : PlatformStartOutcome) → is_failed_outcome o ≡ true → is_over o ≡ true
    failed_over o h = ground arith
