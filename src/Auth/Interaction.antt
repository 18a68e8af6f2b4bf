-- ===== src/Auth/Interaction.antt =====
-- `AuthInteraction` of crates/hopenconnect_core/src/auth_bridge.rs: the state behind the lock, and
-- the channels on which workers wait. A channel is a number; it has its receiver as long as its worker
-- waits. No thread panics while it holds the lock, so the lock is never poisoned.
pub mod Channels
pub mod Invariant
pub mod Preservation
pub mod Delivery
use Prim.Native.Nat.{min}
use h_openconnect.Base.{
  ℕ, ◌+◌, ◌-◌, ◌^◌, ◌==◌, ltb, Bool, true, false, ◌&&◌, ◌||◌, not, Option, none, some, List, [],
  ◌∷◌, ◌++◌, if◌then◌else◌, any,
}
use h_openconnect.Auth.Form.{AuthChallenge, AuthChallengeReply}

pub record PendingSlot : Type 0 where
  pub challenge : AuthChallenge
  pub reply_tx : ℕ

pub record Inner : Type 0 where
  pub next_id : ℕ  -- u64
  pub round : ℕ  -- u32
  pub pending : Option PendingSlot
  pub aborted : Bool

-- `queue` has the replies sent and not received, `receivers` the waiting workers with the id of the
-- challenge that each of them returned from the lock with, `channels` the channels made so far.
pub record World : Type 0 where
  pub inner : Inner
  pub queue : List (ℕ × AuthChallengeReply)
  pub receivers : List (ℕ × ℕ)
  pub channels : ℕ

unfoldable pub new : World
new = record {
  inner = record { next_id = 0; round = 0; pending = none; aborted = false };
  queue = [];
  receivers = [];
  channels = 0;
}

abbrev pub cancelled_reply : ℕ → AuthChallengeReply
cancelled_reply id = record { id = id; values = []; cancelled = true }

abbrev pub is_received : ℕ → List (ℕ × ℕ) → Bool
is_received c [] = false
is_received c ((d, i) ∷ rs) = d == c || is_received c rs

-- `reply_tx.send(reply)`: whether it succeeds, and the world after it.
unfoldable pub send : ℕ → AuthChallengeReply → World → Bool × World
send c r w =
    if is_received c w.receivers
    then (true, record w { queue = w.queue ++ ((c, r) ∷ []) })
    else (false, w)

abbrev pub set_pending : Option PendingSlot → World → World
set_pending p w = record w { inner = record (w.inner) { pending = p } }

-- `if let Some(pending) = guard.pending.take() { let _ = pending.reply_tx.send(cancelled) }`
abbrev pub cancel_slot : Option PendingSlot → World → World
cancel_slot none w = w
cancel_slot (some p) w = (send p.reply_tx (cancelled_reply p.challenge.id) (set_pending none w)).1

unfoldable pub cancel_taken : World → World
unfolding send
cancel_taken w = cancel_slot w.inner.pending w

unfoldable pub abort : World → World
abort w = cancel_taken (record w { inner = record (w.inner) { aborted = true } })

unfoldable pub begin_session : World → World
begin_session w =
    cancel_taken (record w { inner = record (w.inner) { aborted = false; round = 0 } })

pub data SubmitError : Type 0 where
  no_pending stale_id worker_gone : SubmitError

abbrev submit_error : Bool → Option SubmitError
submit_error true = none
submit_error false = some worker_gone

-- The reply names another challenge than the pending one; the id 0 names none.
abbrev pub is_stale : AuthChallengeReply → PendingSlot → Bool
is_stale reply p = not (reply.id == 0) && not (reply.id == p.challenge.id)

abbrev submit_slot : Option PendingSlot → AuthChallengeReply → World → Option SubmitError × World
submit_slot none reply w = (some no_pending, w)
submit_slot (some p) reply w =
    if is_stale reply p
    then (some stale_id, w)
    else (let (sent, w') =
          send p.reply_tx (record reply { id = p.challenge.id }) (set_pending none w) in
        (submit_error sent, w'))

unfoldable pub submit : AuthChallengeReply → World → Option SubmitError × World
submit reply w = submit_slot w.inner.pending reply w

abbrev pending_id : Option PendingSlot → ℕ
pending_id none = 0
pending_id (some p) = p.challenge.id

unfoldable pub cancel_pending : World → Option SubmitError × World
unfolding submit
cancel_pending w = submit (cancelled_reply (pending_id w.inner.pending)) w

-- `saturating_add(1)` at a width.
abbrev pub saturating_suc : ℕ → ℕ → ℕ
saturating_suc width n = min (n + 1) (2 ^ width - 1)

-- The part of `wait_for_reply` under the first lock, when the session is not aborted.
abbrev pub enter : AuthChallenge → World → World
enter challenge w =
    let v = cancel_taken w in
    let id = saturating_suc 64 v.inner.next_id in
    let round = saturating_suc 32 v.inner.round in
    record v {
      inner = record (v.inner) {
        next_id = id;
        round = round;
        pending = some (record {
          challenge = record challenge { id = id; round = round };
          reply_tx = v.channels;
        });
      };
      receivers = (v.channels, id) ∷ v.receivers;
      channels = v.channels + 1;
    }

-- A reply at once if the session is aborted; else the worker waits.
unfoldable pub wait_start : AuthChallenge → World → Option AuthChallengeReply × World
wait_start challenge w =
    if w.inner.aborted then (some (cancelled_reply 0), w) else (none, enter challenge w)

abbrev pub first_reply : ℕ → List (ℕ × AuthChallengeReply) → Option AuthChallengeReply
first_reply c [] = none
first_reply c ((d, r) ∷ q) = let rest = first_reply c q in if d == c then some r else rest

abbrev pub without_first : ℕ → List (ℕ × AuthChallengeReply) → List (ℕ × AuthChallengeReply)
without_first c [] = []
without_first c ((d, r) ∷ q) = let rest = (d, r) ∷ without_first c q in if d == c then q else rest

-- A channel has one receiver, so that no entry for it is left.
abbrev pub without_receiver : ℕ → List (ℕ × ℕ) → List (ℕ × ℕ)
without_receiver c [] = []
without_receiver c ((d, i) ∷ rs) =
    let rest = without_receiver c rs in if d == c then rest else (d, i) ∷ rest

-- The worker returns: its receiver is dropped.
abbrev pub leave : ℕ → World → World
leave c w = record w { receivers = without_receiver c w.receivers }

abbrev clear_if : Option PendingSlot → ℕ → Option PendingSlot
clear_if none id = none
clear_if (some p) id = if p.challenge.id == id then none else some p

abbrev pub holds_sender : Option PendingSlot → ℕ → Bool
holds_sender none c = false
holds_sender (some p) c = p.reply_tx == c

abbrev poll_reply : Option AuthChallengeReply → ℕ → ℕ → World → Option AuthChallengeReply × World
poll_reply (some r) c id w = (
  some r,
  leave c
      (set_pending (clear_if w.inner.pending r.id) (record w { queue = without_first c w.queue })),
)
poll_reply none c id w =
    if holds_sender w.inner.pending c
    then (if w.inner.aborted
        then (some (cancelled_reply id), leave c (set_pending none w))
        else (none, w))
    else (some (cancelled_reply id), leave c (set_pending none w))

-- One round of the loop of `wait_for_reply`: a reply, a time-out, or a channel whose sender is gone.
unfoldable pub poll : ℕ → ℕ → World → Option AuthChallengeReply × World
poll c id w = poll_reply (first_reply c w.queue) c id w
