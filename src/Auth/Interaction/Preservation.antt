-- ===== src/Auth/Interaction/Preservation.antt =====
-- Every operation keeps the invariant.
use h_openconnect.Base.{
  ℕ, ◌+◌, ◌-◌, ◌^◌, ◌<◌, ◌≡◌, ◌≢◌, refl, ap, ◌∙◌, inl, inr, arith, Bool, true, false, Option, none,
  some, [], ◌∷◌, ◌++◌, if◌then◌else◌, Bool-cases, eq_false, if_true, if_false, eq→==,
}
use h_openconnect.Auth.Form.{AuthChallenge, AuthChallengeReply}
use h_openconnect.Auth.Interaction.{
  PendingSlot, Inner, World, new, first_reply, clear_if, cancelled_reply, send, set_pending,
  cancel_slot, cancel_taken, abort, begin_session, submit_slot, submit, saturating_suc, wait_start,
  is_stale, enter, poll_reply, poll, holds_sender,
}
use h_openconnect.Auth.Interaction.Channels.{id_of, is_received_of_id}
use h_openconnect.Auth.Interaction.Invariant.{Coherent, Holds, release, occupy, receive}

abbrev pub IsCoherent : World → Type 0
IsCoherent w = Coherent w.inner.pending w.inner.next_id w.queue w.receivers w.channels

-- An aborted session has no challenge pending.
pub record Inv (w : World) : Type 0 where
  pub quiet : w.inner.aborted ≡ true → w.inner.pending ≡ none
  pub coherent : IsCoherent w

pub new-Inv : Inv new
unfolding new
new-Inv = record {
  quiet = λ h. refl;
  coherent = record {
    held = λ p h. cc;
    served = λ c i h. cc;
    matched = λ c i r h. cc;
    newest = λ p c i h. cc;
    known = λ c i h. cc;
    idle = λ p h. refl;
    unqueued = λ c h. refl;
  };
}

-- The worker of the slot waits, so that the send succeeds.
pub send_held :
    (p : PendingSlot) (r : AuthChallengeReply) (w : World)
    → id_of p.reply_tx w.receivers ≡ some p.challenge.id
    → send p.reply_tx r (set_pending none w)
      ≡ (true, record (set_pending none w) { queue = w.queue ++ ((p.reply_tx, r) ∷ []) })
unfolding send
send_held p r w h = rw (is_received_of_id p.reply_tx p.challenge.id w.receivers h)

pub cancel_slot-Coherent :
    (p : Option PendingSlot) (w : World)
    → w.inner.pending ≡ p
    → Coherent p w.inner.next_id w.queue w.receivers w.channels
    → IsCoherent (cancel_slot p w) × ((cancel_slot p w).inner ≡ record (w.inner) { pending = none })
cancel_slot-Coherent none w e k = (rw e k, (λ i. record (w.inner) { pending = e i }))
cancel_slot-Coherent (some p) w e k =
    rw (send_held p (cancelled_reply p.challenge.id) w (k.held p refl), cancel_slot)
      (release p (cancelled_reply p.challenge.id) refl k, refl)

-- Afterwards the slot is empty, and the flag and the counters are as before.
pub cancel_taken-Coherent :
    (w : World)
    → IsCoherent w
    → IsCoherent (cancel_taken w) × ((cancel_taken w).inner ≡ record (w.inner) { pending = none })
unfolding cancel_taken
cancel_taken-Coherent w k = cancel_slot-Coherent w.inner.pending w refl k

pub abort-Inv : (w : World) → Inv w → Inv (abort w)
unfolding abort
abort-Inv w v =
    let w' = record w { inner = record (w.inner) { aborted = true } } in
    let c = cancel_taken-Coherent w' v.coherent in
    record { quiet = λ h. ap (λ (x : Inner). x.pending) c.1; coherent = c.0 }

pub begin_session-Inv : (w : World) → Inv w → Inv (begin_session w)
unfolding begin_session
begin_session-Inv w v =
    let w' = record w { inner = record (w.inner) { aborted = false; round = 0 } } in
    let c = cancel_taken-Coherent w' v.coherent in
    record { quiet = λ h. ap (λ (x : Inner). x.pending) c.1; coherent = c.0 }

pub slot-Coherent :
    (p : Option PendingSlot) (w : World)
    → w.inner.pending ≡ p
    → Inv w
    → Coherent p w.inner.next_id w.queue w.receivers w.channels
slot-Coherent p w e v = rw (← e) v.coherent

submit_slot-Inv :
    (p : Option PendingSlot) (reply : AuthChallengeReply) (w : World)
    → w.inner.pending ≡ p
    → Inv w
    → Inv (submit_slot p reply w).1
submit_slot-Inv none reply w e v = v
submit_slot-Inv (some p) reply w e v = elim (Bool-cases (is_stale reply p)) [
  | inl t ↦ rw t v
  | inr t ↦
      let k = slot-Coherent (some p) w e v in
      let r = record reply { id = p.challenge.id } in
      rw (t, send_held p r w (k.held p refl))
        (record { quiet = λ h. refl; coherent = release p r refl k })
]

pub submit-Inv : (reply : AuthChallengeReply) (w : World) → Inv w → Inv (submit reply w).1
unfolding submit
submit-Inv reply w v = submit_slot-Inv w.inner.pending reply w refl v

-- The id counter has not reached its last value.
abbrev pub last_id : ℕ
last_id = 2 ^ 64 - 1

saturating_suc_lem : (n : ℕ) → n < last_id → saturating_suc 64 n ≡ n + 1
saturating_suc_lem n h = omega arith

enter-Inv :
    (a : AuthChallenge) (w : World)
    → w.inner.next_id < last_id
    → w.inner.aborted ≡ false
    → Inv w
    → Inv (enter a w)
enter-Inv a w h f v =
    let c = cancel_taken-Coherent w v.coherent in
    let u = cancel_taken w in
    let e : u.inner.pending ≡ none = ap (λ (x : Inner). x.pending) c.1 in
    let m : u.inner.next_id ≡ w.inner.next_id = ap (λ (x : Inner). x.next_id) c.1 in
    let g : u.inner.aborted ≡ false = ap (λ (x : Inner). x.aborted) c.1 ∙ f in
    let k : Coherent none u.inner.next_id u.queue u.receivers u.channels = rw (← e) c.0 in
    let s = saturating_suc_lem u.inner.next_id (omega (arith, m)) in
    record {
      quiet = λ t. cc;
      coherent = rw s (
          occupy (record a { id = u.inner.next_id + 1; round = saturating_suc 32 u.inner.round })
            refl k);
    }

Inv-if :
    {A : Type 0} (b : Bool) (x y : A × World)
    → (b ≡ true → Inv x.1)
    → (b ≡ false → Inv y.1)
    → Inv (if b then x else y).1
Inv-if true x y t f = t refl
Inv-if false x y t f = f refl

pub wait_start-Inv :
    (a : AuthChallenge) (w : World) → w.inner.next_id < last_id → Inv w → Inv (wait_start a w).1
unfolding wait_start
wait_start-Inv a w h v =
    Inv-if w.inner.aborted (some (cancelled_reply 0), w) (none, enter a w) (λ t. v)
      (λ f. enter-Inv a w h f v)

clear_if-none : (o : Option PendingSlot) (id : ℕ) → o ≡ none → clear_if o id ≡ none
clear_if-none none id e = refl
clear_if-none (some p) id e = cc

Holds→holds_sender :
    (o : Option PendingSlot) (c : ℕ) → Holds o c → (holds_sender o c ≡ true) × (o ≢ none)
Holds→holds_sender none c h = absurd h
Holds→holds_sender (some p) c h = (eq→== p.reply_tx c h, λ e. cc)

-- A worker without a reply has its challenge pending in a session that is not aborted.
pub waiting_facts :
    (c i : ℕ) (w : World)
    → first_reply c w.queue ≡ none
    → id_of c w.receivers ≡ some i
    → Inv w
    → (holds_sender w.inner.pending c ≡ true) × (w.inner.aborted ≡ false)
waiting_facts c i w e h v = elim (v.coherent.served c i h) [
  | inr a ↦ absurd (a e)
  | inl s ↦
      let f = Holds→holds_sender w.inner.pending c s in
      (f.0, eq_false w.inner.aborted (λ t. f.1 (v.quiet t)))
]

pub poll_waits :
    (c i : ℕ) (w : World)
    → first_reply c w.queue ≡ none
    → id_of c w.receivers ≡ some i
    → Inv w
    → poll_reply none c i w ≡ (none, w)
poll_waits c i w e h v = let f = waiting_facts c i w e h v in if_true _ _ _ f.0 ∙ if_false _ _ _ f.1

poll_reply-Inv :
    (o : Option AuthChallengeReply) (c i : ℕ) (w : World)
    → first_reply c w.queue ≡ o
    → id_of c w.receivers ≡ some i
    → Inv w
    → Inv (poll_reply o c i w).1
poll_reply-Inv (some r) c i w e h v = record {
  quiet = λ t. clear_if-none w.inner.pending r.id (v.quiet t);
  coherent = receive w.inner.pending c i r h e v.coherent;
}
poll_reply-Inv none c i w e h v = rw (poll_waits c i w e h v) v

pub poll-Inv : (c i : ℕ) (w : World) → id_of c w.receivers ≡ some i → Inv w → Inv (poll c i w).1
unfolding poll
poll-Inv c i w h v = poll_reply-Inv (first_reply c w.queue) c i w refl h v
