-- ===== src/Auth/Interaction/Delivery.antt =====
-- The interaction as a step relation: any thread may take the lock next.
use h_openconnect.Base.{
  ℕ, ◌<◌, ◌≡◌, ◌≢◌, refl, sym, ap, ◌∙◌, inl, inr, arith, true, false, Option, none, some, [], ◌∷◌,
  ◌++◌, Bool-cases, eq→==,
}
use h_openconnect.Auth.Form.{AuthChallenge, AuthChallengeReply}
use h_openconnect.Auth.Interaction.{
  PendingSlot, Inner, World, new, first_reply, cancelled_reply, abort, begin_session, SubmitError,
  submit_slot, submit, cancel_pending, wait_start, poll_reply, poll, is_stale, set_pending,
}
use h_openconnect.Auth.Interaction.Channels.{id_of, first_reply-append}
use h_openconnect.Auth.Interaction.Invariant.{Holds}
use h_openconnect.Auth.Interaction.Preservation.{
  Inv, new-Inv, abort-Inv, begin_session-Inv, submit-Inv, wait_start-Inv, poll-Inv, last_id,
  send_held, poll_waits, cancel_taken-Coherent,
}

-- A worker polls only its own channel, and ids do not run out.
pub data Step : World → World → Type 0 where
  aborts : (w : World) → Step w (abort w)
  begins : (w : World) → Step w (begin_session w)
  submits : (reply : AuthChallengeReply) (w : World) → Step w (submit reply w).1
  cancels : (w : World) → Step w (cancel_pending w).1
  waits : (a : AuthChallenge) (w : World) → w.inner.next_id < last_id → Step w (wait_start a w).1
  polls : (c i : ℕ) (w : World) → id_of c w.receivers ≡ some i → Step w (poll c i w).1

pub data Reach : World → Type 0 where
  start : Reach new
  next : {w w' : World} → Reach w → Step w w' → Reach w'

Step-Inv : {w w' : World} → Step w w' → Inv w → Inv w'
unfolding cancel_pending
Step-Inv (aborts w) v = abort-Inv w v
Step-Inv (begins w) v = begin_session-Inv w v
Step-Inv (submits reply w) v = submit-Inv reply w v
Step-Inv (cancels w) v = submit-Inv (cancelled_reply _) w v
Step-Inv (waits a w h) v = wait_start-Inv a w h v
Step-Inv (polls c i w h) v = poll-Inv c i w h v

pub Reach-Inv : {w : World} → Reach w → Inv w
Reach-Inv start = new-Inv
Reach-Inv (next r s) = Step-Inv s (Reach-Inv r)

poll_reply-own :
    (o : Option AuthChallengeReply) (c i : ℕ) (w : World) (r : AuthChallengeReply)
    → first_reply c w.queue ≡ o
    → id_of c w.receivers ≡ some i
    → Inv w
    → (poll_reply o c i w).0 ≡ some r
    → r.id ≡ i
poll_reply-own (some x) c i w r e h v g =
    let s : x ≡ r = ground arith in v.coherent.matched c i r h (e ∙ g)
poll_reply-own none c i w r e h v g =
    let n : (poll_reply none c i w).0 ≡ none =
      ap (λ (x : Option AuthChallengeReply × World). x.0) (poll_waits c i w e h v) in
    cc (sym n ∙ g)

-- Whatever the threads have done, a worker that is released gets a reply with the id of its own
-- challenge.
pub poll-own_id :
    {w : World} (c i : ℕ) (r : AuthChallengeReply)
    → Reach w
    → id_of c w.receivers ≡ some i
    → (poll c i w).0 ≡ some r
    → r.id ≡ i
unfolding poll
poll-own_id {w} c i r reach h g =
    poll_reply-own (first_reply c w.queue) c i w r refl h (Reach-Inv reach) g

poll_reply-ne-none :
    (o : Option AuthChallengeReply) (c i : ℕ) (w : World) → o ≢ none → (poll_reply o c i w).0 ≢ none
poll_reply-ne-none none c i w n = absurd (n refl)
poll_reply-ne-none (some r) c i w n = λ e. cc

abort-pending : (w : World) → Inv w → (abort w).inner.pending ≡ none
unfolding abort
abort-pending w v =
    let w' = record w { inner = record (w.inner) { aborted = true } } in
    ap (λ (x : Inner). x.pending) (cancel_taken-Coherent w' v.coherent).1

Holds-nothing : (o : Option PendingSlot) (c : ℕ) → o ≡ none → ¬ Holds o c
Holds-nothing none c e h = h
Holds-nothing (some p) c e h = cc

-- After an abort, every worker that waits is released by its next poll.
pub abort_releases :
    {w : World} (c i : ℕ)
    → Reach w
    → id_of c (abort w).receivers ≡ some i
    → (poll c i (abort w)).0 ≢ none
unfolding poll
abort_releases {w} c i reach h =
    let v = Reach-Inv reach in
    elim ((abort-Inv w v).coherent.served c i h) [
      | inl s ↦ absurd (Holds-nothing (abort w).inner.pending c (abort-pending w v) s)
      | inr a ↦ poll_reply-ne-none (first_reply c (abort w).queue) c i (abort w) a
    ]

-- The reply as the worker gets it, and the world with it under way.
abbrev addressed : PendingSlot → AuthChallengeReply → AuthChallengeReply
addressed p reply = record reply { id = p.challenge.id }

abbrev under_way : PendingSlot → AuthChallengeReply → World → World
under_way p reply w = record (set_pending none w) {
  queue = w.queue ++ ((p.reply_tx, addressed p reply) ∷ []);
}

submit_slot_accepted :
    (p : PendingSlot) (reply : AuthChallengeReply) (w : World)
    → id_of p.reply_tx w.receivers ≡ some p.challenge.id
    → is_stale reply p ≡ false
    → submit_slot (some p) reply w ≡ (none, under_way p reply w)
submit_slot_accepted p reply w k h = rw (h, send_held p (addressed p reply) w k)

submit_accepted :
    (p : PendingSlot) (reply : AuthChallengeReply) (w : World)
    → w.inner.pending ≡ some p
    → Inv w
    → is_stale reply p ≡ false
    → submit reply w ≡ (none, under_way p reply w)
unfolding submit
submit_accepted p reply w e v h =
    ap (λ (o : Option PendingSlot). submit_slot o reply w) e
    ∙ submit_slot_accepted p reply w (v.coherent.held p e) h

poll-under_way :
    (p : PendingSlot) (reply : AuthChallengeReply) (w : World)
    → first_reply p.reply_tx w.queue ≡ none
    → (poll p.reply_tx p.challenge.id (under_way p reply w)).0 ≡ some (addressed p reply)
unfolding poll
poll-under_way p reply w h =
    let f : first_reply p.reply_tx (w.queue ++ ((p.reply_tx, addressed p reply) ∷ []))
        ≡ some (addressed p reply) =
      first_reply-append p.reply_tx p.reply_tx (addressed p reply) w.queue
      ∙ rw (h, eq→== p.reply_tx p.reply_tx refl) in
    rw f

-- A reply that names the pending challenge, or none by the id 0, is accepted, and the worker of the
-- slot receives it under the challenge's id.
pub submit_delivers :
    {w : World} (p : PendingSlot) (reply : AuthChallengeReply)
    → Reach w
    → w.inner.pending ≡ some p
    → is_stale reply p ≡ false
    → ((submit reply w).0 ≡ none)
      × ((poll p.reply_tx p.challenge.id (submit reply w).1).0
          ≡ some (record reply { id = p.challenge.id }))
submit_delivers {w} p reply reach e h =
    let v = Reach-Inv reach in
    rw (submit_accepted p reply w e v h) (refl, poll-under_way p reply w (v.coherent.idle p e))

submit_slot_stale :
    (p : PendingSlot) (reply : AuthChallengeReply) (w : World)
    → is_stale reply p ≡ true
    → submit_slot (some p) reply w ≡ (some SubmitError.stale_id, w)
submit_slot_stale p reply w t = rw t

refused_slot :
    (o : Option PendingSlot) (reply : AuthChallengeReply) (w : World) (x : SubmitError)
    → w.inner.pending ≡ o
    → Inv w
    → (submit_slot o reply w).0 ≡ some x
    → ((submit_slot o reply w).1 ≡ w) × (x ≢ SubmitError.worker_gone)
refused_slot none reply w x e v h = (refl, λ g. cc)
refused_slot (some p) reply w x e v h = elim (Bool-cases (is_stale reply p)) [
  | inl t ↦
      let l = submit_slot_stale p reply w t in
      (
        ap (λ (y : Option SubmitError × World). y.1) l,
        λ g. cc (sym (ap (λ (y : Option SubmitError × World). y.0) l) ∙ h),
      )
  | inr t ↦ cc (submit_slot_accepted p reply w (v.coherent.held p e) t)
]

-- A submission that is refused changes nothing, and it is refused only when no challenge is pending
-- or the reply names another one.
pub submit_refused :
    {w : World} (reply : AuthChallengeReply) (x : SubmitError)
    → Reach w
    → (submit reply w).0 ≡ some x
    → ((submit reply w).1 ≡ w) × (x ≢ SubmitError.worker_gone)
unfolding submit
submit_refused {w} reply x reach h = refused_slot w.inner.pending reply w x refl (Reach-Inv reach) h
