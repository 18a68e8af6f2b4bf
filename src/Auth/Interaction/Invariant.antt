-- ===== src/Auth/Interaction/Invariant.antt =====
-- What holds of the slot, the queue and the receivers between two operations.
use h_openconnect.Base.{
  ℕ, ◌+◌, ◌≤◌, ◌<◌, ◌≡◌, ◌≢◌, refl, sym, ◌∙◌, ◌⊎◌, inl, inr, arith, false, ◌==◌, Option, none, some,
  List, [], ◌∷◌, ◌++◌, Bool-cases, ==→eq, eq→==,
}
use h_openconnect.Auth.Form.{AuthChallenge, AuthChallengeReply}
use h_openconnect.Auth.Interaction.{
  PendingSlot, first_reply, without_first, without_receiver, clear_if,
}
use h_openconnect.Auth.Interaction.Channels.{
  id_of, id_of-without, remaining, or_new, first_reply-append, first_reply-without_first,
  without_first-none,
}

-- The slot belongs to the worker on channel `c`.
abbrev pub Holds : Option PendingSlot → ℕ → Type 0
Holds none c = ⊥
Holds (some p) c = p.reply_tx ≡ c

abbrev pub Arrived : List (ℕ × AuthChallengeReply) → ℕ → Type 0
Arrived q c = first_reply c q ≢ none

-- `held`: the worker of the slot waits for the slot's challenge. `served`: a worker waits for the UI
-- or has a reply. `matched`: a reply carries the id that its worker waits for. `newest`: the slot has
-- the highest id. `idle`: the worker of the slot has no reply yet. The other fields say that channels and ids not yet made are unused.
pub record Coherent (pending : Option PendingSlot) (next_id : ℕ) (q : List (ℕ × AuthChallengeReply))
    (rs : List (ℕ × ℕ)) (channels : ℕ) : Type 0 where
  pub held : (p : PendingSlot) → pending ≡ some p → id_of p.reply_tx rs ≡ some p.challenge.id
  pub served : (c i : ℕ) → id_of c rs ≡ some i → Holds pending c ⊎ Arrived q c
  pub matched :
      (c i : ℕ) (r : AuthChallengeReply) → id_of c rs ≡ some i → first_reply c q ≡ some r → r.id ≡ i
  pub newest :
      (p : PendingSlot) (c i : ℕ)
      → pending ≡ some p
      → id_of c rs ≡ some i
      → (p.reply_tx == c) ≡ false
      → i < p.challenge.id
  pub known : (c i : ℕ) → id_of c rs ≡ some i → (i ≤ next_id) × (c < channels)
  pub idle : (p : PendingSlot) → pending ≡ some p → first_reply p.reply_tx q ≡ none
  pub unqueued : (c : ℕ) → channels ≤ c → first_reply c q ≡ none

clear_if-some :
    (o : Option PendingSlot) (p : PendingSlot) (id : ℕ)
    → clear_if o id ≡ some p
    → (o ≡ some p) × ((p.challenge.id == id) ≡ false)
clear_if-some none p id h = ground arith
clear_if-some (some p') p id h = ground arith

module _ {n ch : ℕ} {q : List (ℕ × AuthChallengeReply)} {rs : List (ℕ × ℕ)} where
  -- The reply queued first is the one that was there, or else the one sent.
  released-matched :
      (p : PendingSlot) (r : AuthChallengeReply)
      → r.id ≡ p.challenge.id
      → Coherent (some p) n q rs ch
      → (c i : ℕ) (x : AuthChallengeReply) → id_of c rs ≡ some i
      → first_reply c (q ++ ((p.reply_tx, r) ∷ [])) ≡ some x
      → x.id ≡ i
  released-matched p r e k c i x h f =
      let g : or_new (first_reply c q) (p.reply_tx == c) r ≡ some x =
        sym (first_reply-append c p.reply_tx r q) ∙ f in
      elim (Bool-cases (p.reply_tx == c)) [
        | inl t ↦
            let s = ==→eq p.reply_tx c t in
            let hp : id_of c rs ≡ some p.challenge.id = rw (← s) (k.held p refl) in
            ground (arith, k.matched c i x h)
        | inr t ↦ ground (arith, k.matched c i x h)
      ]

  -- Taking the slot and sending its worker a reply with the slot's id.
  pub release :
      (p : PendingSlot) (r : AuthChallengeReply)
      → r.id ≡ p.challenge.id
      → Coherent (some p) n q rs ch
      → Coherent none n (q ++ ((p.reply_tx, r) ∷ [])) rs ch
  release p r e k = record {
    held = λ p' h. cc;
    served = λ c i h. inr (
        rw (first_reply-append c p.reply_tx r q) (elim (k.served c i h) [
          | inl s ↦ ground (arith, eq→== p.reply_tx c s)
          | inr a ↦ ground arith
        ]));
    matched = released-matched p r e k;
    newest = λ p' c i h. cc;
    idle = λ p' h. cc;
    known = k.known;
    unqueued = λ c h.
        rw (first_reply-append c p.reply_tx r q)
          (ground (arith, k.unqueued c h, k.known p.reply_tx p.challenge.id (k.held p refl)));
  }

  -- A new worker takes the free slot, with the next id and a new channel.
  pub occupy :
      (a : AuthChallenge)
      → a.id ≡ n + 1
      → Coherent none n q rs ch
      → Coherent
          (some (record { challenge = a; reply_tx = ch }))
          (n + 1)
          q
          ((ch, n + 1) ∷ rs)
          (ch + 1)
  occupy a e k = record {
    held = λ p h. ground arith;
    served = λ c i h. ground (arith, k.served c i);
    matched = λ c i r h f. ground (arith, k.matched c i r, k.unqueued c);
    newest = λ p c i h g d. ground (arith, k.known c i);
    known = λ c i h. ground (arith, k.known c i);
    idle = λ p h. ground (arith, k.unqueued ch);
    unqueued = λ c h. k.unqueued c (omega arith);
  }

  received_held :
      (c i : ℕ) (r : AuthChallengeReply) (o : Option PendingSlot) (p : PendingSlot)
      → id_of c rs ≡ some i
      → r.id ≡ i
      → Coherent o n q rs ch
      → clear_if o r.id ≡ some p
      → id_of p.reply_tx (without_receiver c rs) ≡ some p.challenge.id
  received_held c i r o p hc rid k h =
      let (e, other) = clear_if-some o p r.id h in
      let hp = k.held p e in
      elim (Bool-cases (c == p.reply_tx)) [
        | inl t ↦
            let hq : id_of p.reply_tx rs ≡ some i = rw (← ==→eq c p.reply_tx t) hc in ground arith
        | inr t ↦ rw (id_of-without c p.reply_tx rs, t) hp
      ]

  received_served :
      (c i : ℕ) (r : AuthChallengeReply) (o : Option PendingSlot) (d j : ℕ)
      → id_of c rs ≡ some i
      → r.id ≡ i
      → Coherent o n q rs ch
      → (c == d) ≡ false
      → id_of d rs ≡ some j
      → Holds (clear_if o r.id) d ⊎ Arrived (without_first c q) d
  received_served c i r none d j hc rid k a h = elim (k.served d j h) [
    | inl b ↦ absurd b
    | inr b ↦ inr (rw (first_reply-without_first c d q a) b)
  ]
  received_served c i r (some p) d j hc rid k a h = elim (k.served d j h) [
    | inl b ↦ inl (ground (arith, k.newest p c i refl hc))
    | inr b ↦ inr (rw (first_reply-without_first c d q a) b)
  ]

  -- A worker that receives its reply takes it out of the queue and leaves.
  pub receive :
      (p : Option PendingSlot) (c i : ℕ) (r : AuthChallengeReply)
      → id_of c rs ≡ some i
      → first_reply c q ≡ some r
      → Coherent p n q rs ch
      → Coherent (clear_if p r.id) n (without_first c q) (without_receiver c rs) ch
  receive p c i r hc hf k =
      let rid = k.matched c i r hc hf in
      record {
        held = λ p' h. received_held c i r p p' hc rid k h;
        served = λ d j h.
            received_served c i r p d j hc rid k (remaining c d j rs h).0 (remaining c d j rs h).1;
        matched = λ d j x h f.
            k.matched d j x (remaining c d j rs h).1
              (rw (first_reply-without_first c d q (remaining c d j rs h).0) at f);
        newest = λ p' d j h g a.
            k.newest p' d j (clear_if-some p p' r.id h).0 (remaining c d j rs g).1 a;
        known = λ d j h. k.known d j (remaining c d j rs h).1;
        idle = λ p' h. without_first-none c p'.reply_tx q (k.idle p' (clear_if-some p p' r.id h).0);
        unqueued = λ d h. without_first-none c d q (k.unqueued d h);
      }
