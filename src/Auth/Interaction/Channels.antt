-- ===== src/Auth/Interaction/Channels.antt =====
-- Lookups in the queue and among the receivers, and how sending and receiving change them.
use h_openconnect.Base.{
  ℕ, ◌≡◌, refl, arith, Bool, true, false, ◌==◌, Option, none, some, List, [], ◌∷◌, ◌++◌,
  if◌then◌else◌,
}
use h_openconnect.Auth.Form.{AuthChallengeReply}
use h_openconnect.Auth.Interaction.{is_received, first_reply, without_first, without_receiver}

-- The challenge id of the worker that waits on a channel.
abbrev pub id_of : ℕ → List (ℕ × ℕ) → Option ℕ
id_of c [] = none
id_of c ((d, i) ∷ rs) = let rest = id_of c rs in if d == c then some i else rest

pub id_of-without :
    (c d : ℕ) (rs : List (ℕ × ℕ))
    → id_of d (without_receiver c rs) ≡ (if c == d then none else id_of d rs)
id_of-without c d [] = ground arith
id_of-without c d ((e, i) ∷ rs) = ground (arith, id_of-without c d rs)

pub remaining :
    (c d j : ℕ) (rs : List (ℕ × ℕ))
    → id_of d (without_receiver c rs) ≡ some j
    → ((c == d) ≡ false) × (id_of d rs ≡ some j)
remaining c d j rs h = ground (arith, id_of-without c d rs)

pub is_received_of_id :
    (c i : ℕ) (rs : List (ℕ × ℕ)) → id_of c rs ≡ some i → is_received c rs ≡ true
is_received_of_id c i [] h = ground arith
is_received_of_id c i ((d, j) ∷ rs) h = ground (arith, is_received_of_id c i rs)

abbrev pub or_new :
    Option AuthChallengeReply → Bool → AuthChallengeReply → Option AuthChallengeReply
or_new (some x) b r = some x
or_new none b r = if b then some r else none

pub first_reply-append :
    (c d : ℕ) (r : AuthChallengeReply) (q : List (ℕ × AuthChallengeReply))
    → first_reply c (q ++ ((d, r) ∷ [])) ≡ or_new (first_reply c q) (d == c) r
first_reply-append c d r [] = refl
first_reply-append c d r ((e, x) ∷ q) = ground (arith, first_reply-append c d r q)

pub first_reply-without_first :
    (c d : ℕ) (q : List (ℕ × AuthChallengeReply))
    → (c == d) ≡ false
    → first_reply d (without_first c q) ≡ first_reply d q
first_reply-without_first c d [] h = refl
first_reply-without_first c d ((e, x) ∷ q) h = ground (arith, first_reply-without_first c d q)

pub without_first-none :
    (c d : ℕ) (q : List (ℕ × AuthChallengeReply))
    → first_reply d q ≡ none
    → first_reply d (without_first c q) ≡ none
without_first-none c d [] h = refl
without_first-none c d ((e, x) ∷ q) h = ground (arith, without_first-none c d q)
