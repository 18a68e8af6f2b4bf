-- ===== src/Auth/Reply/Laws.antt =====
-- Binding a reply decides whether its answers are an in-order selection of the form's options.
use mathlib.Core.Bool.{false≢true}
use h_openconnect.Base.{
  ◌≡◌, refl, sym, ap, ◌∙◌, inl, inr, ◌↔◌, arith, true, Option, none, some, List, [], ◌∷◌, is_empty,
  Bool-cases, eq_false, ==→eq, text_eq→eq, text_eq_refl, eq→==, All, map, Text,
}
use h_openconnect.Auth.Form.{
  AuthField, AuthFieldKey, AuthFieldValue, AuthChallengeReply, option_eq, key_eq,
}
use h_openconnect.Auth.Reply.{prefill, bind_loop, bind_reply_values_by_option}

option_eq→eq : (a b : Option Text) → option_eq a b ≡ true → a ≡ b
option_eq→eq none none h = refl
option_eq→eq none (some b) h = ground arith
option_eq→eq (some a) none h = ground arith
option_eq→eq (some a) (some b) h = ap some (text_eq→eq a b h)

option_eq_refl : (a : Option Text) → option_eq a a ≡ true
option_eq_refl none = refl
option_eq_refl (some a) = text_eq_refl a

-- The three parts of the key decide its equality.
pub key_eq_iff : (a b : AuthFieldKey) → (key_eq a b ≡ true) ↔ (a ≡ b)
unfolding key_eq
key_eq_iff a b = (forth, λ e. rw e back)
  where
    forth : key_eq a b ≡ true → a ≡ b
    forth h = ground (
      arith,
      option_eq→eq a.form_id b.form_id,
      ==→eq a.option_index b.option_index,
      text_eq→eq a.option_digest b.option_digest,
    )

    back : key_eq b b ≡ true
    back = ground (
      arith,
      option_eq_refl b.form_id,
      eq→== b.option_index b.option_index refl,
      text_eq_refl b.option_digest,
    )

-- The answers name options of the form, in the form's order, each option at most once.
pub data InOrder : List AuthFieldValue → List AuthField → Type 0 where
  done : (fs : List AuthField) → InOrder [] fs
  pass :
      {as' : List AuthFieldValue} {fs : List AuthField} (f : AuthField)
      → InOrder as' fs
      → InOrder as' (f ∷ fs)
  use_option :
      {as' : List AuthFieldValue} {fs : List AuthField} (a : AuthFieldValue) (f : AuthField)
      → a.key ≡ f.key
      → InOrder as' fs
      → InOrder (a ∷ as') (f ∷ fs)

InOrder-tail :
    {a : AuthFieldValue} {as' : List AuthFieldValue} {fs : List AuthField}
    → InOrder (a ∷ as') fs
    → InOrder as' fs
InOrder-tail (pass f o) = pass f (InOrder-tail o)
InOrder-tail (use_option a f e o) = pass f o

-- The greedy choice loses nothing.
InOrder-greedy :
    {a : AuthFieldValue} {as' : List AuthFieldValue} {f : AuthField} {fs : List AuthField}
    → InOrder (a ∷ as') (f ∷ fs)
    → InOrder as' fs
InOrder-greedy (pass f o) = InOrder-tail o
InOrder-greedy (use_option a f e o) = o

InOrder-skip :
    {a : AuthFieldValue} {as' : List AuthFieldValue} {f : AuthField} {fs : List AuthField}
    → ¬ (a.key ≡ f.key)
    → InOrder (a ∷ as') (f ∷ fs)
    → InOrder (a ∷ as') fs
InOrder-skip n (pass f o) = o
InOrder-skip n (use_option a f e o) = absurd (n e)

leftover_sound :
    (fs : List AuthField) (as' : List AuthFieldValue)
    → is_empty (bind_loop fs as').1 ≡ true
    → InOrder as' fs
unfolding bind_loop
leftover_sound [] [] h = done []
leftover_sound [] (a ∷ as') h = absurd (false≢true h)
leftover_sound (f ∷ fs) [] h = done (f ∷ fs)
leftover_sound (f ∷ fs) (a ∷ as') h = elim (Bool-cases (key_eq a.key f.key)) [
  | inl k ↦ use_option a f ((key_eq_iff a.key f.key).0 k) (leftover_sound fs as' (rw k at h))
  | inr k ↦ pass f (leftover_sound fs (a ∷ as') (rw k at h))
]

leftover_complete :
    (fs : List AuthField) (as' : List AuthFieldValue)
    → InOrder as' fs
    → is_empty (bind_loop fs as').1 ≡ true
unfolding bind_loop
leftover_complete [] [] o = refl
leftover_complete [] (a ∷ as') o = elim o [ ]
leftover_complete (f ∷ fs) [] o = leftover_complete fs [] (done fs)
leftover_complete (f ∷ fs) (a ∷ as') o = elim (Bool-cases (key_eq a.key f.key)) [
  | inl k ↦ rw k (leftover_complete fs as' (InOrder-greedy o))
  | inr k ↦ rw k (
      leftover_complete fs (a ∷ as')
        (InOrder-skip (λ e. false≢true (sym k ∙ (key_eq_iff a.key f.key).1 e)) o))
]

-- A reply is accepted exactly when its answers name options of the form by their whole keys, in the
-- form's order.
pub bind_reply-InOrder :
    (fields : List AuthField) (reply : AuthChallengeReply)
    → ((vs : List (Option Text)) × (bind_reply_values_by_option fields reply ≡ some vs))
      ↔ InOrder reply.values fields
unfolding bind_reply_values_by_option
bind_reply-InOrder fields reply = (forth, back)
  where
    forth :
        (vs : List (Option Text)) × (bind_reply_values_by_option fields reply ≡ some vs)
        → InOrder reply.values fields
    forth (vs, h) = leftover_sound fields reply.values (ground arith)

    back :
        InOrder reply.values fields
        → (vs : List (Option Text)) × (bind_reply_values_by_option fields reply ≡ some vs)
    back o = ((bind_loop fields reply.values).0, rw (leftover_complete fields reply.values o))

-- The values that a selection of options stands for: an option that it passes keeps its own value.
abbrev pub values_of :
    {as' : List AuthFieldValue} {fs : List AuthField} → InOrder as' fs → List (Option Text)
values_of (done fs) = map prefill fs
values_of (pass f o) = prefill f ∷ values_of o
values_of (use_option a f e o) = some a.value ∷ values_of o

abbrev pub DistinctKeys : List AuthField → Type 0
DistinctKeys [] = Unit
DistinctKeys (f ∷ fs) = All (λ g. ¬ (f.key ≡ g.key)) fs × DistinctKeys fs

-- The next answer is for a later option than one that has another key than all of them.
later_key :
    {a : AuthFieldValue} {as' : List AuthFieldValue} {fs : List AuthField} (f : AuthField)
    → InOrder (a ∷ as') fs
    → All (λ g. ¬ (f.key ≡ g.key)) fs
    → ¬ (a.key ≡ f.key)
later_key f (pass g o) d e = later_key f o d.1 e
later_key f (use_option a g k o) d e = d.0 (sym e ∙ k)

values_of_none : (fs : List AuthField) (o : InOrder [] fs) → values_of o ≡ map prefill fs
values_of_none fs (done fs') = refl
values_of_none fs (pass f o) = ap (λ (vs : List (Option Text)). prefill f ∷ vs) (values_of_none _ o)

bind_loop-none : (fs : List AuthField) → bind_loop fs [] ≡ (map prefill fs, [])
unfolding bind_loop
bind_loop-none [] = refl
bind_loop-none (f ∷ fs) = rw (bind_loop-none fs)

bind_loop-values_of :
    (fs : List AuthField) (as' : List AuthFieldValue) (o : InOrder as' fs)
    → DistinctKeys fs
    → bind_loop fs as' ≡ (values_of o, [])
unfolding bind_loop
bind_loop-values_of fs [] o d = rw (values_of_none fs o) (bind_loop-none fs)
bind_loop-values_of [] (a ∷ as') o d = elim o [ ]
bind_loop-values_of (f ∷ fs) (a ∷ as') (pass f' o) d = rw (
  eq_false _ (λ k. later_key f o d.0 ((key_eq_iff a.key f.key).0 k)),
  bind_loop-values_of fs (a ∷ as') o d.1,
)
bind_loop-values_of (f ∷ fs) (a ∷ as') (use_option a' f' e o) d =
    rw ((key_eq_iff a.key f.key).1 e, bind_loop-values_of fs as' o d.1)

-- On a form whose options have distinct keys, an in-order selection of the options is accepted, and
-- the result has each selected option's answer and every other option's own value.
pub bind_reply-values_of :
    (fields : List AuthField) (reply : AuthChallengeReply)
    → DistinctKeys fields
    → (o : InOrder reply.values fields)
    → bind_reply_values_by_option fields reply ≡ some (values_of o)
unfolding bind_reply_values_by_option
bind_reply-values_of fields reply d o = rw (bind_loop-values_of fields reply.values o d)
