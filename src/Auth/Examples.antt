-- ===== src/Auth/Examples.antt =====
-- The authentication theorems at a login form with a username, a password and a second factor.
use h_openconnect.Base.{text_eq}
use h_openconnect.Base.{
  ℕ, ◌≤◌, ◌≡◌, ◌≢◌, ◌↔◌, refl, arith, Bool, true, false, ◌&&◌, not, Option, none, some, List, [],
  ◌∷◌, Text, codes, is_empty, filter, Forall2,
}
use h_openconnect.Auth.Form.{
  AuthFieldKind, AuthFieldKey, AuthField, AuthChallenge, AuthFieldValue, AuthChallengeReply,
  AuthCredentials, primary,
}
use h_openconnect.Auth.Credentials.{
  is_challenge, apply_credentials_to_fields, fields_for_user_input,
}
use h_openconnect.Auth.Credentials.Laws.{
  belongs_to_user, Placed, recipients, allowance, fields_for_user_input-filter,
  apply_credentials-Placed, apply_credentials-one_password,
}
use h_openconnect.Auth.Reply.{bind_reply_values_by_option}
use h_openconnect.Auth.Reply.Laws.{
  InOrder, pass, use_option, done, DistinctKeys, bind_reply-InOrder, bind_reply-values_of,
}
use h_openconnect.Auth.Interaction.{
  World, PendingSlot, SubmitError, new, wait_start, submit, poll, abort, send, cancel_taken,
}
use h_openconnect.Auth.Interaction.Delivery.{
  Reach, start, next, waits, submits, poll-own_id, abort_releases, submit_delivers, submit_refused,
}

abbrev key_at : ℕ → AuthFieldKey
key_at i = record { form_id = some (codes "main"); option_index = i; option_digest = [] }

abbrev option_at : ℕ → Text → AuthFieldKind → Bool → AuthField
option_at i name kind second = record {
  key = key_at i;
  name = name;
  label = name;
  kind = kind;
  value = [];
  choices = [];
  auth_group = false;
  second_auth = second;
  required = false;
}

abbrev login_form : List AuthField
login_form =
    option_at 0 (codes "username") AuthFieldKind.text false
    ∷ option_at 1 (codes "password") AuthFieldKind.password false
    ∷ option_at 2 (codes "answer") AuthFieldKind.password true
    ∷ []

abbrev alice : AuthCredentials
alice = record { username = codes "alice"; password = codes "secret"; group = [] }

fields_for_user_input-filter_example :
    let (fields', applied) = apply_credentials_to_fields login_form alice primary in
    fields_for_user_input fields' applied ≡ filter (belongs_to_user primary) fields'
fields_for_user_input-filter_example = fields_for_user_input-filter login_form alice primary

apply_credentials-Placed_example :
    Forall2
      (Placed alice primary)
      login_form
      (apply_credentials_to_fields login_form alice primary).0
apply_credentials-Placed_example = apply_credentials-Placed login_form alice primary

other_text : text_eq (codes "alice") (codes "secret") ≡ false
unfolding text_eq
other_text = refl

apply_credentials-one_password_example :
    recipients alice login_form (apply_credentials_to_fields login_form alice primary).0
    ≤ allowance (not (is_challenge primary) && not (is_empty (codes "secret")))
apply_credentials-one_password_example =
    apply_credentials-one_password login_form alice primary other_text

abbrev answer : AuthFieldValue
answer = record { key = key_at 2; value = codes "123456" }

abbrev answered : AuthChallengeReply
answered = record { id = 0; values = answer ∷ []; cancelled = false }

bind_reply-InOrder_example :
    ((vs : List (Option Text)) × (bind_reply_values_by_option login_form answered ≡ some vs))
    ↔ InOrder (answer ∷ []) login_form
bind_reply-InOrder_example = bind_reply-InOrder login_form answered

abbrev answer-InOrder : InOrder (answer ∷ []) login_form
answer-InOrder = pass _ (pass _ (use_option answer _ refl (done [])))

key_at-distinct : (i j : ℕ) → i ≢ j → ¬ (key_at i ≡ key_at j)
key_at-distinct i j n e = n (λ k. AuthFieldKey.option_index (e k))

login_form-DistinctKeys : DistinctKeys login_form
login_form-DistinctKeys = (
  (key_at-distinct 0 1 (omega arith), (key_at-distinct 0 2 (omega arith), tt)),
  ((key_at-distinct 1 2 (omega arith), tt), (tt, tt)),
)

bind_reply-values_of_example :
    bind_reply_values_by_option login_form answered
    ≡ some (none ∷ none ∷ some (codes "123456") ∷ [])
bind_reply-values_of_example =
    bind_reply-values_of login_form answered login_form-DistinctKeys answer-InOrder

abbrev form_challenge : AuthChallenge
form_challenge = record {
  id = 0;
  round = 0;
  banner = none;
  message = none;
  error = none;
  form_id = some (codes "main");
  method = none;
  fields = login_form;
}

-- One worker waits; then its challenge is answered.
abbrev waiting : World
waiting = (wait_start form_challenge new).1

abbrev answered_world : World
answered_world = (submit answered waiting).1

waiting-Reach : Reach waiting
unfolding new
waiting-Reach = next start (waits form_challenge new (omega arith))

answered-Reach : Reach answered_world
answered-Reach = next waiting-Reach (submits answered waiting)

abbrev delivered : AuthChallengeReply
delivered = record answered { id = 1 }

poll-own_id_example : AuthChallengeReply.id delivered ≡ 1
unfolding new wait_start submit poll send cancel_taken
poll-own_id_example = poll-own_id 0 1 delivered answered-Reach refl refl

abort_releases_example : (poll 0 1 (abort waiting)).0 ≢ none
unfolding new wait_start abort cancel_taken
abort_releases_example = abort_releases 0 1 waiting-Reach refl

abbrev pending_slot : PendingSlot
pending_slot = record { challenge = record form_challenge { id = 1; round = 1 }; reply_tx = 0 }

submit_delivers_example :
    ((submit answered waiting).0 ≡ none)
    × ((poll 0 1 (submit answered waiting).1).0 ≡ some delivered)
unfolding new wait_start cancel_taken
submit_delivers_example = submit_delivers pending_slot answered waiting-Reach refl refl

submit_refused_example :
    ((submit (record answered { id = 9 }) waiting).1 ≡ waiting)
    × (SubmitError.stale_id ≢ SubmitError.worker_gone)
unfolding new wait_start cancel_taken submit
submit_refused_example =
    submit_refused (record answered { id = 9 }) SubmitError.stale_id waiting-Reach refl
