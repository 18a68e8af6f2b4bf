-- ===== src/Auth/Credentials/Laws.antt =====
-- Where the configured credentials go, and which options are shown to the user.
use h_openconnect.Base.{
  ℕ, suc, ◌+◌, ◌<◌, ◌≤◌, ◌≡◌, refl, ◌⊎◌, inl, inr, arith, Bool, true, false, ◌&&◌, ◌||◌, not, ◌==◌,
  List, [], ◌∷◌, if◌then◌else◌, is_empty, any, filter, Bool-cases, eq→==, text_eq, text_eq_refl,
  All, Forall2,
}
use h_openconnect.Auth.Form.{AuthField, AuthCredentials, AuthFormRole}
use h_openconnect.Auth.Credentials.{
  is_hidden, is_password, is_challenge, FieldAction, field_action, accepts_configured_username,
  CredentialApplication, act, note, still_available, apply_loop, apply_credentials_to_fields,
  select_from, fields_for_user_input,
}

-- The options that belong to the user: visible ones of a follow-up form or of a second factor.
abbrev pub belongs_to_user : AuthFormRole → AuthField → Bool
belongs_to_user role f = not (is_hidden f.kind) && (is_challenge role || f.second_auth)

-- All but the value and the `required` mark, which the loop may write.
abbrev pub SameOption : AuthField → AuthField → Type 0
SameOption f g =
    (g.key ≡ f.key) × (g.name ≡ f.name) × (g.kind ≡ f.kind) × (g.second_auth ≡ f.second_auth)

act_same :
    (x : FieldAction) (creds : AuthCredentials) (f : AuthField) → SameOption f (act x creds f)
act_same FieldAction.skip_hidden creds f = (refl, refl, refl, refl)
act_same _ creds f = (refl, refl, refl, refl)

ask_user_iff :
    (creds : AuthCredentials) (role : AuthFormRole) (b : Bool) (f : AuthField) (i : ℕ)
    (a : CredentialApplication)
    → (note (field_action creds role b f) i a).user_owned
      ≡ (if belongs_to_user role f then i ∷ a.user_owned else a.user_owned)
unfolding field_action
ask_user_iff creds role b f i a = ground arith

-- The indices of a loop that starts at `i` are at least `i`.
abbrev From : ℕ → List ℕ → Type 0
From i owned = All (λ j. i ≤ j) owned

From-weaken : (i k : ℕ) (owned : List ℕ) → i ≤ k → From k owned → From i owned
From-weaken i k [] h f = tt
From-weaken i k (j ∷ owned) h f = (omega arith, From-weaken i k owned h f.1)

From-apart : (i : ℕ) (owned : List ℕ) → From (i + 1) owned → any (λ j. j == i) owned ≡ false
From-apart i [] f = refl
From-apart i (j ∷ owned) f = ground (arith, From-apart i owned)

select_from-earlier :
    (i j : ℕ) (fs : List AuthField) (owned : List ℕ)
    → j < i
    → select_from i fs (j ∷ owned) ≡ select_from i fs owned
unfolding select_from
select_from-earlier i j [] owned h = refl
select_from-earlier i j (f ∷ fs) owned h = ground (arith, select_from-earlier (i + 1) j fs owned)

-- The tests that pick a field out read only what the loop leaves alone.
belongs-act :
    (role : AuthFormRole) (x : FieldAction) (creds : AuthCredentials) (f : AuthField)
    → belongs_to_user role (act x creds f) ≡ belongs_to_user role f
belongs-act role FieldAction.skip_hidden creds f = refl
belongs-act role _ creds f = refl

user_owned-From :
    (creds : AuthCredentials) (role : AuthFormRole) (i : ℕ) (b : Bool) (fs : List AuthField)
    → From i (apply_loop creds role i b fs).1.user_owned
unfolding apply_loop
user_owned-From creds role i b [] = tt
user_owned-From creds role i b (f ∷ fs) =
    let x = field_action creds role b f in
    let r = apply_loop creds role (i + 1) (still_available x b) fs in
    let later =
      From-weaken i (i + 1) r.1.user_owned (omega arith)
        (user_owned-From creds role (i + 1) (still_available x b) fs) in
    elim (Bool-cases (belongs_to_user role f)) [
      | inl t ↦ rw (ask_user_iff creds role b f i r.1, t) (omega arith, later)
      | inr n ↦ rw (ask_user_iff creds role b f i r.1, n) later
    ]

select-user_owned :
    (creds : AuthCredentials) (role : AuthFormRole) (i : ℕ) (b : Bool) (fs : List AuthField)
    → let (fs', applied) = apply_loop creds role i b fs in
      select_from i fs' applied.user_owned ≡ filter (belongs_to_user role) fs'
unfolding apply_loop select_from
select-user_owned creds role i b [] = refl
select-user_owned creds role i b (f ∷ fs) =
    let x = field_action creds role b f in
    let r = apply_loop creds role (i + 1) (still_available x b) fs in
    let ih = select-user_owned creds role (i + 1) (still_available x b) fs in
    let low = user_owned-From creds role (i + 1) (still_available x b) fs in
    let apart = From-apart i r.1.user_owned low in
    let g = act x creds f in
    let same = belongs-act role x creds f in
    elim (Bool-cases (belongs_to_user role f)) [
      | inl t ↦
          rw (ask_user_iff creds role b f i r.1, t, same, t)
            (rw
              (eq→== i i refl, select_from-earlier (i + 1) i r.0 r.1.user_owned (omega arith), ih))
      | inr n ↦ rw (ask_user_iff creds role b f i r.1, n, same, n) (rw (apart, ih))
    ]

-- The options that the user is asked for are exactly the visible ones of a follow-up form, or those
-- marked as a second factor, in the form's order.
pub fields_for_user_input-filter :
    (fields : List AuthField) (creds : AuthCredentials) (role : AuthFormRole)
    → let (fields', applied) = apply_credentials_to_fields fields creds role in
      fields_for_user_input fields' applied ≡ filter (belongs_to_user role) fields'
unfolding apply_credentials_to_fields fields_for_user_input
fields_for_user_input-filter fields creds role =
    select-user_owned creds role 0 (not (is_challenge role) && not (is_empty creds.password)) fields

-- What may stand in a field afterwards: its own value, the configured username in a username option
-- of the primary form, or the configured password in a password option of the primary form.
abbrev pub Placed : AuthCredentials → AuthFormRole → AuthField → AuthField → Type 0
Placed creds role f g =
    SameOption f g
    × ((g.value ≡ f.value)
        ⊎ ((belongs_to_user role f ≡ false)
            × (((g.value ≡ creds.username) × (accepts_configured_username f ≡ true))
                ⊎ ((g.value ≡ creds.password) × (is_password f.kind ≡ true)))))

username_guard :
    (creds : AuthCredentials) (role : AuthFormRole) (b : Bool) (f : AuthField)
    → field_action creds role b f ≡ FieldAction.fill_username
    → (belongs_to_user role f ≡ false) × (accepts_configured_username f ≡ true)
unfolding field_action
username_guard creds role b f h = ground arith

password_guard :
    (creds : AuthCredentials) (role : AuthFormRole) (b : Bool) (f : AuthField)
    → field_action creds role b f ≡ FieldAction.fill_password
    → (belongs_to_user role f ≡ false) × (is_password f.kind ≡ true) × (b ≡ true)
unfolding field_action
password_guard creds role b f h = ground arith

Placed-by :
    (creds : AuthCredentials) (role : AuthFormRole) (b : Bool) (f : AuthField) (x : FieldAction)
    → field_action creds role b f ≡ x
    → Placed creds role f (act x creds f)
Placed-by creds role b f FieldAction.fill_username h =
    let g = username_guard creds role b f h in
    ((refl, refl, refl, refl), inr (g.0, inl (refl, g.1)))
Placed-by creds role b f FieldAction.fill_password h =
    let g = password_guard creds role b f h in
    ((refl, refl, refl, refl), inr (g.0, inr (refl, g.1)))
Placed-by creds role b f _ h = ((refl, refl, refl, refl), inl refl)

act-Placed :
    (creds : AuthCredentials) (role : AuthFormRole) (b : Bool) (f : AuthField)
    → Placed creds role f (act (field_action creds role b f) creds f)
act-Placed creds role b f = Placed-by creds role b f (field_action creds role b f) refl

apply_loop-Placed :
    (creds : AuthCredentials) (role : AuthFormRole) (i : ℕ) (b : Bool) (fs : List AuthField)
    → Forall2 (Placed creds role) fs (apply_loop creds role i b fs).0
unfolding apply_loop
apply_loop-Placed creds role i b [] = tt
apply_loop-Placed creds role i b (f ∷ fs) = (
  act-Placed creds role b f,
  apply_loop-Placed creds role (i + 1) (still_available (field_action creds role b f) b) fs,
)

-- A credential is written into an option only if the option does not belong to the user and is a
-- username or a password option; every other option keeps its value, and identities never change.
pub apply_credentials-Placed :
    (fields : List AuthField) (creds : AuthCredentials) (role : AuthFormRole)
    → Forall2 (Placed creds role) fields (apply_credentials_to_fields fields creds role).0
unfolding apply_credentials_to_fields
apply_credentials-Placed fields creds role =
    apply_loop-Placed creds role 0 (not (is_challenge role) && not (is_empty creds.password)) fields

-- How many options, of whatever kind, have the configured password for a value that they had not before.
abbrev pub recipients : AuthCredentials → List AuthField → List AuthField → ℕ
recipients creds [] gs = 0
recipients creds (f ∷ fs) [] = 0
recipients creds (f ∷ fs) (g ∷ gs) =
    let rest = recipients creds fs gs in
    if text_eq g.value creds.password && not (text_eq f.value g.value) then suc rest else rest

abbrev pub allowance : Bool → ℕ
allowance true = 1
allowance false = 0

-- An option receives the password only if the loop has just filled it in, which was still to be used.
password_step :
    (creds : AuthCredentials) (role : AuthFormRole) (b : Bool) (f : AuthField) (rest : ℕ)
    (x : FieldAction)
    → text_eq creds.username creds.password ≡ false
    → field_action creds role b f ≡ x
    → rest ≤ allowance (still_available x b)
    → (if text_eq (act x creds f).value creds.password
          && not (text_eq f.value (act x creds f).value)
        then suc rest
        else rest)
      ≤ allowance b
password_step creds role b f rest FieldAction.fill_username d e h = rw d h
password_step creds role b f rest FieldAction.fill_password d e h =
    rw (password_guard creds role b f e).2 (ground arith)
password_step creds role b f rest _ d e h = ground (arith, text_eq_refl f.value)

apply_loop-recipients :
    (creds : AuthCredentials) (role : AuthFormRole) (i : ℕ) (b : Bool) (fs : List AuthField)
    → text_eq creds.username creds.password ≡ false
    → recipients creds fs (apply_loop creds role i b fs).0 ≤ allowance b
unfolding apply_loop
apply_loop-recipients creds role i b [] d = omega arith
apply_loop-recipients creds role i b (f ∷ fs) d =
    let x = field_action creds role b f in
    password_step creds role b f
      (recipients creds fs (apply_loop creds role (i + 1) (still_available x b) fs).0) x d refl
      (apply_loop-recipients creds role (i + 1) (still_available x b) fs d)

-- When the configured username is not the password too, the password is put into at most one option,
-- whatever its kind, and into none of a follow-up form.
pub apply_credentials-one_password :
    (fields : List AuthField) (creds : AuthCredentials) (role : AuthFormRole)
    → text_eq creds.username creds.password ≡ false
    → recipients creds fields (apply_credentials_to_fields fields creds role).0
      ≤ allowance (not (is_challenge role) && not (is_empty creds.password))
unfolding apply_credentials_to_fields
apply_credentials-one_password fields creds role d =
    apply_loop-recipients creds role 0 (not (is_challenge role) && not (is_empty creds.password))
      fields d
