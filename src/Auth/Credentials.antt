-- ===== src/Auth/Credentials.antt =====
-- `apply_credentials_to_fields` and `fields_for_user_input` of
-- crates/hopenconnect_core/src/auth_bridge.rs. The index sets are lists.
pub mod Laws
use h_openconnect.Base.{
  ℕ, zero, suc, ◌+◌, ◌==◌, Bool, true, false, ◌&&◌, ◌||◌, not, List, [], ◌∷◌, if◌then◌else◌,
  is_empty, any, all, filter, Text, codes, trim, starts_with, to_ascii_lowercase,
}
use h_openconnect.Auth.Form.{
  AuthField, AuthFieldKind, AuthCredentials, AuthFormRole, primary, challenge,
}

abbrev is_text : AuthFieldKind → Bool
is_text AuthFieldKind.text = true
is_text _ = false

abbrev pub is_password : AuthFieldKind → Bool
is_password AuthFieldKind.password = true
is_password _ = false

abbrev pub is_hidden : AuthFieldKind → Bool
is_hidden AuthFieldKind.hidden = true
is_hidden _ = false

abbrev pub is_challenge : AuthFormRole → Bool
is_challenge challenge = true
is_challenge primary = false

unfoldable pub accepts_configured_username : AuthField → Bool
accepts_configured_username f =
    let name = to_ascii_lowercase f.name in
    is_text f.kind
    && not f.second_auth
    && (starts_with name (codes "user") || starts_with name (codes "uname"))

-- What the loop body does to a field, branch by branch.
pub data FieldAction : Type 0 where
  skip_hidden ask_user fill_username fill_password mark_required keep : FieldAction

unfoldable pub field_action : AuthCredentials → AuthFormRole → Bool → AuthField → FieldAction
field_action creds role password_available f =
    if is_hidden f.kind
    then FieldAction.skip_hidden
    else if is_challenge role || f.second_auth
    then FieldAction.ask_user
    else if accepts_configured_username f && not (is_empty creds.username)
    then FieldAction.fill_username
    else if password_available && not f.second_auth && is_password f.kind
    then FieldAction.fill_password
    else if is_empty (trim f.value) && not (is_hidden f.kind)
    then FieldAction.mark_required
    else FieldAction.keep

pub record CredentialApplication : Type 0 where
  pub profile_owned : List ℕ
  pub user_owned : List ℕ

-- The field after the loop body.
abbrev pub act : FieldAction → AuthCredentials → AuthField → AuthField
act FieldAction.skip_hidden creds f = record f { required = false }
act FieldAction.ask_user creds f = record f { required = is_empty (trim f.value) }
act FieldAction.fill_username creds f = record f { value = creds.username; required = false }
act FieldAction.fill_password creds f = record f { value = creds.password; required = false }
act FieldAction.mark_required creds f = record f { required = true }
act FieldAction.keep creds f = f

-- The index sets after the loop body.
abbrev pub note : FieldAction → ℕ → CredentialApplication → CredentialApplication
note FieldAction.ask_user i a = record a { user_owned = i ∷ a.user_owned }
note FieldAction.fill_username i a = record a { profile_owned = i ∷ a.profile_owned }
note FieldAction.fill_password i a = record a { profile_owned = i ∷ a.profile_owned }
note _ i a = a

abbrev pub still_available : FieldAction → Bool → Bool
still_available FieldAction.fill_password available = false
still_available _ available = available

unfoldable pub apply_loop :
    AuthCredentials
    → AuthFormRole
    → ℕ
    → Bool
    → List AuthField
    → List AuthField × CredentialApplication
apply_loop creds role index available [] = ([], record { profile_owned = []; user_owned = [] })
apply_loop creds role index available (f ∷ fs) =
    let action = field_action creds role available f in
    let (fs', applied) = apply_loop creds role (index + 1) (still_available action available) fs in
    (act action creds f ∷ fs', note action index applied)

unfoldable pub apply_credentials_to_fields :
    List AuthField → AuthCredentials → AuthFormRole → List AuthField × CredentialApplication
unfolding apply_loop
apply_credentials_to_fields fields creds role =
    apply_loop creds role 0 (not (is_challenge role) && not (is_empty creds.password)) fields

-- The fields whose index is in the set.
unfoldable pub select_from : ℕ → List AuthField → List ℕ → List AuthField
select_from index [] owned = []
select_from index (f ∷ fs) owned =
    let rest = select_from (index + 1) fs owned in
    if any (λ i. i == index) owned then f ∷ rest else rest

unfoldable pub fields_for_user_input : List AuthField → CredentialApplication → List AuthField
unfolding select_from
fields_for_user_input fields applied = select_from 0 fields applied.user_owned

unfoldable pub can_autofill_without_ui : List AuthField → Bool
can_autofill_without_ui fields =
    let interactive = filter (λ (f : AuthField). not (is_hidden f.kind)) fields in
    if is_empty interactive
    then true
    else all (λ (f : AuthField). not (is_empty (trim f.value))) interactive
