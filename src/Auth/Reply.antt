-- ===== src/Auth/Reply.antt =====
-- `bind_reply_values_by_option` of crates/hopenconnect_core/src/auth_bridge.rs.
pub mod Laws
use h_openconnect.Base.{
  Bool, true, false, Option, none, some, List, [], ◌∷◌, ◌≡◌, if◌then◌else◌, is_empty, Text,
}
use h_openconnect.Auth.Form.{AuthField, AuthFieldValue, AuthChallengeReply, key_eq}

-- `(!field.value.is_empty()).then(|| field.value.clone())`
abbrev pub prefill : AuthField → Option Text
prefill f = if is_empty f.value then none else some f.value

-- The loop over the fields: the values, and the answers that were not used. After the `break` the
-- fields left keep their own values.
unfoldable pub bind_loop :
    List AuthField → List AuthFieldValue → List (Option Text) × List AuthFieldValue
bind_loop [] answers = ([], answers)
bind_loop (f ∷ fs) [] = let (vs, rest) = bind_loop fs [] in (prefill f ∷ vs, rest)
bind_loop (f ∷ fs) (a ∷ as') =
    let (used, rest) = bind_loop fs as' in
    let (kept, rest') = bind_loop fs (a ∷ as') in
    if key_eq a.key f.key then (some a.value ∷ used, rest) else (prefill f ∷ kept, rest')

-- `none` is the error "stale or out-of-order option".
unfoldable pub bind_reply_values_by_option :
    List AuthField → AuthChallengeReply → Option (List (Option Text))
unfolding bind_loop
bind_reply_values_by_option fields reply =
    let (values, rest) = bind_loop fields reply.values in
    if is_empty rest then some values else none
