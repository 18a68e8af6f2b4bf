-- ===== src/Auth/Form.antt =====
-- The authentication forms of crates/hopenconnect_core/src/model.rs and the credentials and roles of
-- crates/hopenconnect_core/src/auth_bridge.rs.
use h_openconnect.Base.{
  ℕ, ◌==◌, Bool, true, false, ◌&&◌, Option, none, some, List, Text, codes, text_eq, if◌then◌else◌,
}

pub data AuthFieldKind : Type 0 where
  text password select token hidden unknown : AuthFieldKind

pub record AuthFieldChoice : Type 0 where
  pub name : Text
  pub label : Text

pub record AuthGroupDiscovery : Type 0 where
  pub selected : Option Text
  pub groups : List AuthFieldChoice

pub record AuthFieldKey : Type 0 where
  pub form_id : Option Text
  pub option_index : ℕ  -- u32
  pub option_digest : Text

pub record AuthField : Type 0 where
  pub key : AuthFieldKey
  pub name : Text
  pub label : Text
  pub kind : AuthFieldKind
  pub value : Text
  pub choices : List AuthFieldChoice
  pub auth_group : Bool
  pub second_auth : Bool
  pub required : Bool

pub record AuthChallenge : Type 0 where
  pub id : ℕ  -- u64
  pub round : ℕ  -- u32
  pub banner : Option Text
  pub message : Option Text
  pub error : Option Text
  pub form_id : Option Text
  pub method : Option Text
  pub fields : List AuthField

pub record AuthFieldValue : Type 0 where
  pub key : AuthFieldKey
  pub value : Text

pub record AuthChallengeReply : Type 0 where
  pub id : ℕ  -- u64
  pub values : List AuthFieldValue
  pub cancelled : Bool

pub record AuthCredentials : Type 0 where
  pub username : Text
  pub password : Text
  pub group : Text

pub data AuthFormRole : Type 0 where
  primary challenge : AuthFormRole

abbrev pub option_eq : Option Text → Option Text → Bool
option_eq none none = true
option_eq (some a) (some b) = text_eq a b
option_eq _ _ = false

-- The derived equality of `AuthFieldKey`.
unfoldable pub key_eq : AuthFieldKey → AuthFieldKey → Bool
key_eq a b =
    option_eq a.form_id b.form_id
    && a.option_index == b.option_index
    && text_eq a.option_digest b.option_digest

unfoldable pub for_anyconnect : Option Text → AuthFormRole
for_anyconnect none = primary
for_anyconnect (some id) = if text_eq id (codes "main") then primary else challenge
