-- ===== src/Model/Kinds/Token.antt =====
-- The labels of `SoftwareToken` in crates/hopenconnect_core/src/model.rs.
use h_openconnect.Base.{
  ◌||◌, Text, codes, text_eq, to_ascii_lowercase, if◌then◌else◌, ◌≡◌, refl, List, [], ◌∷◌,
}
use h_openconnect.Model.Kinds.{SoftwareToken, disabled, secur_id, totp}

unfoldable pub as_label : SoftwareToken → Text
as_label disabled = codes "Disabled"
as_label secur_id = codes "RSA SecurID"
as_label totp = codes "TOTP"

unfoldable pub from_label : Text → SoftwareToken
unfolding text_eq to_ascii_lowercase
from_label label =
    let l = to_ascii_lowercase label in
    if text_eq l (codes "securid") || text_eq l (codes "rsa securid") || text_eq l (codes "stoken")
    then secur_id
    else if text_eq l (codes "totp")
    then totp
    else disabled

-- The token modes that the app offers.
unfoldable pub all : List SoftwareToken
all = disabled ∷ totp ∷ []

-- A token mode's label is read back as that mode.
pub from_label-as_label : (t : SoftwareToken) → from_label (as_label t) ≡ t
unfolding from_label as_label
from_label-as_label disabled = refl
from_label-as_label _ = refl
