-- ===== src/Model/Validate.antt =====
-- `ConnectionProfile::validate` of crates/hopenconnect_core/src/model.rs. An error carries what its
-- message shows.
use h_openconnect.Base.{
  ℕ, ◌==◌, ltb, leb, Bool, true, false, ◌||◌, ◌&&◌, not, Option, none, some, List, [], ◌∷◌,
  if◌then◌else◌, is_empty, any, Text, codes, trim, split, split_once_text, is_whitespace, words_by,
  has_text,
}
use h_openconnect.Model.Kinds.{SoftwareToken, secur_id}
use h_openconnect.Model.Profile.{ConnectionProfile, server_url, split_package_list}
use h_openconnect.Route.Cidr.{normalize_route_cidr}

pub data ProfileError : Type 0 where
  name_required server_required server_whitespace no_host mtu_range dpd_range securid_unavailable :
      ProfileError
  invalid_route : Text → ProfileError
  package_conflict : Text → ProfileError

pub data Checked : Type 0 where
  valid : Checked
  invalid : ProfileError → Checked

-- One check: an early return if the test holds, and otherwise the checks after it.
abbrev pub reject_if : Bool → ProfileError → Checked → Checked
reject_if true e rest = invalid e
reject_if false e rest = rest

-- `[',', ' ', '\n', ';']`
abbrev pub route_separator : ℕ → Bool
route_separator c = c == b',' || c == b' ' || c == 10 || c == b';'

unfoldable pub authority : Text → Text
authority normalized =
    let rest : Text = elim (split_once_text (codes "://") normalized) [
      | none ↦ normalized
      | some (_, r) ↦ r
    ] in
    elim (split (λ c. c == b'/') rest) [ [] ↦ [] | first ∷ _ ↦ first ]

-- The first route that does not normalise.
unfoldable pub find_bad_route : List Text → Option Text
find_bad_route [] = none
find_bad_route (r ∷ rs) =
    let rest = find_bad_route rs in elim (normalize_route_cidr r) [ none ↦ some r | some _ ↦ rest ]

-- The first trusted package that is blocked too.
unfoldable pub find_conflict : List Text → List Text → Option Text
find_conflict [] blocked = none
find_conflict (p ∷ ps) blocked =
    let rest = find_conflict ps blocked in if has_text p blocked then some p else rest

abbrev is_secur_id : SoftwareToken → Bool
is_secur_id secur_id = true
is_secur_id _ = false

abbrev reject_some : Option Text → (Text → ProfileError) → Checked → Checked
reject_some none e rest = rest
reject_some (some t) e rest = invalid (e t)

unfoldable pub mtu_out_of_range : ℕ → Bool
mtu_out_of_range mtu = not (mtu == 0) && not (leb 576 mtu && leb mtu 1500)

unfoldable pub validate : ConnectionProfile → Checked
validate p = reject_if (is_empty (trim p.name)) name_required (
    reject_if (is_empty (trim p.server)) server_required (
      reject_if (any is_whitespace (trim p.server)) server_whitespace (
        reject_if (is_empty (authority (server_url p))) no_host (
          reject_if (mtu_out_of_range p.mtu) mtu_range (
            reject_if (ltb 86400 p.dpd_seconds) dpd_range (
              reject_if (is_secur_id p.software_token) securid_unavailable (
                reject_some (find_bad_route (words_by route_separator p.split_tunnel_networks))
                  invalid_route
                  (reject_some
                    (find_conflict (split_package_list p.trusted_applications)
                      (split_package_list p.blocked_applications))
                    package_conflict valid))))))))
