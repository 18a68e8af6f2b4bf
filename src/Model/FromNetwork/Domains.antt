-- ===== src/Model/FromNetwork/Domains.antt =====
-- The search domains of `VpnOptions::from_network` in crates/hopenconnect_core/src/model.rs.
use h_openconnect.Base.{
  ℕ, ◌==◌, Bool, ◌||◌, Option, none, some, List, [], ◌∷◌, ◌++◌, if◌then◌else◌, any, Text, words_by,
  eq_ignore_ascii_case,
}
use h_openconnect.Model.Network.{NetworkSnapshot}

-- A suffix is appended unless one of the list is equal up to ASCII case.
unfoldable pub push_domain : List Text → Text → List Text
push_domain domains d =
    if any (λ e. eq_ignore_ascii_case e d) domains then domains else domains ++ (d ∷ [])

abbrev pub push_domains : List Text → List Text → List Text
push_domains domains [] = domains
push_domains domains (d ∷ ds) = push_domains (push_domain domains d) ds

abbrev pub domain_separator : ℕ → Bool
domain_separator c = c == b',' || c == b' ' || c == b';'

unfoldable pub append_search_domains : List Text → Text → List Text
append_search_domains domains value = push_domains domains (words_by domain_separator value)

abbrev pub append_all : List Text → List Text → List Text
append_all domains [] = domains
append_all domains (v ∷ vs) = append_all (append_search_domains domains v) vs

abbrev pub first_domains : Option Text → List Text
first_domains none = []
first_domains (some d) = append_search_domains [] d

-- The default domain first, then the split-DNS suffixes.
unfoldable pub search_domain_list : NetworkSnapshot → List Text
search_domain_list n = append_all (first_domains n.domain) n.split_dns
