-- ===== src/Route/Exclusion.antt =====
-- The loops of `VpnOptions::materialize_excluded_routes` in
-- crates/hopenconnect_core/src/model.rs, on parsed prefixes.
pub mod Semantics
use h_openconnect.Base.{
  Bool, true, false, ◌&&◌, ◌||◌, not, List, [], ◌∷◌, ◌++◌, ltb, if◌then◌else◌, is_empty,
}
use h_openconnect.Route.Prefix.{IpPrefix, same_family, contains, subtract}

-- A narrower include wins over a broader exclusion, and families do not meet.
unfoldable pub skips : IpPrefix → IpPrefix → Bool
skips include exclusion =
    not (same_family include.family exclusion.family)
    || (ltb exclusion.bits include.bits && contains exclusion include)

-- `flat_map(|fragment| fragment.subtract(exclusion))`
unfoldable pub subtract_all : List IpPrefix → IpPrefix → List IpPrefix
subtract_all [] exclusion = []
subtract_all (f ∷ fs) exclusion = subtract f exclusion ++ subtract_all fs exclusion

-- The loop over the exclusions for one include, left early when no fragment remains.
unfoldable pub fragments_of : IpPrefix → List IpPrefix → List IpPrefix → List IpPrefix
fragments_of include [] fragments = fragments
fragments_of include (exclusion ∷ rest) fragments =
    let kept = fragments_of include rest fragments in
    let cut = subtract_all fragments exclusion in
    let further = fragments_of include rest cut in
    if skips include exclusion then kept else if is_empty cut then cut else further

-- The loop over the includes.
unfoldable pub materialize : List IpPrefix → List IpPrefix → List IpPrefix
materialize [] exclusions = []
materialize (include ∷ rest) exclusions =
    fragments_of include exclusions (include ∷ []) ++ materialize rest exclusions
