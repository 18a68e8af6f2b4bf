-- ===== src/Ui/Routes.antt =====
-- The pages of crates/hopenconnect_ui/src/view/route.rs and how they are nested.
use h_openconnect.Base.{
  ℕ, zero, suc, Option, none, some, List, [], ◌∷◌, if◌then◌else◌, is_empty, Text, codes, ◌≡◌, refl,
}

pub data Route : Type 0 where
  home connections statistics more appearance diagnostics about : Route
  connection_editor : Text → Route

-- The messages that the titles are translated from.
pub data Title : Type 0 where
  nav_home nav_connections add_connection edit_connection nav_statistics nav_more appearance_title
        diagnostics_title about_title :
      Title

unfoldable pub title : Route → Title
title home = nav_home
title connections = nav_connections
title (connection_editor id) = if is_empty id then add_connection else edit_connection
title statistics = nav_statistics
title more = nav_more
title appearance = appearance_title
title diagnostics = diagnostics_title
title about = about_title

unfoldable pub icon : Route → Text
icon home = codes "shield"
icon connections = codes "server"
icon (connection_editor id) = codes "pen-line"
icon statistics = codes "activity"
icon more = codes "menu"
icon appearance = codes "palette"
icon diagnostics = codes "scroll-text"
icon about = codes "badge-info"

unfoldable pub bottom_index : Route → ℕ
bottom_index home = 0
bottom_index connections = 1
bottom_index (connection_editor id) = 1
bottom_index statistics = 2
bottom_index more = 3
bottom_index appearance = 3
bottom_index diagnostics = 3
bottom_index about = 3

unfoldable pub parent : Route → Option Route
parent (connection_editor id) = some connections
parent appearance = some more
parent diagnostics = some more
parent about = some more
parent home = none
parent connections = none
parent statistics = none
parent more = none

unfoldable pub bottom_routes : List Route
bottom_routes = home ∷ connections ∷ statistics ∷ more ∷ []

abbrev pub or_itself : Option Route → Route → Route
or_itself none r = r
or_itself (some p) r = p

abbrev pub route_at : ℕ → List Route → Option Route
route_at i [] = none
route_at zero (r ∷ rs) = some r
route_at (suc i) (r ∷ rs) = route_at i rs

-- The tab that the bottom bar shows as selected is the page itself or its parent, and it is the tab
-- of the parent too.
pub bottom_index-parent :
    (r : Route)
    → (route_at (bottom_index r) bottom_routes ≡ some (or_itself (parent r) r))
      × (bottom_index (or_itself (parent r) r) ≡ bottom_index r)
unfolding bottom_index bottom_routes parent
bottom_index-parent home = (refl, refl)
bottom_index-parent connections = (refl, refl)
bottom_index-parent (connection_editor id) = (refl, refl)
bottom_index-parent statistics = (refl, refl)
bottom_index-parent more = (refl, refl)
bottom_index-parent appearance = (refl, refl)
bottom_index-parent diagnostics = (refl, refl)
bottom_index-parent about = (refl, refl)
