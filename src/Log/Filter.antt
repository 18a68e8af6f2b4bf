-- ===== src/Log/Filter.antt =====
-- crates/hopenconnect_ui/src/log_filter.rs: which log lines the page shows.
use h_openconnect.Base.{
  Bool, true, false, ◌||◌, Option, none, some, List, [], ◌∷◌, if◌then◌else◌, is_empty, Text, codes,
  trim, to_ascii_lowercase, eq_ignore_ascii_case, contains_text, not,
}
use h_openconnect.Log.{DiagnosticEntry}

pub data LogLevelFilter : Type 0 where
  all_levels info warning error debug : LogLevelFilter

unfoldable pub all_filters : List LogLevelFilter
all_filters = all_levels ∷ info ∷ warning ∷ error ∷ debug ∷ []

unfoldable pub level_of : LogLevelFilter → Option Text
level_of all_levels = none
level_of info = some (codes "info")
level_of warning = some (codes "warning")
level_of error = some (codes "error")
level_of debug = some (codes "debug")

unfoldable pub normalize_log_query : Text → Text
unfolding trim to_ascii_lowercase
normalize_log_query query = to_ascii_lowercase (trim query)

-- The warning level has a second spelling.
abbrev pub level_matches : LogLevelFilter → Text → Text → Bool
level_matches warning level name =
    eq_ignore_ascii_case name (codes "warning") || eq_ignore_ascii_case name (codes "warn")
level_matches all_levels level name = eq_ignore_ascii_case name level
level_matches info level name = eq_ignore_ascii_case name level
level_matches error level name = eq_ignore_ascii_case name level
level_matches debug level name = eq_ignore_ascii_case name level

abbrev pub passes_level : Option Text → LogLevelFilter → Text → Bool
passes_level none f name = true
passes_level (some level) f name = level_matches f level name

abbrev pub has_query : Text → Text → Bool
has_query query field = contains_text (to_ascii_lowercase field) query

unfoldable pub matches_log_filter_normalized : DiagnosticEntry → LogLevelFilter → Text → Bool
unfolding level_of
matches_log_filter_normalized log f query =
    if not (passes_level (level_of f) f log.level)
    then false
    else if is_empty query
    then true
    else has_query query log.level || has_query query log.message || has_query query log.timestamp
