-- ===== src/Log/Archive.antt =====
-- The log files of crates/hopenconnect_core/src/log_recording.rs: their names, the lines written to
-- them, and which of them may be read or deleted.

use h_openconnect.Base.{
  ℕ, ◌==◌, Bool, true, false, ◌&&◌, ◌||◌, Option, none, some, [], ◌∷◌, ◌++◌, if◌then◌else◌, length,
  map, Text, codes, text_eq, strip_prefix, strip_suffix, is_digit, leb, ◌-◌, suc,
}
use h_openconnect.Log.{DiagnosticEntry}

abbrev pub log_file_prefix : Text
log_file_prefix = codes "h-openconnect."

abbrev pub legacy_log_file_prefix : Text
legacy_log_file_prefix = codes "h-openconnect-"

abbrev pub log_file_suffix : Text
log_file_suffix = codes ".log"

abbrev pub without_suffix : Option Text → Option Text
without_suffix none = none
without_suffix (some value) = strip_suffix value log_file_suffix

-- `find_map` over the two prefixes.
abbrev pub or_else : Option Text → Option Text → Option Text
or_else (some a) b = some a
or_else none b = b

unfoldable pub log_file_date : Text → Option Text
unfolding strip_prefix strip_suffix
log_file_date name =
    or_else (without_suffix (strip_prefix name log_file_prefix))
      (without_suffix (strip_prefix name legacy_log_file_prefix))

-- The digits and dashes of YYYY-MM-DD, from position `i` on.
unfoldable pub date_shape : ℕ → Text → Bool
unfolding is_digit
date_shape i [] = true
date_shape i (c ∷ cs) =
    (if i == 4 || i == 7 then c == b'-' else is_digit c) && date_shape (suc i) cs

-- `len()` is in bytes; a text with a character of several bytes has no date's shape.
abbrev pub is_date : Option Text → Bool
is_date none = false
is_date (some date) = length date == 10 && date_shape 0 date

unfoldable pub is_log_file_name : Text → Bool
unfolding log_file_date date_shape
is_log_file_name name = is_date (log_file_date name)

abbrev pub to_upper : ℕ → ℕ
to_upper c = if leb b'a' c && leb c b'z' then c - 32 else c

-- The escape of one character of a message.
abbrev pub escape : ℕ → Text
escape c =
    if c == 92
    then 92 ∷ 92 ∷ []
    else if c == 9
    then 92 ∷ b't' ∷ []
    else if c == 13 || c == 10
    then 92 ∷ b'n' ∷ []
    else c ∷ []

unfoldable pub escape_message : Text → Text
escape_message [] = []
escape_message (c ∷ cs) = escape c ++ escape_message cs

-- The line that `write_log_entry` writes.
unfoldable pub log_line : DiagnosticEntry → Text
unfolding escape_message
log_line e =
    e.timestamp ++ ((9 ∷ map to_upper e.level) ++ ((9 ∷ escape_message e.message) ++ (10 ∷ [])))

pub data ArchiveAnswer : Type 0 where
  invalid_name active_archive allowed : ArchiveAnswer

-- The guards of `delete_archive`, with whether a session is active and today's file.
unfoldable pub may_delete : Bool → Text → Text → ArchiveAnswer
unfolding is_log_file_name
may_delete active current name =
    if is_log_file_name name
    then (if active && text_eq name current then active_archive else allowed)
    else invalid_name

unfoldable pub may_read : Text → ArchiveAnswer
unfolding is_log_file_name
may_read name = if is_log_file_name name then allowed else invalid_name
