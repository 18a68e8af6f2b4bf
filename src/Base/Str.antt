-- ===== src/Base/Str.antt =====
-- Texts as lists of code points, and the functions on `str` that the program calls.
use Prim.Native.Char.{code}
use Prim.Native.String.{String}
use Prim.Native.Nat.{ℕ, zero, suc, ◌+◌, ◌-◌, ◌*◌, ◌/◌, ◌%◌}
use mathlib.Core.Path.{◌≡◌, refl}
use mathlib.Core.Logic.{◌↔◌}
use mathlib.Core.Bool.{Bool, true, false, ◌&&◌, ◌||◌, not}
use mathlib.Core.Option.{Option, none, some}
use mathlib.Core.List.{List, [], ◌∷◌, ◌++◌, map, reverse}
use native.Mathlib.Omega.{arith}
use h_openconnect.Base.Tests.{ltb, leb, ◌==◌, if◌then◌else◌, ==→eq, eq→==}
use h_openconnect.Base.Lists.{any, filter, is_empty}

abbrev pub Text : Type 0
Text = List ℕ

abbrev pub codes : String → Text
codes String.[] = []
codes (String.◌∷◌ c s) = code c ∷ codes s

-- `a == b` on strings.
unfoldable pub text_eq : Text → Text → Bool
text_eq [] [] = true
text_eq (x ∷ xs) (y ∷ ys) = x == y && text_eq xs ys
text_eq _ _ = false

pub text_eq_refl : (a : Text) → text_eq a a ≡ true
unfolding text_eq
text_eq_refl [] = refl
text_eq_refl (x ∷ xs) = ground (arith, eq→== x x refl, text_eq_refl xs)

pub text_eq→eq : (a b : Text) → text_eq a b ≡ true → a ≡ b
unfolding text_eq
text_eq→eq [] [] h = refl
text_eq→eq [] (y ∷ ys) h = ground arith
text_eq→eq (x ∷ xs) [] h = ground arith
text_eq→eq (x ∷ xs) (y ∷ ys) h = ground (arith, ==→eq x y, text_eq→eq xs ys)

pub text_eq_iff : (a b : Text) → (text_eq a b ≡ true) ↔ (a ≡ b)
text_eq_iff a b = (text_eq→eq a b, λ e. rw e (text_eq_refl b))

-- Whether a list of strings has a string, as `iter().any(|x| x == y)` and `HashSet::contains`.
unfoldable pub has_text : Text → List Text → Bool
has_text a [] = false
has_text a (x ∷ xs) = text_eq x a || has_text a xs

-- Unicode White_Space, which `char::is_whitespace` and `trim` use.
unfoldable pub is_whitespace : ℕ → Bool
is_whitespace c =
    (leb 9 c && leb c 13)
    || c == 32
    || c == 0x85
    || c == 0xA0
    || c == 0x1680
    || (leb 0x2000 c && leb c 0x200A)
    || c == 0x2028
    || c == 0x2029
    || c == 0x202F
    || c == 0x205F
    || c == 0x3000

unfoldable pub trim_start_matches : (ℕ → Bool) → Text → Text
trim_start_matches p [] = []
trim_start_matches p (c ∷ cs) = let rest = trim_start_matches p cs in if p c then rest else c ∷ cs

unfoldable pub trim : Text → Text
unfolding trim_start_matches is_whitespace
trim s = reverse (trim_start_matches is_whitespace (reverse (trim_start_matches is_whitespace s)))

abbrev prepend : ℕ → List Text → List Text
prepend c [] = (c ∷ []) ∷ []
prepend c (p ∷ ps) = (c ∷ p) ∷ ps

-- `s.split(p)`: there is always a first piece, and adjacent separators have an empty one between.
unfoldable pub split : (ℕ → Bool) → Text → List Text
split p [] = [] ∷ []
split p (c ∷ cs) = let rest = split p cs in if p c then [] ∷ rest else prepend c rest

-- `s.split_once(c)` at a character.
unfoldable pub split_once : ℕ → Text → Option (Text × Text)
split_once d [] = none
split_once d (c ∷ cs) =
    let rest = split_once d cs in
    if c == d then some ([], cs) else elim rest [ none ↦ none | some (a, b) ↦ some (c ∷ a, b) ]

unfoldable pub starts_with : Text → Text → Bool
starts_with s [] = true
starts_with [] (p ∷ ps) = false
starts_with (c ∷ cs) (p ∷ ps) = c == p && starts_with cs ps

unfoldable pub strip_prefix : Text → Text → Option Text
strip_prefix s [] = some s
strip_prefix [] (p ∷ ps) = none
strip_prefix (c ∷ cs) (p ∷ ps) = let rest = strip_prefix cs ps in if c == p then rest else none

unfoldable pub strip_suffix : Text → Text → Option Text
unfolding strip_prefix
strip_suffix s suffix = elim (strip_prefix (reverse s) (reverse suffix)) [
  | none ↦ none
  | some r ↦ some (reverse r)
]

-- `s.contains(c)` at a character, and at a string.
unfoldable pub contains_char : ℕ → Text → Bool
contains_char d s = any (λ c. c == d) s

unfoldable pub contains_text : Text → Text → Bool
unfolding starts_with
contains_text [] p = is_empty p
contains_text (c ∷ cs) p = starts_with (c ∷ cs) p || contains_text cs p

abbrev pub to_lower : ℕ → ℕ
to_lower c = if leb b'A' c && leb c b'Z' then c + 32 else c

unfoldable pub to_ascii_lowercase : Text → Text
to_ascii_lowercase = map to_lower

unfoldable pub eq_ignore_ascii_case : Text → Text → Bool
unfolding to_ascii_lowercase text_eq
eq_ignore_ascii_case a b = text_eq (to_ascii_lowercase a) (to_ascii_lowercase b)

unfoldable pub is_digit : ℕ → Bool
is_digit c = leb b'0' c && leb c b'9'

-- The decimal digits of a number, the lowest last; 40 digits hold 128 bits.
unfoldable pub digits_fuel : ℕ → ℕ → Text
digits_fuel zero n = []
digits_fuel (suc fuel) n =
    let rest = digits_fuel fuel (n / 10) ++ ((b'0' + n % 10) ∷ []) in
    if ltb n 10 then (b'0' + n) ∷ [] else rest

unfoldable pub decimal : ℕ → Text
unfolding digits_fuel
decimal n = digits_fuel 40 n

-- The digits of `parse::<uN>`; the value may not pass `max`.
unfoldable pub parse_digits : ℕ → ℕ → Text → Option ℕ
unfolding is_digit
parse_digits max n [] = some n
parse_digits max n (c ∷ cs) =
    let m = n * 10 + (c - b'0') in
    let rest = parse_digits max m cs in if is_digit c && leb m max then rest else none

-- `parse::<uN>()`: an optional plus sign, then at least one digit.
unfoldable pub parse_unsigned : ℕ → Text → Option ℕ
unfolding parse_digits
parse_unsigned max [] = none
parse_unsigned max (c ∷ []) = parse_digits max 0 (c ∷ [])
parse_unsigned max (c ∷ d ∷ ds) =
    if c == b'+' then parse_digits max 0 (d ∷ ds) else parse_digits max 0 (c ∷ d ∷ ds)

-- `trim` and `split`, run.
trim_test : trim (codes " a b\n") ≡ codes "a b"
unfolding trim
trim_test = refl

split_test : split (λ c. c == b',') (codes "a,,b") ≡ codes "a" ∷ [] ∷ codes "b" ∷ []
unfolding split
split_test = refl

parse_test : parse_unsigned 255 (codes "+012") ≡ some 12
unfolding parse_unsigned
parse_test = refl

parse_overflow_test : parse_unsigned 255 (codes "256") ≡ none
unfolding parse_unsigned
parse_overflow_test = refl

decimal_test : decimal 1280 ≡ codes "1280"
unfolding decimal
decimal_test = refl

-- `s.split_once(d)` at a string.
unfoldable pub split_once_text : Text → Text → Option (Text × Text)
unfolding strip_prefix
split_once_text d [] = elim (strip_prefix [] d) [ none ↦ none | some r ↦ some ([], r) ]
split_once_text d (c ∷ cs) =
    let rest = split_once_text d cs in
    elim (strip_prefix (c ∷ cs) d) [
      | some r ↦ some ([], r)
      | none ↦ elim rest [ none ↦ none | some (a, b) ↦ some (c ∷ a, b) ]
    ]

-- `split(p).map(str::trim).filter(|s| !s.is_empty())`
unfoldable pub words_by : (ℕ → Bool) → Text → List Text
unfolding split trim
words_by p s = filter (λ w. not (is_empty w)) (map trim (split p s))

-- A list without its later repetitions, as `retain(|x| seen.insert(x))` leaves it.
unfoldable pub retain_unseen : List Text → List Text → List Text
unfolding has_text
retain_unseen seen [] = []
retain_unseen seen (x ∷ xs) =
    let fresh = x ∷ retain_unseen (x ∷ seen) xs in
    let rest = retain_unseen seen xs in if has_text x seen then rest else fresh

unfoldable pub dedup : List Text → List Text
unfolding retain_unseen
dedup xs = retain_unseen [] xs
