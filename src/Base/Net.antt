-- ===== src/Base/Net.antt =====
-- `std::net`: the text form of IPv4 and IPv6 addresses, as the parser reads it and as `Display`
-- writes it.
use Prim.Native.Nat.{ℕ, zero, suc, ◌+◌, ◌-◌, ◌*◌, ◌/◌, ◌%◌, ◌^◌}
use mathlib.Core.Path.{◌≡◌, refl}
use mathlib.Core.Bool.{Bool, true, false, ◌&&◌, ◌||◌, not}
use mathlib.Core.Option.{Option, none, some}
use mathlib.Core.List.{List, [], ◌∷◌, ◌++◌}
use h_openconnect.Base.Tests.{ltb, leb, ◌==◌, if◌then◌else◌}
use h_openconnect.Base.Lists.{length, take, drop, is_empty}
use h_openconnect.Base.Str.{Text, codes, is_digit, decimal}

pub data IpAddr : Type 0 where
  v4 v6 : ℕ → IpAddr

-- A parser reads a value off the front of a text, or fails and reads nothing.
abbrev Parser : Type 0 → Type 0
Parser A = Text → Option (A × Text)

infixl 5 ◌>>=◌
abbrev ◌>>=◌ : {A B : Type 0} → Parser A → (A → Parser B) → Parser B
◌>>=◌ m f s = elim (m s) [ none ↦ none | some (a, rest) ↦ f a rest ]

abbrev pure : {A : Type 0} → A → Parser A
pure a s = some (a, s)

-- `read_given_char`
read_char : ℕ → Parser ℕ
read_char d [] = none
read_char d (c ∷ cs) = if c == d then some (c, cs) else none

-- The value of a digit of radix 10 or 16.
digit_value : ℕ → ℕ → Option ℕ
unfolding is_digit
digit_value radix c =
    if is_digit c
    then some (c - b'0')
    else if radix == 16 && leb b'a' c && leb c b'f'
    then some (c - b'a' + 10)
    else if radix == 16 && leb b'A' c && leb c b'F'
    then some (c - b'A' + 10)
    else none

-- `read_number`: at most `digits` digits, and one more digit is an error.
read_digits : ℕ → ℕ → ℕ → ℕ → Text → Option (ℕ × ℕ × Text)
unfolding digit_value
read_digits radix zero seen n [] = some (seen, n, [])
read_digits radix zero seen n (c ∷ cs) = elim (digit_value radix c) [
  | none ↦ some (seen, n, c ∷ cs)
  | some d ↦ none
]
read_digits radix (suc left) seen n [] = some (seen, n, [])
read_digits radix (suc left) seen n (c ∷ cs) = elim (digit_value radix c) [
  | none ↦ some (seen, n, c ∷ cs)
  | some d ↦ read_digits radix left (suc seen) (n * radix + d) cs
]

has_leading_zero : Text → Bool
has_leading_zero [] = false
has_leading_zero (c ∷ cs) = c == b'0'

read_number : ℕ → ℕ → ℕ → Bool → Parser ℕ
unfolding read_digits has_leading_zero
read_number radix digits max zero_prefix s = elim (read_digits radix digits 0 0 s) [
  | none ↦ none
  | some (seen, n, rest) ↦
      if seen == 0 || ltb max n || (not zero_prefix && has_leading_zero s && ltb 1 seen)
      then none
      else some (n, rest)
]

read_octet : Parser ℕ
unfolding read_number
read_octet = read_number 10 3 255 false

unfoldable pub read_ipv4 : Parser ℕ
unfolding read_octet read_char
read_ipv4 = do
  a ← read_octet
  _ ← read_char b'.'
  b ← read_octet
  _ ← read_char b'.'
  c ← read_octet
  _ ← read_char b'.'
  d ← read_octet
  pure (a * 2 ^ 24 + b * 2 ^ 16 + c * 2 ^ 8 + d)

-- A separator stands before every group but the first.
read_separator : Bool → Parser ℕ
unfolding read_char
read_separator true = pure 0
read_separator false = read_char b':'

abbrev at_separator : {A : Type 0} → Bool → Parser A → Parser A
at_separator first p = do _ ← read_separator first; p

-- `read_groups`: the 16-bit groups read, whether they end in an embedded IPv4 address, and the rest.
read_groups : ℕ → Bool → Text → List ℕ × Bool × Text
unfolding read_separator read_number read_ipv4
read_groups zero first s = ([], false, s)
read_groups (suc left) first s =
    let embedded : Option (ℕ × Text) =
      if ltb 0 left then at_separator first read_ipv4 s else none in
    elim embedded [
      | some (a, rest) ↦ (a / 2 ^ 16 ∷ a % 2 ^ 16 ∷ [], true, rest)
      | none ↦ elim (at_separator first (read_number 16 4 0xFFFF true) s) [
        | none ↦ ([], false, s)
        | some (g, rest) ↦
            (let (gs, v4_end, rest') = read_groups left false rest in (g ∷ gs, v4_end, rest'))
      ]
    ]

zeros : ℕ → List ℕ
zeros zero = []
zeros (suc n) = 0 ∷ zeros n

abbrev join_groups : List ℕ → ℕ → ℕ
join_groups [] n = n
join_groups (g ∷ gs) n = join_groups gs (n * 2 ^ 16 + g)

-- After fewer than eight groups comes `::`, and up to seven groups in all.
unfoldable pub read_ipv6 : Parser ℕ
unfolding read_groups read_char zeros
read_ipv6 s =
    let (head, head_ipv4, rest) = read_groups 8 true s in
    if length head == 8
    then some (join_groups head 0, rest)
    else if head_ipv4
    then none
    else (do
      _ ← read_char b':'
      _ ← read_char b':'
      λ r.
          (let (tail, _, rest') = read_groups (7 - length head) true r in
            some (join_groups (head ++ zeros (8 - length head - length tail) ++ tail) 0, rest')))
        rest

-- The whole text must be read.
abbrev complete : {A : Type 0} → Option (A × Text) → Option A
complete none = none
complete (some (a, rest)) = if is_empty rest then some a else none

unfoldable pub parse_ipv6 : Text → Option ℕ
unfolding read_ipv6
parse_ipv6 s = complete (read_ipv6 s)

unfoldable pub parse_ip : Text → Option IpAddr
unfolding read_ipv4 read_ipv6
parse_ip s = elim (read_ipv4 s) [
  | some (a, rest) ↦ complete (some (v4 a, rest))
  | none ↦ elim (read_ipv6 s) [ none ↦ none | some (a, rest) ↦ complete (some (v6 a, rest)) ]
]

unfoldable pub format_ipv4 : ℕ → Text
format_ipv4 a =
    decimal (a / 2 ^ 24 % 256)
    ++ (b'.' ∷ decimal (a / 2 ^ 16 % 256))
    ++ (b'.' ∷ decimal (a / 2 ^ 8 % 256))
    ++ (b'.' ∷ decimal (a % 256))

hex_digit : ℕ → ℕ
hex_digit d = if ltb d 10 then b'0' + d else b'a' + (d - 10)

hex_fuel : ℕ → ℕ → Text
unfolding hex_digit
hex_fuel zero n = []
hex_fuel (suc fuel) n =
    let rest = hex_fuel fuel (n / 16) ++ (hex_digit (n % 16) ∷ []) in
    if ltb n 16 then hex_digit n ∷ [] else rest

-- `fmt_subslice`
format_groups : List ℕ → Text
unfolding hex_fuel
format_groups [] = []
format_groups (g ∷ []) = hex_fuel 4 g
format_groups (g ∷ h ∷ gs) = hex_fuel 4 g ++ (b':' ∷ format_groups (h ∷ gs))

segments_fuel : ℕ → ℕ → List ℕ → List ℕ
segments_fuel zero a out = out
segments_fuel (suc k) a out = segments_fuel k (a / 2 ^ 16) (a % 2 ^ 16 ∷ out)

-- The first longest run of zero groups, as its start and length: `(i, run start, run length, best)`.
zero_span : List ℕ → ℕ → ℕ → ℕ → ℕ × ℕ → ℕ × ℕ
zero_span [] i start len best = best
zero_span (g ∷ gs) i start len (bs, bl) =
    let start' = if g == 0 && ltb 0 len then start else i in
    let len' = if g == 0 then (if ltb 0 len then len + 1 else 1) else 0 in
    zero_span gs (i + 1) start' len' (if ltb bl len' then (start', len') else (bs, bl))

unfoldable pub format_ipv6 : ℕ → Text
unfolding format_groups segments_fuel zero_span
format_ipv6 a =
    let segments = segments_fuel 8 a [] in
    let (start, len) = zero_span segments 0 0 0 (0, 0) in
    if a / 2 ^ 32 == 0xFFFF
    then codes "::ffff:" ++ format_ipv4 (a % 2 ^ 32)
    else if ltb 1 len
    then format_groups (take start segments)
      ++ (codes "::" ++ format_groups (drop (start + len) segments))
    else format_groups segments

parse_ip_v4_test : parse_ip (codes "10.0.0.1") ≡ some (v4 (10 * 2 ^ 24 + 1))
unfolding parse_ip
parse_ip_v4_test = refl

parse_ip_zero_test : parse_ip (codes "10.0.0.01") ≡ none
unfolding parse_ip
parse_ip_zero_test = refl

parse_ip_v6_test : parse_ip (codes "fd00::1.2.3.4") ≡ some (v6 (0xfd00 * 2 ^ 112 + 0x01020304))
unfolding parse_ip
parse_ip_v6_test = refl

parse_ip_full_test :
    parse_ip (codes "1:2:3:4:5:6:7::") ≡ some (v6 0x00010002000300040005000600070000)
unfolding parse_ip
parse_ip_full_test = refl

format_ipv6_test : format_ipv6 (0x20010db8 * 2 ^ 96 + 2 ^ 64 + 1) ≡ codes "2001:db8:0:1::1"
unfolding format_ipv6 decimal
format_ipv6_test = refl

format_ipv4_test : format_ipv4 (192 * 2 ^ 24 + 168 * 2 ^ 16 + 7) ≡ codes "192.168.0.7"
unfolding format_ipv4 decimal
format_ipv4_test = refl
