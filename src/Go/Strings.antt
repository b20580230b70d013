-- ===== src/Go/Strings.antt =====
-- The functions of Go's strings, strconv and net/textproto packages that the program calls, on
-- strings of bytes.
use multi_threaded_web_serve.Base.{
  ℕ, zero, suc, ◌+◌, ◌-◌, ◌*◌, Bool, true, false, ◌&&◌, ◌||◌, List, [], ◌∷◌, ◌++◌, Option, none,
  some, reverse, leb, ◌==◌, ℤ, pos, negsuc, within, if◌then◌else◌, Bytes, is_empty,
}

abbrev pub ascii_space : ℕ → Bool
ascii_space b = within 9 13 b || b == 32

-- The width of the encoding of a white space at the head of a string, 0 if there is none. UTF-8
-- synchronizes itself: such bytes are a rune wherever they stand.
unfoldable pub wide_space : ℕ → Bytes → ℕ
wide_space a [] = 0
wide_space a (b ∷ []) = if a == 0xC2 && (b == 0x85 || b == 0xA0) then 2 else 0
wide_space a (b ∷ c ∷ s) =
    if a == 0xC2 && (b == 0x85 || b == 0xA0)
    then 2
    else if a == 0xE1 && b == 0x9A && c == 0x80
    then 3
    else if a == 0xE2
        && ((b == 0x80 && (within 0x80 0x8A c || c == 0xA8 || c == 0xA9 || c == 0xAF))
            || (b == 0x81 && c == 0x9F))
    then 3
    else if a == 0xE3 && b == 0x80 && c == 0x80
    then 3
    else 0

unfoldable pub space_width : Bytes → ℕ
unfolding wide_space
space_width [] = 0
space_width (a ∷ s) = if ascii_space a then 1 else wide_space a s

-- The same on a string read from its end.
unfoldable pub space_width_back : Bytes → ℕ
unfolding wide_space
space_width_back [] = 0
space_width_back (c ∷ []) = if ascii_space c then 1 else 0
space_width_back (c ∷ b ∷ []) = if ascii_space c then 1 else wide_space b (c ∷ [])
space_width_back (c ∷ b ∷ a ∷ s) =
    if ascii_space c
    then 1
    else if wide_space b (c ∷ []) == 2
    then 2
    else if wide_space a (b ∷ c ∷ []) == 3
    then 3
    else 0

-- Drops white space at the head, by the given measure; the number is what is left of a rune.
unfoldable pub trim_by : (Bytes → ℕ) → ℕ → Bytes → Bytes
trim_by width left [] = []
trim_by width (suc left) (b ∷ s) = trim_by width left s
trim_by width zero (b ∷ s) = elim (width (b ∷ s)) [ zero ↦ b ∷ s | suc left ↦ trim_by width left s ]

-- strings.TrimSpace
unfoldable pub trim_space : Bytes → Bytes
unfolding trim_by space_width space_width_back
trim_space s = reverse (trim_by space_width_back 0 (reverse (trim_by space_width 0 s)))

abbrev pub flush_field : Bytes → List Bytes
flush_field [] = []
flush_field (b ∷ back) = reverse (b ∷ back) ∷ []

-- strings.Fields; `back` is the field that is being read, last byte first.
unfoldable pub fields_from : ℕ → Bytes → Bytes → List Bytes
unfolding space_width
fields_from left back [] = flush_field back
fields_from (suc left) back (b ∷ s) = fields_from left back s
fields_from zero back (b ∷ s) = elim (space_width (b ∷ s)) [
  | zero ↦ fields_from zero (b ∷ back) s
  | suc left ↦ flush_field back ++ fields_from left [] s
]

unfoldable pub fields : Bytes → List Bytes
unfolding fields_from
fields s = fields_from 0 [] s

-- strings.Cut at a byte.
unfoldable pub cut : ℕ → Bytes → Bytes × Bytes × Bool
cut sep [] = ([], [], false)
cut sep (b ∷ s) =
    let (before, after, ok) = cut sep s in
    if b == sep then ([], s, true) else (b ∷ before, after, ok)

-- strings.HasPrefix
unfoldable pub has_prefix : Bytes → Bytes → Bool
has_prefix s [] = true
has_prefix [] (b ∷ prefix) = false
has_prefix (a ∷ s) (b ∷ prefix) = a == b && has_prefix s prefix

-- strings.ContainsAny, on a set of bytes.
unfoldable pub contains_byte : Bytes → ℕ → Bool
contains_byte [] b = false
contains_byte (a ∷ s) b = a == b || contains_byte s b

unfoldable pub contains_any : Bytes → Bytes → Bool
unfolding contains_byte
contains_any [] chars = false
contains_any (b ∷ s) chars = contains_byte chars b || contains_any s chars

-- strings.Split at a byte: one part at least.
unfoldable pub split : ℕ → Bytes → Bytes → List Bytes
split sep back [] = reverse back ∷ []
split sep back (b ∷ s) = elim (b == sep) [
  | true ↦ reverse back ∷ split sep [] s
  | false ↦ split sep (b ∷ back) s
]

abbrev pub lower : ℕ → ℕ
lower b = if within b'A' b'Z' b then b + 32 else b

abbrev pub upper : ℕ → ℕ
upper b = if within b'a' b'z' b then b - 32 else b

-- What is left of a string behind a rune that folds to an ASCII letter: the letter in either case,
-- and by Unicode's simple folding the Kelvin sign for `k` and the long s for `s`.
unfoldable pub fold_head : ℕ → Bytes → Option Bytes
fold_head t [] = none
fold_head t (a ∷ []) = if lower a == lower t then some [] else none
fold_head t (a ∷ b ∷ []) =
    if lower a == lower t
    then some (b ∷ [])
    else if lower t == b's' && a == 0xC5 && b == 0xBF
    then some []
    else none
fold_head t (a ∷ b ∷ c ∷ s) =
    if lower a == lower t
    then some (b ∷ c ∷ s)
    else if lower t == b's' && a == 0xC5 && b == 0xBF
    then some (c ∷ s)
    else if lower t == b'k' && a == 0xE2 && b == 0x84 && c == 0xAA
    then some s
    else none

-- strings.EqualFold against an ASCII string.
unfoldable pub equal_fold : Bytes → Bytes → Bool
unfolding fold_head
equal_fold s [] = is_empty s
equal_fold s (t ∷ ts) = elim (fold_head t s) [ none ↦ false | some rest ↦ equal_fold rest ts ]

-- The bytes that textproto allows in a field name: the token characters of RFC 7230.
abbrev pub valid_header_field_byte : ℕ → Bool
valid_header_field_byte b =
    within b'0' b'9' b
    || within b'a' b'z' b
    || within b'A' b'Z' b
    || b == b'!'
    || within b'#' 39 b
    || b == b'*'
    || b == b'+'
    || b == b'-'
    || b == b'.'
    || within b'^' b'`' b
    || b == b'|'
    || b == b'~'

unfoldable pub all_valid : Bytes → Bool
all_valid [] = true
all_valid (b ∷ s) = valid_header_field_byte b && all_valid s

unfoldable pub canonical_from : Bool → Bytes → Bytes
canonical_from up [] = []
canonical_from up (b ∷ s) = (if up then upper b else lower b) ∷ canonical_from (b == b'-') s

-- textproto.CanonicalMIMEHeaderKey: a name with a byte that is not valid stays as it is.
unfoldable pub canonical_mime_header_key : Bytes → Bytes
unfolding all_valid canonical_from
canonical_mime_header_key name = if all_valid name then canonical_from true name else name

unfoldable pub decimal_value : ℕ → Bytes → ℕ
decimal_value n [] = n
decimal_value n (b ∷ s) = decimal_value (n * 10 + (b - b'0')) s

abbrev pub max_int : ℕ
max_int = 0x7FFFFFFFFFFFFFFF

-- strconv.Atoi on a string of decimal digits: the value, unless an `int` of 64 bits cannot hold it.
unfoldable pub atoi_digits : Bytes → Option ℕ
unfolding decimal_value
atoi_digits s = let n = decimal_value 0 s in if leb n max_int then some n else none

unfoldable pub all_digits : Bytes → Bool
all_digits [] = true
all_digits (b ∷ s) = within b'0' b'9' b && all_digits s

-- The digits behind a sign, up to the bound on the magnitude; there is one at least.
unfoldable pub atoi_magnitude : ℕ → Bytes → Option ℕ
unfolding all_digits decimal_value
atoi_magnitude bound [] = none
atoi_magnitude bound (b ∷ s) =
    if all_digits (b ∷ s) && leb (decimal_value 0 (b ∷ s)) bound
    then some (decimal_value 0 (b ∷ s))
    else none

abbrev pub negated : Option ℕ → Option ℤ
negated none = none
negated (some zero) = some (pos 0)
negated (some (suc n)) = some (negsuc n)

abbrev pub positive : Option ℕ → Option ℤ
positive none = none
positive (some n) = some (pos n)

-- strconv.Atoi: an optional sign and decimal digits, within the 64 bits of an `int`.
unfoldable pub atoi : Bytes → Option ℤ
unfolding atoi_magnitude
atoi [] = none
atoi (b ∷ s) =
    if b == b'-'
    then negated (atoi_magnitude (max_int + 1) s)
    else if b == b'+'
    then positive (atoi_magnitude max_int s)
    else positive (atoi_magnitude max_int (b ∷ s))
