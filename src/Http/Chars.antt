-- ===== src/Http/Chars.antt =====
-- http/parser.go: the tests on bytes and strings, and the size line of a chunk.
use multi_threaded_web_serve.Go.Strings.{cut, equal_fold, has_prefix, trim_space}
use multi_threaded_web_serve.Http.Action.{
  ParseError, chunk_size_too_large, empty_chunk_size, invalid_chunk_size,
}
use multi_threaded_web_serve.Base.{
  ℕ, ◌+◌, ◌-◌, ◌*◌, ◌/◌, Bool, true, false, not, ◌&&◌, ◌||◌, [], ◌∷◌, Option, none, some, ltb, leb,
  ◌==◌, within, if◌then◌else◌, Bytes, codes, same, is_empty, Result, ok, err,
}

abbrev pub max_request_line_bytes : ℕ
max_request_line_bytes = 4096

abbrev pub max_header_line_bytes : ℕ
max_header_line_bytes = 8192

abbrev pub max_header_count : ℕ
max_header_count = 64

abbrev pub max_trailer_count : ℕ
max_trailer_count = 16

abbrev pub max_body_bytes : ℕ
max_body_bytes = 1048576

unfoldable pub is_token_char : ℕ → Bool
is_token_char b =
    if within b'A' b'Z' b
    then true
    else if within b'a' b'z' b
    then true
    else if within b'0' b'9' b
    then true
    else b == b'!'
      || b == b'#'
      || b == b'$'
      || b == b'%'
      || b == b'&'
      || b == 39
      || b == b'*'
      || b == b'+'
      || b == b'-'
      || b == b'.'
      || b == b'^'
      || b == b'_'
      || b == b'`'
      || b == b'|'
      || b == b'~'

unfoldable pub all_bytes : (ℕ → Bool) → Bytes → Bool
all_bytes test [] = true
all_bytes test (b ∷ s) = test b && all_bytes test s

unfoldable pub is_token : Bytes → Bool
unfolding all_bytes is_token_char
is_token value = not (is_empty value) && all_bytes is_token_char value

unfoldable pub is_decimal : Bytes → Bool
unfolding all_bytes
is_decimal value = not (is_empty value) && all_bytes (within b'0' b'9') value

unfoldable pub is_origin_form : Bytes → Bytes → Bool
unfolding all_bytes has_prefix
is_origin_form method target =
    if same target (codes "*")
    then same method (codes "OPTIONS")
    else has_prefix target (codes "/") && all_bytes (λ b. not (leb b 31 || b == 127)) target

unfoldable pub is_chunked_transfer_encoding : Bytes → Bool
unfolding equal_fold trim_space
is_chunked_transfer_encoding value = equal_fold (trim_space value) (codes "chunked")

unfoldable pub is_forbidden_trailer : Bytes → Bool
is_forbidden_trailer name =
    same name (codes "Content-Length")
    || same name (codes "Host")
    || same name (codes "Transfer-Encoding")
    || same name (codes "Trailer")

unfoldable pub hex_value : ℕ → Option ℕ
hex_value b =
    if within b'0' b'9' b
    then some (b - b'0')
    else if within b'a' b'f' b
    then some (b - b'a' + 10)
    else if within b'A' b'F' b
    then some (b - b'A' + 10)
    else none

-- The loop of `parseChunkSize`; `line` is for the error.
unfoldable pub chunk_size_loop : Bytes → ℕ → Bytes → Result ParseError ℕ
unfolding hex_value
chunk_size_loop line size [] = ok size
chunk_size_loop line size (b ∷ s) = elim (hex_value b) [
  | none ↦ err (invalid_chunk_size line)
  | some value ↦ elim (ltb ((max_body_bytes - value) / 16) size) [
    | true ↦ err chunk_size_too_large
    | false ↦ chunk_size_loop line (size * 16 + value) s
  ]
]

-- The text before a ';', or the whole line.
abbrev pub size_text : Bytes × Bytes × Bool → Bytes → Bytes
size_text (value, _, ok?) line = if ok? then value else line

-- `parseChunkSize` on the trimmed text of the size.
unfoldable pub size_of_text : Bytes → Bytes → Result ParseError ℕ
unfolding chunk_size_loop
size_of_text line text = if is_empty text then err empty_chunk_size else chunk_size_loop line 0 text

unfoldable pub parse_chunk_size : Bytes → Result ParseError ℕ
unfolding size_of_text cut trim_space
parse_chunk_size line = size_of_text line (trim_space (size_text (cut b';' line) line))
