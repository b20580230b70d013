-- ===== src/Http/Read.antt =====
-- http/parser.go: lines, the request line, header lines and trailers, with their inspection.
use multi_threaded_web_serve.Go.Reader.{ReadError, broken, eof, read_byte}
use multi_threaded_web_serve.Go.Strings.{canonical_mime_header_key, cut, fields, trim_space}
use multi_threaded_web_serve.Go.Url.{path_unescape}
use multi_threaded_web_serve.Http.Action.{
  ParseError, end_of_input, incomplete_line, malformed_request_line, too_many_headers,
  obsolete_folding, empty_header_name, too_many_trailers, io_failure, line_exceeds, invalid_method,
  unsupported_request_target, malformed_header, invalid_header_name, duplicate_header,
  forbidden_trailer, duplicate_trailer, Action, ◌>>=◌, ◌>>◌, pure, fail, reject_if, pass, byte_or,
}
use multi_threaded_web_serve.Http.Chars.{
  is_forbidden_trailer, is_origin_form, is_token, max_header_line_bytes, max_request_line_bytes,
  max_trailer_count,
}
use multi_threaded_web_serve.Waf.Automaton.{Automaton}
use multi_threaded_web_serve.Waf.Scanner.{Verdict, clean, new_scanner}
use multi_threaded_web_serve.Waf.Walk.{scan}
use multi_threaded_web_serve.Base.{
  ℕ, zero, suc, Bool, true, false, not, ◌&&◌, ◌||◌, List, [], ◌∷◌, ◌++◌, reverse, Option, none,
  some, ◌==◌, if◌then◌else◌, Bytes, codes, same, is_empty, contains, insert,
}

-- The error of `readLineLimited` where a read fails, behind the bytes `back`.
abbrev pub line_fault : Bytes → ReadError → ParseError
line_fault [] eof = end_of_input
line_fault (b ∷ back) eof = incomplete_line
line_fault back (broken code) = io_failure code

-- The byte ends the line, whose bytes so far are `back`, last byte first.
abbrev pub ends_line : Bytes → ℕ → Bool
ends_line [] b = false
ends_line (c ∷ back) b = c == b'\r' && b == b'\n'

-- The line without its last byte, in order.
abbrev pub without_cr : Bytes → Bytes
without_cr [] = []
without_cr (c ∷ back) = reverse back

-- The loop of `readLineLimited`, with room for so many bytes yet.
unfoldable pub read_line : ℕ → ℕ → Bytes → Action Bytes
read_line max_bytes zero back = do b ← byte_or (line_fault back); fail (line_exceeds max_bytes)
read_line max_bytes (suc room) back = do
  b ← byte_or (line_fault back)
  elim (ends_line back b) [
    | true ↦ pure (without_cr back)
    | false ↦ read_line max_bytes room (b ∷ back)
  ]

unfoldable pub read_line_limited : ℕ → Action Bytes
unfolding read_line read_byte
read_line_limited max_bytes = read_line max_bytes max_bytes []

-- The value that the scanner is shown: a URI is decoded where it can be.
abbrev pub decoded : Bytes → Option Bytes → Bytes
decoded value none = value
decoded value (some v) = v

unfoldable pub inspected : Bytes → Bytes → Bytes
unfolding path_unescape
inspected field value =
    if same field (codes "uri") then decoded value (path_unescape value) else value

unfoldable pub scan_field : Option Automaton → Bytes → Bytes → Verdict
unfolding scan inspected
scan_field none field value = clean
scan_field (some a) field [] = clean
scan_field (some a) field (b ∷ s) = (scan a field new_scanner (inspected field (b ∷ s))).1

-- `readRequestLine` on the parts of the line.
unfoldable pub check_parts : Option Automaton → List Bytes → Action (Bytes × Bytes × Bytes)
unfolding is_token is_origin_form scan_field
check_parts a (method ∷ target ∷ version ∷ []) = do
  reject_if (not (is_token method)) (invalid_method method)
  reject_if (not (is_origin_form method target)) (unsupported_request_target target)
  pass (scan_field a (codes "uri") target)
  pure (method, target, version)
check_parts a _ = fail malformed_request_line

unfoldable pub read_request_line : Option Automaton → Action (Bytes × Bytes × Bytes)
unfolding read_line_limited fields check_parts
read_request_line a = do
  line ← read_line_limited max_request_line_bytes
  check_parts a (fields line)

abbrev pub header_field : Bytes → Bytes
header_field name = codes "header:" ++ name

-- `readHeaderLine` from the trimmed name and value on.
unfoldable pub check_header : Option Automaton → Bytes → Bytes → Action (Option (Bytes × Bytes))
unfolding is_token canonical_mime_header_key scan_field
check_header a name value = do
  reject_if (is_empty name) empty_header_name
  reject_if (not (is_token name)) (invalid_header_name name)
  pass (scan_field a (header_field (canonical_mime_header_key name)) value)
  pure (some (canonical_mime_header_key name, value))

-- `readHeaderLine` on a line that is not empty.
unfoldable pub split_header :
    Option Automaton → Bytes → Bytes × Bytes × Bool → Action (Option (Bytes × Bytes))
unfolding trim_space check_header
split_header a line (name, value, ok?) = do
  reject_if (not ok?) (malformed_header line)
  check_header a (trim_space name) (trim_space value)

-- The name and the value, or `none` for the empty line that ends the headers.
unfoldable pub header_of_line : Option Automaton → Bytes → Action (Option (Bytes × Bytes))
unfolding split_header cut
header_of_line a [] = pure none
header_of_line a (b ∷ line) = do
  reject_if (b == b' ' || b == b'\t') obsolete_folding
  split_header a (b ∷ line) (cut b':' (b ∷ line))

unfoldable pub read_header_line : Option Automaton → Action (Option (Bytes × Bytes))
unfolding read_line_limited header_of_line
read_header_line a = do line ← read_line_limited max_header_line_bytes; header_of_line a line

abbrev pub Headers : Type 0
Headers = List (Bytes × Bytes)

-- The body of the header loop of `parseRequest` behind `readHeaderLine`; `next` is the next round.
unfoldable pub add_header :
    List Bytes
    → Headers
    → (List Bytes → Headers → Action Headers)
    → Option (Bytes × Bytes)
    → Action Headers
unfolding contains insert
add_header seen headers next none = pure headers
add_header seen headers next (some (name, value)) = do
  reject_if (contains name seen) (duplicate_header name)
  next (name ∷ seen) (insert name value headers)

-- The header loop of `parseRequest`, by the rounds that its limit leaves.
unfoldable pub read_headers : Option Automaton → ℕ → List Bytes → Headers → Action Headers
unfolding read_header_line add_header
read_headers a zero seen headers = fail too_many_headers
read_headers a (suc rounds) seen headers = do
  line ← read_header_line a
  add_header seen headers (read_headers a rounds) line

-- The body of the loop of `readTrailers`.
unfoldable pub add_trailer :
    List Bytes
    → Headers
    → (List Bytes → Headers → Action Headers)
    → Option (Bytes × Bytes)
    → Action Headers
unfolding contains insert is_forbidden_trailer
add_trailer seen trailers next none = pure trailers
add_trailer seen trailers next (some (name, value)) = do
  reject_if (is_forbidden_trailer name) (forbidden_trailer name)
  reject_if (contains name seen) (duplicate_trailer name)
  next (name ∷ seen) (insert name value trailers)

-- The loop of `readTrailers`.
unfoldable pub trailers_loop : Option Automaton → ℕ → List Bytes → Headers → Action Headers
unfolding read_header_line add_trailer
trailers_loop a zero seen trailers = fail too_many_trailers
trailers_loop a (suc rounds) seen trailers = do
  line ← read_header_line a
  add_trailer seen trailers (trailers_loop a rounds) line

unfoldable pub read_trailers : Option Automaton → Action Headers
unfolding trailers_loop
read_trailers a = trailers_loop a max_trailer_count [] []
