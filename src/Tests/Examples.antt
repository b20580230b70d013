-- ===== src/Tests/Examples.antt =====
-- The theorems on the parser and the scanner, at concrete inputs.
use multi_threaded_web_serve.Go.Reader.{Reader, eof}
use multi_threaded_web_serve.Go.Reading.{rest}
use multi_threaded_web_serve.Http.Accepted.{IsAccepted, parse_request-IsAccepted}
use multi_threaded_web_serve.Http.Action.{out_of_fuel}
use multi_threaded_web_serve.Http.Body.{read_body, read_chunked_body}
use multi_threaded_web_serve.Http.Chars.{max_body_bytes, max_header_count, parse_chunk_size}
use multi_threaded_web_serve.Http.Ends.{read_chunked_body-ends}
use multi_threaded_web_serve.Http.Inspection.{inspect_body, read_body_sound}
use multi_threaded_web_serve.Http.Lines.{
  crlf, has_crlf, read_line_limited_complete, read_line_limited_sound,
}
use multi_threaded_web_serve.Http.Parser.{parse_request}
use multi_threaded_web_serve.Http.Read.{read_headers, read_line_limited}
use multi_threaded_web_serve.Http.Sizes.{hex_number, parse_chunk_size_iff, size_digits}
use multi_threaded_web_serve.Tests.{small, chunks, wire, reader, request}
use multi_threaded_web_serve.Waf.Automaton.{new, root}
use multi_threaded_web_serve.Waf.Normalize.{normalize}
use multi_threaded_web_serve.Waf.Scanner.{clean, new_scanner}
use multi_threaded_web_serve.Waf.Stream.{scan-normalize}
use multi_threaded_web_serve.Waf.Walk.{scan, walk}
use multi_threaded_web_serve.Base.{
  ◌≡◌, ◌≢◌, ◌↔◌, ◌≤◌, refl, arith, [], ◌∷◌, ◌++◌, none, some, codes, false, is_empty, length, ok,
  err,
}
use multi_threaded_web_serve.Go.Reader.{content}

parsed : parse_request (some small) (reader wire) ≡ ok (request, reader (codes "NEXT" ∷ []))
unfolding parse_request new normalize
parsed = refl

parse_request-IsAccepted_example : IsAccepted (some small) request
parse_request-IsAccepted_example =
    parse_request-IsAccepted (some small) (reader wire) (reader (codes "NEXT" ∷ [])) request parsed

scan-normalize_example :
    (scan small (codes "uri") new_scanner (codes "/a/./../b")).1
    ≡ walk small.nodes (codes "uri") root (normalize (codes "/a/./../b"))
scan-normalize_example = scan-normalize small (codes "uri") (codes "/a/./../b")

read_chunked_body-ends_example :
    read_chunked_body (some small) (reader (chunks ∷ [])) ≢ err out_of_fuel
read_chunked_body-ends_example = read_chunked_body-ends (some small) (reader (chunks ∷ []))

read_some :
    read_body none 3 (reader (codes "ab" ∷ codes "cd" ∷ []))
    ≡ ok (codes "abc", reader (codes "d" ∷ []))
unfolding read_body
read_some = refl

read_body_sound_example :
    (content (codes "ab" ∷ codes "cd" ∷ []) ≡ codes "abc" ++ content (codes "d" ∷ []))
    × (length (codes "abc") ≡ 3)
    × (inspect_body none (codes "abc") ≡ clean)
    × (eof ≡ eof)
read_body_sound_example =
    read_body_sound none 3 (reader (codes "ab" ∷ codes "cd" ∷ [])) (reader (codes "d" ∷ []))
      (codes "abc") read_some

collected :
    read_chunked_body none (reader (chunks ∷ []))
    ≡ ok ((codes "abcde", (codes "X-T", codes "v") ∷ []), reader (codes "NEXT" ∷ []))
unfolding read_chunked_body
collected = refl

parse_chunk_size_iff_example : (parse_chunk_size (codes "a;x") ≡ ok 10) ↔ (
    (is_empty (size_digits (codes "a;x")) ≡ false)
    × (hex_number 0 (size_digits (codes "a;x")) ≡ some 10)
    × (10 ≤ max_body_bytes))
parse_chunk_size_iff_example = parse_chunk_size_iff (codes "a;x") 10

abbrev two_lines : Reader
two_lines = reader (codes "a\rb\r\nc" ∷ [])

read_one : read_line_limited 5 two_lines ≡ ok (codes "a\rb", reader (codes "c" ∷ []))
unfolding read_line_limited
read_one = refl

read_line_limited_sound_example :
    (rest two_lines ≡ codes "a\rb" ++ crlf ++ rest (reader (codes "c" ∷ [])))
    × (has_crlf (codes "a\rb") ≡ false)
    × (5 ≤ 5)
    × (eof ≡ eof)
read_line_limited_sound_example =
    read_line_limited_sound 5 two_lines (reader (codes "c" ∷ [])) (codes "a\rb") read_one

no_crlf : has_crlf (codes "a\rb") ≡ false
unfolding has_crlf
no_crlf = refl

splits : rest two_lines ≡ codes "a\rb" ++ crlf ++ codes "c"
unfolding content
splits = refl

read_line_limited_complete_example :
    (q : Reader) × (read_line_limited 5 two_lines ≡ ok (codes "a\rb", q))
    × (rest q ≡ codes "c")
    × (q.fault ≡ eof)
read_line_limited_complete_example =
    read_line_limited_complete 5 two_lines (codes "a\rb") (codes "c") splits no_crlf (omega arith)

read_two :
    read_headers none max_header_count [] [] (reader (codes "host: h\r\nA:  b\r\n\r\n" ∷ []))
    ≡ ok ((codes "Host", codes "h") ∷ (codes "A", codes "b") ∷ [], reader ([] ∷ []))
unfolding read_headers
read_two = refl
