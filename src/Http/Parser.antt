-- ===== src/Http/Parser.antt =====
-- http/parser.go and http/request.go: a whole request.
use multi_threaded_web_serve.Go.Reader.{Reader}
use multi_threaded_web_serve.Go.Strings.{atoi_digits, contains_any, trim_space}
use multi_threaded_web_serve.Http.Action.{
  ParseError, nil_reader, transfer_encoding_with_content_length, missing_host, invalid_host,
  body_too_large, unsupported_version, unsupported_transfer_encoding, invalid_content_length,
  Action, ◌>>=◌, ◌>>◌, pure, fail, reject_if,
}
use multi_threaded_web_serve.Http.Body.{read_body, read_chunked_body}
use multi_threaded_web_serve.Http.Chars.{
  is_chunked_transfer_encoding, is_decimal, max_body_bytes, max_header_count,
}
use multi_threaded_web_serve.Http.Read.{Headers, read_headers, read_request_line}
use multi_threaded_web_serve.Waf.Automaton.{Automaton}
use multi_threaded_web_serve.Base.{
  ℕ, Bool, true, false, not, [], Option, none, some, ltb, Bytes, codes, same, is_empty, lookup,
  Result, err,
}

pub record Request : Type 0 where
  pub method : Bytes
  pub path : Bytes
  pub version : Bytes
  pub headers : Headers
  pub trailers : Headers
  pub body : Bytes

-- A coding with a length, or one that is not "chunked", is refused.
unfoldable pub encoding_check : Option Bytes → Option Bytes → Action (Unit {0})
encoding_check none length = pure tt
encoding_check (some coding) (some length) = fail transfer_encoding_with_content_length
encoding_check (some coding) none =
    reject_if (not (is_chunked_transfer_encoding coding)) (unsupported_transfer_encoding coding)

unfoldable pub check_transfer_encoding : Headers → Action (Unit {0})
unfolding encoding_check is_chunked_transfer_encoding
check_transfer_encoding headers =
    encoding_check (lookup (codes "Transfer-Encoding") headers)
      (lookup (codes "Content-Length") headers)

unfoldable pub host_check : Option Bytes → Action (Unit {0})
unfolding trim_space contains_any
host_check none = fail missing_host
host_check (some host) = do
  reject_if (is_empty (trim_space host)) missing_host
  reject_if (contains_any host (codes " \t\r\n")) invalid_host

unfoldable pub check_host : Headers → Action (Unit {0})
unfolding host_check
check_host headers = host_check (lookup (codes "Host") headers)

-- `strconv.Atoi` and the limit, on a string of digits.
unfoldable pub length_check : Bytes → Option ℕ → Action ℕ
length_check cl none = fail (invalid_content_length cl)
length_check cl (some n) = do reject_if (ltb max_body_bytes n) body_too_large; pure n

-- The length that the headers announce, 0 if none.
unfoldable pub announced_length : Option Bytes → Action ℕ
unfolding is_decimal atoi_digits length_check
announced_length none = pure 0
announced_length (some cl) = do
  reject_if (not (is_decimal cl)) (invalid_content_length cl)
  length_check cl (atoi_digits cl)

unfoldable pub content_length : Headers → Action ℕ
unfolding announced_length
content_length headers = announced_length (lookup (codes "Content-Length") headers)

abbrev pub has_chunked : Option Bytes → Bool
has_chunked none = false
has_chunked (some coding) = is_chunked_transfer_encoding coding

unfoldable pub read_framed : Option Automaton → Bool → ℕ → Action (Bytes × Headers)
unfolding read_chunked_body read_body
read_framed a true n = read_chunked_body a
read_framed a false n = do body ← read_body a n; pure (body, [])

unfoldable pub parse_request : Option Automaton → Action Request
unfolding read_request_line read_headers check_transfer_encoding check_host content_length
    read_framed lookup
parse_request a = do
  (method, path, version) ← read_request_line a
  reject_if (not (same version (codes "HTTP/1.1"))) (unsupported_version version)
  headers ← read_headers a max_header_count [] []
  check_transfer_encoding headers
  check_host headers
  n ← content_length headers
  (body, trailers) ← read_framed a (has_chunked (lookup (codes "Transfer-Encoding") headers)) n
  pure (record {
    method = method;
    path = path;
    version = version;
    headers = headers;
    trailers = trailers;
    body = body;
  })

-- `ParseRequest`, which is also given the case of a nil reader.
unfoldable pub parse : Option Automaton → Option Reader → Result ParseError (Request × Reader)
unfolding parse_request
parse a none = err nil_reader
parse a (some r) = parse_request a r
