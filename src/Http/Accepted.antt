-- ===== src/Http/Accepted.antt =====
-- http/parser.go: every request that `parseRequest` accepts is well formed, is framed in one way,
-- and has been inspected whole.
use multi_threaded_web_serve.Go.Reader.{Reader}
use multi_threaded_web_serve.Go.Strings.{fields as words}
use multi_threaded_web_serve.Http.Action.{
  bind_ok, invalid_method, pass-eq-ok, pure, reject_if-eq-ok, unsupported_request_target,
  unsupported_version, ◌>>=◌, ◌>>◌,
}
use multi_threaded_web_serve.Http.Chars.{is_origin_form, is_token, max_header_count}
use multi_threaded_web_serve.Http.Fields.{AreFields, IsField, not-not, read_headers_sound}
use multi_threaded_web_serve.Http.Framing.{
  Announces, HasHost, IsBody, OneFraming, announced, check_host_sound,
  check_transfer_encoding_sound, content_length_sound, read_framed_sound, transfer_encoding,
}
use multi_threaded_web_serve.Http.Parser.{
  Request, check_host, check_transfer_encoding, content_length, has_chunked, parse_request,
  read_framed,
}
use multi_threaded_web_serve.Http.Read.{
  Headers, check_parts, read_headers, read_line_limited, read_request_line, scan_field,
}
use multi_threaded_web_serve.Waf.Automaton.{Automaton}
use multi_threaded_web_serve.Waf.Scanner.{clean}
use multi_threaded_web_serve.Base.{
  ◌<◌, true, not, List, [], ◌∷◌, ◌≡◌, Option, none, Bytes, codes, length, lookup, ok, ok_injective,
  same, same_iff,
}

-- The request line that is accepted.
pub record IsRequestLine (a : Option Automaton) (method target : Bytes) : Type 0 where
  pub token : is_token method ≡ true
  pub target_form : is_origin_form method target ≡ true
  pub inspected : scan_field a (codes "uri") target ≡ clean

check_parts_sound :
    (a : Option Automaton) (parts : List Bytes) (r q : Reader) (method target version : Bytes)
    → check_parts a parts r ≡ ok ((method, target, version), q)
    → IsRequestLine a method target
unfolding check_parts
check_parts_sound a [] r q method target version h = absurd (cc)
check_parts_sound a (m ∷ []) r q method target version h = absurd (cc)
check_parts_sound a (m ∷ t ∷ []) r q method target version h = absurd (cc)
check_parts_sound a (m ∷ t ∷ v ∷ w ∷ parts) r q method target version h = absurd (cc)
check_parts_sound a (m ∷ t ∷ v ∷ []) r q method target version h =
    let (token, h1) = reject_if-eq-ok (not (is_token m)) (invalid_method m) _ r h in
    let (form, h2) =
      reject_if-eq-ok (not (is_origin_form m t)) (unsupported_request_target t) _ r h1 in
    let (c, h3) = pass-eq-ok (scan_field a (codes "uri") t) _ r h2 in
    let m_is : m ≡ method = cc in
    let t_is : t ≡ target = cc in
    rw (← m_is, ← t_is)
      (record { token = not-not _ token; target_form = not-not _ form; inspected = c })

read_request_line_sound :
    (a : Option Automaton) (r q : Reader) (method target version : Bytes)
    → read_request_line a r ≡ ok ((method, target, version), q)
    → IsRequestLine a method target
unfolding read_request_line
read_request_line_sound a r q method target version h =
    bind_ok (read_line_limited 4096) _ r h
      λ line p _ k. check_parts_sound a (words line) p q method target version k

pub record IsAccepted (a : Option Automaton) (req : Request) : Type 0 where
  pub request_line : IsRequestLine a req.method req.path
  pub version : req.version ≡ codes "HTTP/1.1"
  pub fields : AreFields (IsField a) req.headers
  pub few_headers : length req.headers < max_header_count
  pub host : HasHost (lookup (codes "Host") req.headers)
  pub framing : OneFraming req.headers
  pub body : IsBody a req.body req.trailers
  pub length_is :
      transfer_encoding req.headers ≡ none → Announces (announced req.headers) (length req.body)

abbrev request : Bytes → Bytes → Bytes → Headers → Bytes → Headers → Request
request method path version headers body trailers = record {
  method = method;
  path = path;
  version = version;
  headers = headers;
  trailers = trailers;
  body = body;
}

parse_headers_sound :
    (a : Option Automaton) (method path version : Bytes) (headers : Headers) (r q : Reader)
    (req : Request)
    → IsRequestLine a method path
    → same version (codes "HTTP/1.1") ≡ true
    → AreFields (IsField a) headers × (length headers < max_header_count)
    → (do
      check_transfer_encoding headers
      check_host headers
      n ← content_length headers
      (body, trailers) ← read_framed a (has_chunked (transfer_encoding headers)) n
      pure (request method path version headers body trailers))
        r
      ≡ ok (req, q)
    → IsAccepted a req
parse_headers_sound a method path version headers r q req line v (fs, few) h =
    bind_ok (check_transfer_encoding headers) _ r h λ u1 r1 e1 h1.
      bind_ok (check_host headers) _ r1 h1 λ u2 r2 e2 h2.
        bind_ok (content_length headers) _ r2 h2 λ n r3 e3 h3.
          bind_ok (read_framed a (has_chunked (transfer_encoding headers)) n) _ r3 h3
            λ (body, trailers) r4 e4 h4.
              let (framing, _) = check_transfer_encoding_sound headers r r1 e1 in
              let (host, _) = check_host_sound headers r1 r2 e2 in
              let (announces, small, _) = content_length_sound headers r2 r3 n e3 in
              let (is_body, is_long) = read_framed_sound a _ n r3 r4 body trailers small e4 in
              rw (← (ok_injective h4).0) (record {
                request_line = line;
                version = (same_iff version _).0 v;
                fields = fs;
                few_headers = few;
                host = host;
                framing = framing;
                body = is_body;
                length_is = λ none_is. rw (is_long (rw none_is)) announces;
              })

-- A request that is accepted has a token for its method, a target in origin form (or "*" for
-- OPTIONS) and version HTTP/1.1. Its headers have distinct names, each the canonical form of a
-- token, and are fewer than `maxHeaderCount`; there is a host, not blank and without space, tab, CR or LF;
-- there is either no transfer coding, or one that folds to "chunked" and no length. The body is at
-- most `maxBodyBytes` long and, without a coding, as long as announced. The trailers have distinct
-- names in canonical form, none of them forbidden, and are fewer than `maxTrailerCount`. The scanner
-- has found nothing in the target, in any header or trailer value under its name, or in the body,
-- each taken as one value.
pub parse_request-IsAccepted :
    (a : Option Automaton) (r q : Reader) (req : Request)
    → parse_request a r ≡ ok (req, q)
    → IsAccepted a req
unfolding parse_request
parse_request-IsAccepted a r q req h =
    bind_ok (read_request_line a) _ r h λ (method, path, version) r1 e1 h1.
      let (v, h2) =
        reject_if-eq-ok (not (same version (codes "HTTP/1.1"))) (unsupported_version version) _ r1
          h1 in
      bind_ok (read_headers a max_header_count [] []) _ r1 h2 λ headers r3 e3 h3.
        parse_headers_sound a method path version headers r3 q req
          (read_request_line_sound a r r1 method path version e1) (not-not _ v)
          (read_headers_sound a r1 r3 headers e3) h3
