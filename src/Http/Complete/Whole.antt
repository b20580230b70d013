-- ===== src/Http/Complete/Whole.antt =====
-- http/parser.go: a whole request that is written on the wire, and what the parser makes of it.
use multi_threaded_web_serve.Go.Strings.{atoi_digits, decimal_value, max_int, trim_space}
use multi_threaded_web_serve.Go.Reader.{Reader}
use multi_threaded_web_serve.Go.Reading.{rest}
use multi_threaded_web_serve.Http.Action.{
  body_too_large, invalid_content_length, invalid_host, missing_host, pure, reject_if,
  unsupported_transfer_encoding,
}
use multi_threaded_web_serve.Http.Body.{read_body, read_chunked_body}
use multi_threaded_web_serve.Http.Chars.{
  is_chunked_transfer_encoding, is_decimal, max_body_bytes, max_header_count, max_trailer_count,
}
use multi_threaded_web_serve.Http.Complete.{Gives, >>=-Gives, pure-Gives, reject_if-Gives}
use multi_threaded_web_serve.Http.Complete.Bodies.{read_body-Gives}
use multi_threaded_web_serve.Http.Complete.Chunks.{
  AreChunks, Chunks, IsSizeLine, chunk_data, chunk_end, chunk_lines, read_chunked_body-Gives,
}
use multi_threaded_web_serve.Http.Complete.FieldLoops.{field_lines}
use multi_threaded_web_serve.Http.Complete.Fields.{
  AreWritten, IsWritten, IsWrittenTrailer, read_headers-Gives,
}
use multi_threaded_web_serve.Http.Complete.Words.{IsReadable, read_request_line-Gives, request_line}
use multi_threaded_web_serve.Http.Framing.{Announces, HasHost, announced, transfer_encoding}
use multi_threaded_web_serve.Http.Inspection.{inspect_body}
use multi_threaded_web_serve.Http.Lines.{crlf}
use multi_threaded_web_serve.Http.Parser.{
  Request, announced_length, check_host, check_transfer_encoding, content_length, encoding_check,
  has_chunked, host_check, length_check, parse_request, read_framed,
}
use multi_threaded_web_serve.Http.Read.{Headers, read_headers, read_request_line}
use multi_threaded_web_serve.Waf.Automaton.{Automaton}
use multi_threaded_web_serve.Waf.Scanner.{clean}
use multi_threaded_web_serve.Base.{
  ℕ, ◌≤◌, true, not, [], ◌++◌, ◌≡◌, ◌∙◌, refl, sym, ap, subst, append_assoc, Option, none, some,
  arith, Bytes, codes, is_empty, length, leb, lookup, ltb, ok,
}

-- The two forms of a body: as it is, or in chunks behind which trailers come.
pub data Payload : Type 0 where
  sized : Bytes → Payload
  in_chunks : Chunks → Bytes → Headers → Payload

abbrev pub payload_bytes : Payload → Bytes
payload_bytes (sized body) = body
payload_bytes (in_chunks chunks last trailers) = chunk_lines chunks ++ chunk_end last trailers

abbrev pub payload_body : Payload → Bytes
payload_body (sized body) = body
payload_body (in_chunks chunks last trailers) = chunk_data chunks

abbrev pub payload_trailers : Payload → Headers
payload_trailers (sized body) = []
payload_trailers (in_chunks chunks last trailers) = trailers

pub record Message : Type 0 where
  pub method : Bytes
  pub target : Bytes
  pub headers : Headers
  pub payload : Payload

abbrev pub wire : Message → Bytes
wire m =
    request_line m.method m.target
    ++ (crlf ++ (field_lines m.headers ++ (crlf ++ payload_bytes m.payload)))

abbrev pub meaning : Message → Request
meaning m = record {
  method = m.method;
  path = m.target;
  version = codes "HTTP/1.1";
  headers = m.headers;
  trailers = payload_trailers m.payload;
  body = payload_body m.payload;
}

-- The headers say how the body is framed.
abbrev pub IsFramed : Option Automaton → Headers → Payload → Type 0
IsFramed a headers (sized body) =
    (transfer_encoding headers ≡ none) × Announces (announced headers) (length body)
IsFramed a headers (in_chunks chunks last trailers) =
    ((coding : Bytes) × (transfer_encoding headers ≡ some coding)
      × (is_chunked_transfer_encoding coding ≡ true))
    × (announced headers ≡ none)
    × AreChunks chunks
    × IsSizeLine 0 last
    × AreWritten (IsWrittenTrailer a) max_trailer_count trailers

pub record IsMessage (a : Option Automaton) (m : Message) : Type 0 where
  pub line : IsReadable a m.method m.target
  pub fields : AreWritten (IsWritten a) max_header_count m.headers
  pub host : HasHost (lookup (codes "Host") m.headers)
  pub framed : IsFramed a m.headers m.payload
  pub small : length (payload_body m.payload) ≤ max_body_bytes
  pub inspected : inspect_body a (payload_body m.payload) ≡ clean

host_check-Gives : (host : Option Bytes) (t : Bytes) → HasHost host → Gives (host_check host) t tt t
unfolding host_check
host_check-Gives none t h = absurd h
host_check-Gives (some host) t (there, plain) =
    >>=-Gives (reject_if (is_empty (trim_space host)) missing_host) _ (reject_if-Gives _ _ t there)
      (reject_if-Gives _ invalid_host t plain)

length_check-Gives :
    (cl t : Bytes)
    → decimal_value 0 cl ≤ max_body_bytes
    → Gives (length_check cl (atoi_digits cl)) t (decimal_value 0 cl) t
unfolding length_check atoi_digits
length_check-Gives cl t h =
    let fits : leb (decimal_value 0 cl) max_int ≡ true = ground (arith, h) in
    rw fits (
      >>=-Gives (reject_if (ltb max_body_bytes (decimal_value 0 cl)) body_too_large) _
        (reject_if-Gives _ _ t (ground (arith, h))) (pure-Gives (decimal_value 0 cl) t))

announced_length-Gives :
    (cl : Option Bytes) (n : ℕ) (t : Bytes)
    → Announces cl n
    → n ≤ max_body_bytes
    → Gives (announced_length cl) t n t
unfolding announced_length
announced_length-Gives none n t h small = subst (λ k. Gives (pure 0) t k t) (sym h) (pure-Gives 0 t)
announced_length-Gives (some cl) n t (digits, value) small =
    >>=-Gives (reject_if (not (is_decimal cl)) (invalid_content_length cl)) _
      (reject_if-Gives _ _ t (ap not digits))
      (subst (λ k. Gives (length_check cl (atoi_digits cl)) t k t) (sym value)
        (length_check-Gives cl t (subst (λ k. k ≤ max_body_bytes) value small)))

module _ (a : Option Automaton) (headers : Headers) where
  encoding_check-Gives :
      (p : Payload) (t : Bytes)
      → IsFramed a headers p
      → Gives (check_transfer_encoding headers) t tt t
  unfolding check_transfer_encoding encoding_check
  encoding_check-Gives (sized body) t (none_given, _) = rw none_given (pure-Gives tt t)
  encoding_check-Gives (in_chunks chunks last trailers) t
        ((coding, given, chunked), no_length, _, _, _) =
      rw (given, no_length)
        (reject_if-Gives _ (unsupported_transfer_encoding coding) t (ap not chunked))

  framed_length : Payload → ℕ
  framed_length (sized body) = length body
  framed_length (in_chunks chunks last trailers) = 0

  content_length-Gives :
      (p : Payload) (t : Bytes)
      → IsFramed a headers p
      → length (payload_body p) ≤ max_body_bytes
      → Gives (content_length headers) t (framed_length p) t
  unfolding content_length framed_length
  content_length-Gives (sized body) t (_, said) small =
      announced_length-Gives (announced headers) (length body) t said small
  content_length-Gives (in_chunks chunks last trailers) t (_, no_length, _, _, _) small =
      announced_length-Gives (announced headers) 0 t
        (subst (λ cl. Announces cl 0) (sym no_length) refl) (omega arith)

  read_framed-Gives :
      (p : Payload) (t : Bytes)
      → IsFramed a headers p
      → length (payload_body p) ≤ max_body_bytes
      → inspect_body a (payload_body p) ≡ clean
      → Gives
          (read_framed a (has_chunked (transfer_encoding headers)) (framed_length p))
          (payload_bytes p ++ t)
          (payload_body p, payload_trailers p)
          t
  unfolding read_framed framed_length
  read_framed-Gives (sized body) t (none_given, _) small i = rw none_given (
      >>=-Gives (read_body a (length body)) _ (read_body-Gives a (length body) body t refl i)
        (pure-Gives (body, []) t))
  read_framed-Gives (in_chunks chunks last trailers) t ((coding, given, chunked), _, cs, l, ts)
        small i =
      rw (given, chunked)
        (subst (λ s. Gives (read_chunked_body a) s (chunk_data chunks, trailers) t)
          (sym (append_assoc (chunk_lines chunks) (chunk_end last trailers) t))
          (read_chunked_body-Gives a chunks last trailers t cs l ts i small))

wire-parts :
    (m : Message) (t : Bytes)
    → wire m ++ t
      ≡ request_line m.method m.target
        ++ (crlf ++ (field_lines m.headers ++ (crlf ++ (payload_bytes m.payload ++ t))))
wire-parts m t =
    append_assoc (request_line m.method m.target) _ t
    ∙ ap (λ s. request_line m.method m.target ++ (crlf ++ s))
        (append_assoc (field_lines m.headers) (crlf ++ payload_bytes m.payload) t)

pub parse_request-Gives :
    (a : Option Automaton) (m : Message) (t : Bytes)
    → IsMessage a m
    → Gives (parse_request a) (wire m ++ t) (meaning m) t
unfolding parse_request check_host
parse_request-Gives a m t i =
    let body = payload_bytes m.payload ++ t in
    subst (λ s. Gives (parse_request a) s (meaning m) t) (sym (wire-parts m t))
      (>>=-Gives (read_request_line a) _ (read_request_line-Gives a m.method m.target _ i.line) (
        >>=-Gives (read_headers a max_header_count [] []) _
          (read_headers-Gives a m.headers body i.fields)
          (>>=-Gives (check_transfer_encoding m.headers) _
            (encoding_check-Gives a m.headers m.payload body i.framed)
            (>>=-Gives (host_check (lookup (codes "Host") m.headers)) _
              (host_check-Gives _ body i.host)
              (>>=-Gives (content_length m.headers) _
                (content_length-Gives a m.headers m.payload body i.framed i.small)
                (>>=-Gives
                  (read_framed a (has_chunked (transfer_encoding m.headers))
                    (framed_length a m.headers m.payload))
                  _ (read_framed-Gives a m.headers m.payload t i.framed i.small i.inspected)
                  (pure-Gives (meaning m) t)))))))

-- A message is well-formed where its parts keep to the parser's rules and limits, its names are
-- canonical and distinct, and the inspection of its target, header values, body and trailer values
-- finds nothing. On any reader that is to give the bytes of a well-formed message, in whatever
-- pieces, and then others, the parser returns the request that the message stands for, with the
-- parts of a chunked body together, and leaves the other bytes.
pub parse_request-wire :
    (a : Option Automaton) (m : Message) (t : Bytes) (r : Reader)
    → IsMessage a m
    → rest r ≡ wire m ++ t
    → (q : Reader) × (parse_request a r ≡ ok (meaning m, q)) × (rest q ≡ t) × (q.fault ≡ r.fault)
parse_request-wire a m t r i h = parse_request-Gives a m t i r h
