-- ===== src/Http/Errors/Whole.antt =====
-- http/parser.go: the errors of `parseRequest`.
use multi_threaded_web_serve.Go.Strings.{atoi_digits, contains_any, trim_space}
use multi_threaded_web_serve.Http.Action.{
  ParseError, body_too_large, invalid_content_length, invalid_host, missing_host, reject_if,
  transfer_encoding_with_content_length, unsupported_version,
}
use multi_threaded_web_serve.Http.Body.{read_body}
use multi_threaded_web_serve.Http.Chars.{
  is_chunked_transfer_encoding, is_decimal, max_body_bytes, max_header_count,
}
use multi_threaded_web_serve.Http.Errors.{
  Errs, Honest, >>=-Errs, fail-Errs, pure-Errs, reject_if-Errs,
}
use multi_threaded_web_serve.Http.Errors.Bodies.{read_body-Errs, read_chunked_body-Errs}
use multi_threaded_web_serve.Http.Errors.Lines.{read_headers-Errs, read_request_line-Errs}
use multi_threaded_web_serve.Http.Parser.{
  announced_length, check_host, check_transfer_encoding, content_length, encoding_check,
  has_chunked, host_check, length_check, parse_request, read_framed,
}
use multi_threaded_web_serve.Http.Read.{read_headers, read_request_line}
use multi_threaded_web_serve.Waf.Automaton.{Automaton}
use multi_threaded_web_serve.Base.{
  ℕ, Bool, true, false, not, [], refl, Option, none, some, ltb, Bytes, codes, is_empty, lookup,
  same,
}

module _ (Q : ParseError → Type 0) {a : Option Automaton} (o : Honest Q a) where
  encoding_check-Errs : (te cl : Option Bytes) → Errs Q (encoding_check te cl)
  unfolding encoding_check
  encoding_check-Errs none cl = pure-Errs Q tt
  encoding_check-Errs (some coding) (some n) =
      fail-Errs Q transfer_encoding_with_content_length (o.plain _ refl)
  encoding_check-Errs (some coding) none =
      reject_if-Errs Q (not (is_chunked_transfer_encoding coding)) _ (o.plain _ refl)

  host_check-Errs : (host : Option Bytes) → Errs Q (host_check host)
  unfolding host_check
  host_check-Errs none = fail-Errs Q missing_host (o.plain _ refl)
  host_check-Errs (some host) =
      >>=-Errs Q (reject_if (is_empty (trim_space host)) missing_host) _
        (reject_if-Errs Q _ _ (o.plain _ refl))
        λ _. reject_if-Errs Q (contains_any host (codes " \t\r\n")) invalid_host (o.plain _ refl)

  length_check-Errs : (cl : Bytes) (n : Option ℕ) → Errs Q (length_check cl n)
  unfolding length_check
  length_check-Errs cl none = fail-Errs Q (invalid_content_length cl) (o.plain _ refl)
  length_check-Errs cl (some n) =
      >>=-Errs Q (reject_if (ltb max_body_bytes n) body_too_large) _
        (reject_if-Errs Q _ _ (o.plain _ refl)) λ _. pure-Errs Q n

  announced_length-Errs : (cl : Option Bytes) → Errs Q (announced_length cl)
  unfolding announced_length
  announced_length-Errs none = pure-Errs Q 0
  announced_length-Errs (some cl) =
      >>=-Errs Q (reject_if (not (is_decimal cl)) (invalid_content_length cl)) _
        (reject_if-Errs Q _ _ (o.plain _ refl)) λ _. length_check-Errs cl (atoi_digits cl)

  read_framed-Errs : (chunked : Bool) (n : ℕ) → Errs Q (read_framed a chunked n)
  unfolding read_framed
  read_framed-Errs true n = read_chunked_body-Errs Q o
  read_framed-Errs false n =
      >>=-Errs Q (read_body a n) _ (read_body-Errs Q o n) λ body. pure-Errs Q (body, [])

  pub parse_request-Errs : Errs Q (parse_request a)
  unfolding parse_request check_transfer_encoding check_host content_length
  parse_request-Errs =
      >>=-Errs Q (read_request_line a) _ (read_request_line-Errs Q o) λ (method, path, version).
        >>=-Errs Q (reject_if (not (same version (codes "HTTP/1.1"))) (unsupported_version version))
          _ (reject_if-Errs Q _ _ (o.plain _ refl))
          λ _.
            >>=-Errs Q (read_headers a max_header_count [] []) _
              (read_headers-Errs Q o max_header_count [] [])
              λ headers.
                >>=-Errs Q (check_transfer_encoding headers) _
                  (encoding_check-Errs (lookup (codes "Transfer-Encoding") headers)
                    (lookup (codes "Content-Length") headers))
                  λ _.
                    >>=-Errs Q (check_host headers) _
                      (host_check-Errs (lookup (codes "Host") headers))
                      λ _.
                        >>=-Errs Q (content_length headers) _
                          (announced_length-Errs (lookup (codes "Content-Length") headers))
                          λ n.
                            >>=-Errs Q
                              (read_framed a
                                (has_chunked (lookup (codes "Transfer-Encoding") headers)) n)
                              _
                              (read_framed-Errs
                                (has_chunked (lookup (codes "Transfer-Encoding") headers)) n)
                              λ (body, trailers). pure-Errs Q _
