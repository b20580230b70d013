-- ===== src/Http/Errors/Lines.antt =====
-- http/parser.go: the errors of lines, headers and trailers.
use multi_threaded_web_serve.Go.Reader.{ReadError, broken, eof}
use multi_threaded_web_serve.Go.Strings.{canonical_mime_header_key, cut, fields, trim_space}
use multi_threaded_web_serve.Http.Action.{
  Action, ParseError, byte_or, duplicate_header, duplicate_trailer, empty_header_name,
  forbidden_trailer, invalid_header_name, invalid_method, line_exceeds, malformed_header,
  malformed_request_line, obsolete_folding, pass, pure, reject_if, too_many_headers,
  too_many_trailers, unsupported_request_target,
}
use multi_threaded_web_serve.Http.Chars.{
  is_forbidden_trailer, is_origin_form, is_token, max_header_line_bytes, max_request_line_bytes,
  max_trailer_count,
}
use multi_threaded_web_serve.Http.Errors.{
  Errs, Honest, >>=-Errs, byte_or-Errs, fail-Errs, is_plain, pass-Errs, pure-Errs, reject_if-Errs,
}
use multi_threaded_web_serve.Http.Read.{
  Headers, add_header, add_trailer, check_header, check_parts, ends_line, header_field,
  header_of_line, line_fault, read_header_line, read_headers, read_line, read_line_limited,
  read_request_line, read_trailers, scan_field, split_header, trailers_loop, without_cr,
}
use multi_threaded_web_serve.Waf.Automaton.{Automaton}
use multi_threaded_web_serve.Base.{
  ℕ, zero, suc, Bool, true, false, not, List, [], ◌∷◌, ◌≡◌, refl, Option, none, some, ◌==◌, ◌||◌,
  Bytes, codes, contains, insert, is_empty,
}

line_fault-plain : (back : Bytes) (e : ReadError) → is_plain (line_fault back e) ≡ true
line_fault-plain [] eof = refl
line_fault-plain [] (broken c) = refl
line_fault-plain (b ∷ back) eof = refl
line_fault-plain (b ∷ back) (broken c) = refl

module _ (Q : ParseError → Type 0) {a : Option Automaton} (o : Honest Q a) where
  on_end :
      (m : Action Bytes) (back : Bytes) (t : Bool)
      → Errs Q m
      → Errs Q (elim t [ true ↦ pure (without_cr back) | false ↦ m ])
  on_end m back true h = pure-Errs Q (without_cr back)
  on_end m back false h = h

  read_line-Errs : (max room : ℕ) (back : Bytes) → Errs Q (read_line max room back)
  unfolding read_line
  read_line-Errs max zero back =
      >>=-Errs Q (byte_or (line_fault back)) _
        (byte_or-Errs Q _ (λ e. o.plain (line_fault back e) (line_fault-plain back e)))
        (λ b. fail-Errs Q (line_exceeds max) (o.plain _ refl))
  read_line-Errs max (suc room) back =
      >>=-Errs Q (byte_or (line_fault back)) _
        (byte_or-Errs Q _ (λ e. o.plain (line_fault back e) (line_fault-plain back e)))
        (λ b.
          on_end (read_line max room (b ∷ back)) back (ends_line back b)
            (read_line-Errs max room (b ∷ back)))

  pub read_line_limited-Errs : (max : ℕ) → Errs Q (read_line_limited max)
  unfolding read_line_limited
  read_line_limited-Errs max = read_line-Errs max max []

  check_parts-Errs : (parts : List Bytes) → Errs Q (check_parts a parts)
  unfolding check_parts
  check_parts-Errs [] = fail-Errs Q malformed_request_line (o.plain _ refl)
  check_parts-Errs (m ∷ []) = fail-Errs Q malformed_request_line (o.plain _ refl)
  check_parts-Errs (m ∷ t ∷ []) = fail-Errs Q malformed_request_line (o.plain _ refl)
  check_parts-Errs (m ∷ t ∷ v ∷ w ∷ parts) = fail-Errs Q malformed_request_line (o.plain _ refl)
  check_parts-Errs (m ∷ t ∷ v ∷ []) =
      >>=-Errs Q (reject_if (not (is_token m)) (invalid_method m)) _
        (reject_if-Errs Q _ _ (o.plain _ refl))
        λ _.
          >>=-Errs Q (reject_if (not (is_origin_form m t)) (unsupported_request_target t)) _
            (reject_if-Errs Q _ _ (o.plain _ refl))
            λ _.
              >>=-Errs Q (pass (scan_field a (codes "uri") t)) _
                (pass-Errs Q _ (o.field (codes "uri") t)) λ _. pure-Errs Q _

  pub read_request_line-Errs : Errs Q (read_request_line a)
  unfolding read_request_line
  read_request_line-Errs =
      >>=-Errs Q (read_line_limited max_request_line_bytes) _
        (read_line_limited-Errs max_request_line_bytes) (λ line. check_parts-Errs (fields line))

  check_header-Errs : (n v : Bytes) → Errs Q (check_header a n v)
  unfolding check_header
  check_header-Errs n v =
      >>=-Errs Q (reject_if (is_empty n) empty_header_name) _
        (reject_if-Errs Q _ _ (o.plain _ refl))
        λ _.
          >>=-Errs Q (reject_if (not (is_token n)) (invalid_header_name n)) _
            (reject_if-Errs Q _ _ (o.plain _ refl))
            λ _.
              >>=-Errs Q (pass (scan_field a (header_field (canonical_mime_header_key n)) v)) _
                (pass-Errs Q _ (o.field _ v)) λ _. pure-Errs Q _

  header_of_line-Errs : (line : Bytes) → Errs Q (header_of_line a line)
  unfolding header_of_line split_header
  header_of_line-Errs [] = pure-Errs Q none
  header_of_line-Errs (b ∷ line) =
      let parts = cut b':' (b ∷ line) in
      >>=-Errs Q (reject_if (b == b' ' || b == b'\t') obsolete_folding) _
        (reject_if-Errs Q _ _ (o.plain _ refl))
        λ _.
          >>=-Errs Q (reject_if (not parts.2) (malformed_header (b ∷ line))) _
            (reject_if-Errs Q _ _ (o.plain _ refl))
            λ _. check_header-Errs (trim_space parts.0) (trim_space parts.1)

  read_header_line-Errs : Errs Q (read_header_line a)
  unfolding read_header_line
  read_header_line-Errs =
      >>=-Errs Q (read_line_limited max_header_line_bytes) _
        (read_line_limited-Errs max_header_line_bytes) header_of_line-Errs

  add_header-Errs :
      (seen : List Bytes) (hs : Headers) (next : List Bytes → Headers → Action Headers)
      → ((seen : List Bytes) (hs : Headers) → Errs Q (next seen hs))
      → (line : Option (Bytes × Bytes)) → Errs Q (add_header seen hs next line)
  unfolding add_header
  add_header-Errs seen hs next h none = pure-Errs Q hs
  add_header-Errs seen hs next h (some (n, v)) =
      >>=-Errs Q (reject_if (contains n seen) (duplicate_header n)) _
        (reject_if-Errs Q _ _ (o.plain _ refl)) λ _. h (n ∷ seen) (insert n v hs)

  pub read_headers-Errs :
      (rounds : ℕ) (seen : List Bytes) (hs : Headers) → Errs Q (read_headers a rounds seen hs)
  unfolding read_headers
  read_headers-Errs zero seen hs = fail-Errs Q too_many_headers (o.plain _ refl)
  read_headers-Errs (suc rounds) seen hs =
      >>=-Errs Q (read_header_line a) _ read_header_line-Errs
        (add_header-Errs seen hs _ (read_headers-Errs rounds))

  add_trailer-Errs :
      (seen : List Bytes) (ts : Headers) (next : List Bytes → Headers → Action Headers)
      → ((seen : List Bytes) (ts : Headers) → Errs Q (next seen ts))
      → (line : Option (Bytes × Bytes)) → Errs Q (add_trailer seen ts next line)
  unfolding add_trailer
  add_trailer-Errs seen ts next h none = pure-Errs Q ts
  add_trailer-Errs seen ts next h (some (n, v)) =
      >>=-Errs Q (reject_if (is_forbidden_trailer n) (forbidden_trailer n)) _
        (reject_if-Errs Q _ _ (o.plain _ refl))
        λ _.
          >>=-Errs Q (reject_if (contains n seen) (duplicate_trailer n)) _
            (reject_if-Errs Q _ _ (o.plain _ refl)) λ _. h (n ∷ seen) (insert n v ts)

  trailers_loop-Errs :
      (rounds : ℕ) (seen : List Bytes) (ts : Headers) → Errs Q (trailers_loop a rounds seen ts)
  unfolding trailers_loop
  trailers_loop-Errs zero seen ts = fail-Errs Q too_many_trailers (o.plain _ refl)
  trailers_loop-Errs (suc rounds) seen ts =
      >>=-Errs Q (read_header_line a) _ read_header_line-Errs
        (add_trailer-Errs seen ts _ (trailers_loop-Errs rounds))

  pub read_trailers-Errs : Errs Q (read_trailers a)
  unfolding read_trailers
  read_trailers-Errs = trailers_loop-Errs max_trailer_count [] []
