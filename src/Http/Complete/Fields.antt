-- ===== src/Http/Complete/Fields.antt =====
-- http/parser.go: header lines and trailers that are written as names and values are read as these.
use mathlib.Core.Bool.{false≢true}
use multi_threaded_web_serve.Go.Strings.{canonical_mime_header_key, cut, trim_space}
use multi_threaded_web_serve.Http.Action.{
  duplicate_header, duplicate_trailer, empty_header_name, forbidden_trailer, invalid_header_name,
  malformed_header, obsolete_folding, pass, reject_if,
}
use multi_threaded_web_serve.Http.Chars.{
  all_bytes, is_forbidden_trailer, is_token, is_token_char, max_header_count, max_header_line_bytes,
  max_trailer_count,
}
use multi_threaded_web_serve.Http.Complete.{
  Gives, >>=-Gives, pass-Gives, pure-Gives, read_line_limited-Gives, reject_if-Gives,
}
use multi_threaded_web_serve.Http.Complete.FieldLoops.{
  Fresh, TakesFields, TakesFields-Gives, field_lines, header_line,
}
use multi_threaded_web_serve.Http.Complete.Words.{
  and-true, token-IsWord, token_char-visible, tokens-visible, trim_space-visible,
}
use multi_threaded_web_serve.Http.Fields.Names.{Distinct, keys}
use multi_threaded_web_serve.Http.Lines.{crlf, has_crlf}
use multi_threaded_web_serve.Http.Read.{
  Headers, add_header, add_trailer, check_header, header_field, header_of_line, read_header_line,
  read_headers, read_line_limited, read_trailers, scan_field, split_header, trailers_loop,
}
use multi_threaded_web_serve.Waf.Automaton.{Automaton}
use multi_threaded_web_serve.Waf.Scanner.{clean}
use multi_threaded_web_serve.Base.{
  ℕ, ◌+◌, ◌≤◌, ◌<◌, true, false, not, ◌&&◌, ◌||◌, List, [], ◌∷◌, ◌++◌, ◌≡◌, refl, ap, All, Option,
  none, some, arith, ◌==◌, Bytes, contains, is_empty, length,
}

-- What a field must be for the parser to take it.
pub record IsWritten (a : Option Automaton) (name value : Bytes) : Type 0 where
  pub token : is_token name ≡ true
  pub canonical : canonical_mime_header_key name ≡ name
  pub trimmed : trim_space value ≡ value
  pub harmless : scan_field a (header_field name) value ≡ clean
  pub one_line : has_crlf (header_line name value) ≡ false
  pub fits : length (header_line name value) + 2 ≤ max_header_line_bytes

not_colon : (b : ℕ) → is_token_char b ≡ true → (b == b':') ≡ false
unfolding is_token_char
not_colon b h = ground arith

cut-token :
    (name s : Bytes)
    → all_bytes is_token_char name ≡ true
    → cut b':' (name ++ b':' ∷ s) ≡ (name, s, true)
unfolding cut all_bytes
cut-token [] s h = refl
cut-token (b ∷ name) s h =
    let (token, tokens) = and-true (is_token_char b) _ h in
    rw (cut, cut-token name s tokens, not_colon b token) refl

is_token-tokens :
    (s : Bytes) → is_token s ≡ true → (not (is_empty s) && all_bytes is_token_char s) ≡ true
unfolding is_token
is_token-tokens s h = h

trim_space-space : (value : Bytes) → trim_space (b' ' ∷ value) ≡ trim_space value
unfolding trim_space
trim_space-space value = refl

module _ (a : Option Automaton) where
  check_header-Gives :
      (name value t : Bytes)
      → IsWritten a name value
      → Gives (check_header a name value) t (some (name, value)) t
  unfolding check_header
  check_header-Gives name value t w =
      >>=-Gives (reject_if (is_empty name) empty_header_name) _
        (reject_if-Gives _ _ t (token-IsWord name w.token).0)
        (>>=-Gives (reject_if (not (is_token name)) (invalid_header_name name)) _
          (reject_if-Gives _ _ t (ap not w.token))
          (rw w.canonical (
            >>=-Gives (pass (scan_field a (header_field name) value)) _ (pass-Gives _ t w.harmless)
              (pure-Gives _ t))))

  split_header-Gives :
      (line name value t : Bytes)
      → IsWritten a name value
      → Gives (split_header a line (cut b':' (header_line name value))) t (some (name, value)) t
  unfolding split_header
  split_header-Gives line name value t w =
      let tokens = (and-true (not (is_empty name)) _ (is_token-tokens name w.token)).1 in
      rw
        (
          cut-token name (b' ' ∷ value) tokens,
          trim_space-visible name (tokens-visible name tokens),
          trim_space-space value,
          w.trimmed,
        )
        (>>=-Gives (reject_if false (malformed_header line)) (λ _. check_header a name value)
          (reject_if-Gives false (malformed_header line) t refl)
          (check_header-Gives name value t w))

  header_of_line-Gives :
      (name value t : Bytes)
      → IsWritten a name value
      → Gives (header_of_line a (header_line name value)) t (some (name, value)) t
  unfolding header_of_line is_token all_bytes
  header_of_line-Gives [] value t w = absurd (false≢true w.token)
  header_of_line-Gives (b ∷ name) value t w =
      let v = token_char-visible b (and-true (is_token_char b) _ w.token).0 in
      >>=-Gives (reject_if (b == b' ' || b == b'\t') obsolete_folding) _
        (reject_if-Gives _ _ t (ground (arith, v)))
        (split_header-Gives (header_line (b ∷ name) value) (b ∷ name) value t w)

  read_header_line-Gives :
      (name value t : Bytes)
      → IsWritten a name value
      → Gives (read_header_line a) (header_line name value ++ (crlf ++ t)) (some (name, value)) t
  unfolding read_header_line
  read_header_line-Gives name value t w =
      >>=-Gives (read_line_limited max_header_line_bytes) _
        (read_line_limited-Gives max_header_line_bytes (header_line name value) t w.one_line w.fits)
        (header_of_line-Gives name value t w)

  read_header_line-end : (t : Bytes) → Gives (read_header_line a) (crlf ++ t) none t
  unfolding read_header_line header_of_line has_crlf
  read_header_line-end t =
      >>=-Gives (read_line_limited max_header_line_bytes) _
        (read_line_limited-Gives max_header_line_bytes [] t refl (omega arith)) (pure-Gives none t)

-- Fields that the parser takes, with distinct names.
pub record AreWritten (P : Bytes → Bytes → Type 0) (limit : ℕ) (fields : Headers) : Type 0 where
  pub each : All (λ h. P h.0 h.1) fields
  pub distinct : Distinct (keys fields)
  pub few : length fields < limit

abbrev pub IsWrittenTrailer : Option Automaton → Bytes → Bytes → Type 0
IsWrittenTrailer a name value = IsWritten a name value × (is_forbidden_trailer name ≡ false)

module _ (a : Option Automaton) where
  read_headers-TakesFields : TakesFields (IsWritten a) (read_headers a)
  unfolding read_headers add_header
  read_headers-TakesFields = record {
    step = λ rounds seen fields out name value s t w n g.
        >>=-Gives (read_header_line a) _ (read_header_line-Gives a name value s w) (
          >>=-Gives (reject_if (contains name seen) (duplicate_header name)) _
            (reject_if-Gives _ _ s n) g);
    stop = λ rounds seen fields t.
        >>=-Gives (read_header_line a) _ (read_header_line-end a t) (pure-Gives fields t);
  }

  trailers_loop-TakesFields : TakesFields (IsWrittenTrailer a) (trailers_loop a)
  unfolding trailers_loop add_trailer
  trailers_loop-TakesFields = record {
    step = λ rounds seen fields out name value s t (w, allowed) n g.
        >>=-Gives (read_header_line a) _ (read_header_line-Gives a name value s w) (
          >>=-Gives (reject_if (is_forbidden_trailer name) (forbidden_trailer name)) _
            (reject_if-Gives _ _ s allowed)
            (>>=-Gives (reject_if (contains name seen) (duplicate_trailer name)) _
              (reject_if-Gives _ _ s n) g));
    stop = λ rounds seen fields t.
        >>=-Gives (read_header_line a) _ (read_header_line-end a t) (pure-Gives fields t);
  }

  not_seen : (names : List Bytes) → Fresh [] names
  unfolding contains
  not_seen [] = tt
  not_seen (k ∷ names) = (refl, not_seen names)

  pub read_headers-Gives :
      (fields : Headers) (t : Bytes)
      → AreWritten (IsWritten a) max_header_count fields
      → Gives (read_headers a max_header_count [] []) (field_lines fields ++ (crlf ++ t)) fields t
  unfolding contains
  read_headers-Gives fields t w =
      TakesFields-Gives (IsWritten a) (read_headers a) read_headers-TakesFields max_header_count []
        [] fields t (λ k. refl) (not_seen (keys fields)) w.distinct w.each w.few

  pub read_trailers-Gives :
      (fields : Headers) (t : Bytes)
      → AreWritten (IsWrittenTrailer a) max_trailer_count fields
      → Gives (read_trailers a) (field_lines fields ++ (crlf ++ t)) fields t
  unfolding contains read_trailers
  read_trailers-Gives fields t w =
      TakesFields-Gives (IsWrittenTrailer a) (trailers_loop a) trailers_loop-TakesFields
        max_trailer_count [] [] fields t (λ k. refl) (not_seen (keys fields)) w.distinct w.each
        w.few
