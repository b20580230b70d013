-- ===== src/Http/Complete/Chunks.antt =====
-- http/parser.go: a chunked body that is written as size lines and parts is read as the parts together.
use mathlib.Core.Path.{subst₂}
use multi_threaded_web_serve.Go.Reader.{ReadError}
use multi_threaded_web_serve.Http.Action.{
  Action, ParseError, body_too_large, byte_or, byte_or_step, incomplete_chunk_terminator,
  invalid_chunk_terminator, lift, pass, reject_if, ◌>>=◌,
}
use multi_threaded_web_serve.Http.Body.{
  chunk_fuel, chunk_loop, feed_body, finish_body, full_or, read_chunked_body, read_crlf, take_chunk,
}
use multi_threaded_web_serve.Http.Chars.{
  max_body_bytes, max_header_line_bytes, max_trailer_count, parse_chunk_size,
}
use multi_threaded_web_serve.Http.Complete.{
  Gives, >>=-Gives, lift-Gives, pass-Gives, pure-Gives, read_line_limited-Gives, reject_if-Gives,
}
use multi_threaded_web_serve.Http.Complete.Bodies.{
  and_then-clean, full_or-Gives, inspect_body-Shown,
}
use multi_threaded_web_serve.Http.Complete.FieldLoops.{field_lines}
use multi_threaded_web_serve.Http.Complete.Fields.{
  AreWritten, IsWrittenTrailer, read_trailers-Gives,
}
use multi_threaded_web_serve.Http.Inspection.{feed_body-append, feed_body-nil, inspect_body}
use multi_threaded_web_serve.Http.Lines.{crlf, has_crlf}
use multi_threaded_web_serve.Http.Read.{Headers, read_line_limited, read_trailers}
use multi_threaded_web_serve.Waf.Automaton.{Automaton}
use multi_threaded_web_serve.Waf.Scanner.{Scanner, clean, new_scanner}
use multi_threaded_web_serve.Base.{
  ℕ, zero, suc, ◌+◌, ◌≤◌, ◌<◌, false, List, [], ◌∷◌, ◌++◌, ◌≡◌, ◌∙◌, refl, sym, ap, subst,
  append_assoc, append-nil, All, Option, arith, Bytes, ok, ltb, length, length-append,
}

byte_or-Gives : (e : ReadError → ParseError) (b : ℕ) (t : Bytes) → Gives (byte_or e) (b ∷ t) b t
byte_or-Gives e b t r c = byte_or_step e r b t c

read_crlf-Gives : (t : Bytes) → Gives read_crlf (crlf ++ t) tt t
unfolding read_crlf
read_crlf-Gives t =
    >>=-Gives (byte_or incomplete_chunk_terminator) _ (byte_or-Gives _ b'\r' (b'\n' ∷ t)) (
      >>=-Gives (byte_or incomplete_chunk_terminator) _ (byte_or-Gives _ b'\n' t)
        (reject_if-Gives _ invalid_chunk_terminator t refl))

-- A line that gives the size `n`, with or without extensions.
pub record IsSizeLine (n : ℕ) (line : Bytes) : Type 0 where
  pub size : parse_chunk_size line ≡ ok n
  pub one_line : has_crlf line ≡ false
  pub fits : length line + 2 ≤ max_header_line_bytes

-- Chunks: size lines, each with its part.
abbrev pub Chunks : Type 0
Chunks = List (Bytes × Bytes)

abbrev pub chunk_lines : Chunks → Bytes
chunk_lines [] = []
chunk_lines ((line, part) ∷ chunks) = line ++ (crlf ++ (part ++ (crlf ++ chunk_lines chunks)))

abbrev pub chunk_data : Chunks → Bytes
chunk_data [] = []
chunk_data ((line, part) ∷ chunks) = part ++ chunk_data chunks

-- The size lines give the lengths of the parts, and no part is empty.
abbrev pub AreChunks : Chunks → Type 0
AreChunks = All (λ chunk. IsSizeLine (length chunk.1) chunk.0 × (0 < length chunk.1))

-- The line of the last chunk, the trailers, and the empty line behind them.
abbrev pub chunk_end : Bytes → Headers → Bytes
chunk_end last trailers = last ++ (crlf ++ (field_lines trailers ++ crlf))

module _ (a : Option Automaton) where
  read_size-Gives :
      {B : Type 0} (n : ℕ) (line : Bytes) (f : ℕ → Action B) {t u : Bytes} {b : B}
      → IsSizeLine n line
      → Gives (f n) t b u
      → Gives
          (read_line_limited max_header_line_bytes >>= λ line. lift (parse_chunk_size line) >>= f)
          (line ++ (crlf ++ t))
          b
          u
  read_size-Gives n line f {t} i g =
      >>=-Gives (read_line_limited max_header_line_bytes) _
        (read_line_limited-Gives max_header_line_bytes line t i.one_line i.fits)
        (>>=-Gives (lift (parse_chunk_size line)) _ (lift-Gives _ n t i.size) g)

  take_last-Gives :
      (s : Scanner) (body : Bytes) (next : Scanner → Bytes → Action (Bytes × Headers))
      (trailers : Headers) (t : Bytes)
      → AreWritten (IsWrittenTrailer a) max_trailer_count trailers
      → (finish_body a s).1 ≡ clean
      → Gives (take_chunk a s body next 0) (field_lines trailers ++ (crlf ++ t)) (body, trailers) t
  unfolding take_chunk
  take_last-Gives s body next trailers t w ended =
      >>=-Gives (pass (finish_body a s).1) _ (pass-Gives _ _ ended) (
        >>=-Gives (read_trailers a) _ (read_trailers-Gives a trailers t w)
          (pure-Gives (body, trailers) t))

  take_part-Gives :
      (s v : Scanner) (body : Bytes) (next : Scanner → Bytes → Action (Bytes × Headers)) (m : ℕ)
      (part t : Bytes) {w : Bytes} {out : Bytes × Headers}
      → length part ≡ suc m
      → feed_body a s part ≡ (v, clean)
      → length body + suc m ≤ max_body_bytes
      → Gives (next v (body ++ part)) t out w
      → Gives (take_chunk a s body next (suc m)) (part ++ (crlf ++ t)) out w
  unfolding take_chunk
  take_part-Gives s v body next m part t {w} {out} l shown small g =
      >>=-Gives (reject_if (ltb max_body_bytes (length body + suc m)) body_too_large) _
        (reject_if-Gives _ _ (part ++ (crlf ++ t)) (ground (arith, small)))
        (>>=-Gives (full_or (suc m)) _ (full_or-Gives (suc m) part (crlf ++ t) l) (
          >>=-Gives (pass (feed_body a s part).1) _ (pass-Gives _ (crlf ++ t) (ap (λ o. o.1) shown))
            (>>=-Gives read_crlf _ (read_crlf-Gives t)
              (subst (λ x. Gives (next x (body ++ part)) t out w) (ap (λ o. o.0) (sym shown)) g))))

  chunk_loop-Gives :
      (fuel : ℕ) (chunks : Chunks) (last : Bytes) (trailers : Headers) (s u : Scanner)
      (body t : Bytes)
      → AreChunks chunks
      → IsSizeLine 0 last
      → AreWritten (IsWrittenTrailer a) max_trailer_count trailers
      → feed_body a s (chunk_data chunks) ≡ (u, clean)
      → (finish_body a u).1 ≡ clean
      → length body + length (chunk_data chunks) ≤ max_body_bytes
      → max_body_bytes < length body + fuel
      → Gives
          (chunk_loop fuel a s body)
          (chunk_lines chunks ++ (chunk_end last trailers ++ t))
          (body ++ chunk_data chunks, trailers)
          t
  unfolding chunk_loop
  chunk_loop-Gives zero chunks last trailers s u body t cs l ts shown ended small enough =
      absurd (omega (arith, small, enough))
  chunk_loop-Gives (suc fuel) [] last trailers s u body t cs l ts shown ended small enough =
      let nothing = feed_body-nil a s in
      let same_scanner : u ≡ s = cc in
      subst₂ (λ i o. Gives (chunk_loop (suc fuel) a s body) i (o, trailers) t)
        (sym (
          append_assoc last (crlf ++ (field_lines trailers ++ crlf)) t
          ∙ ap (λ x. last ++ (crlf ++ x)) (append_assoc (field_lines trailers) crlf t)))
        (sym (append-nil body))
        (read_size-Gives 0 last (take_chunk a s body (chunk_loop fuel a)) l (
          take_last-Gives s body (chunk_loop fuel a) trailers t ts
            (subst (λ x. (finish_body a x).1 ≡ clean) same_scanner ended)))
  chunk_loop-Gives (suc fuel) ((line, []) ∷ chunks) last trailers s u body t ((size, given), cs) l
        ts shown ended small enough =
      absurd (omega (arith, given))
  chunk_loop-Gives (suc fuel) ((line, b ∷ p) ∷ chunks) last trailers s u body t ((size, given), cs)
        l ts shown ended small enough =
      let part = b ∷ p in
      let more = chunk_lines chunks ++ (chunk_end last trailers ++ t) in
      let (v, first, second) =
        and_then-clean (feed_body a s part) (λ v. feed_body a v (chunk_data chunks)) u
          (sym (feed_body-append a s part (chunk_data chunks)) ∙ shown) in
      let grown = length-append body part in
      let total = length-append part (chunk_data chunks) in
      subst₂ (λ i o. Gives (chunk_loop (suc fuel) a s body) i (o, trailers) t)
        (sym (
          append_assoc line (crlf ++ (part ++ (crlf ++ chunk_lines chunks)))
            (chunk_end last trailers ++ t)
          ∙ ap (λ x. line ++ (crlf ++ x))
              (append_assoc part (crlf ++ chunk_lines chunks) (chunk_end last trailers ++ t))))
        (append_assoc body part (chunk_data chunks))
        (read_size-Gives (length part) line (take_chunk a s body (chunk_loop fuel a)) size (
          take_part-Gives s v body (chunk_loop fuel a) (length p) part more refl first
            (omega (arith, small, total))
            (chunk_loop-Gives fuel chunks last trailers v u (body ++ part) t cs l ts second ended
              (omega (arith, small, total, grown)) (omega (arith, enough, grown)))))

  -- A body in chunks is read as the parts together, and so are the trailers.
  pub read_chunked_body-Gives :
      (chunks : Chunks) (last : Bytes) (trailers : Headers) (t : Bytes)
      → AreChunks chunks
      → IsSizeLine 0 last
      → AreWritten (IsWrittenTrailer a) max_trailer_count trailers
      → inspect_body a (chunk_data chunks) ≡ clean
      → length (chunk_data chunks) ≤ max_body_bytes
      → Gives
          (read_chunked_body a)
          (chunk_lines chunks ++ (chunk_end last trailers ++ t))
          (chunk_data chunks, trailers)
          t
  unfolding read_chunked_body
  read_chunked_body-Gives chunks last trailers t cs l ts h small =
      let (u, shown, ended) = inspect_body-Shown a (chunk_data chunks) h in
      chunk_loop-Gives chunk_fuel chunks last trailers new_scanner u [] t cs l ts shown ended
        (omega (arith, small)) (omega arith)
