-- ===== src/Http/Chunks.antt =====
-- http/parser.go: what `readChunkedBody` accepts, and that it ends.
use multi_threaded_web_serve.Go.Reader.{Reader, read_full, ShortRead}
use multi_threaded_web_serve.Go.Reading.{read_full-Takes}
use multi_threaded_web_serve.Http.Action.{
  Action, bind_ok, body_too_large, lift, pass-eq-ok, reject_if-eq-ok,
}
use multi_threaded_web_serve.Http.Body.{
  chunk_fuel, chunk_loop, feed_body, finish_body, full_or, of_full, take_chunk, read_chunked_body,
  read_crlf,
}
use multi_threaded_web_serve.Http.Chars.{
  max_body_bytes, max_header_line_bytes, max_trailer_count, parse_chunk_size,
}
use multi_threaded_web_serve.Http.Fields.{AreFields, IsTrailer, read_trailers_sound}
use multi_threaded_web_serve.Http.Inspection.{
  feed_body-clean, feed_body-nil, inspect_body, inspect_body-clean,
}
use multi_threaded_web_serve.Http.Read.{Headers, read_line_limited, read_trailers}
use multi_threaded_web_serve.Waf.Automaton.{Automaton}
use multi_threaded_web_serve.Waf.Scanner.{Scanner, clean, new_scanner}
use multi_threaded_web_serve.Base.{
  ℕ, zero, suc, ◌+◌, ◌≤◌, ◌<◌, [], ◌++◌, ◌≡◌, refl, sym, ◌∙◌, Option, arith, ltb, ltb→le, Bytes,
  Result, ok, err, ok_injective, append_assoc, append-nil, length, length-append,
}

-- What the loop returns from the body so far and the scanner behind it.
record Collected (a : Option Automaton) (s : Scanner) (body all : Bytes) (trailers : Headers)
    : Type 0 where
  part : Bytes
  last : Scanner
  grows : all ≡ body ++ part
  shown : feed_body a s part ≡ (last, clean)
  finished : (finish_body a last).1 ≡ clean
  fits : length body ≤ max_body_bytes → length all ≤ max_body_bytes
  are_trailers : AreFields (IsTrailer a) trailers
  few : length trailers < max_trailer_count

-- `pass` on the verdict of a feed leaves the scanner behind it.
feed_body_pair :
    (a : Option Automaton) (s : Scanner) (part : Bytes)
    → (feed_body a s part).1 ≡ clean
    → feed_body a s part ≡ ((feed_body a s part).0, clean)
feed_body_pair a s part h = λ i. ((feed_body a s part).0, h i)

pub full_or-length :
    (n : ℕ) (r q : Reader) (part : Bytes) → full_or n r ≡ ok (part, q) → length part ≡ n
full_or-length n r q part h = go (read_full n r) refl h
  where
    go :
        (x : Result ShortRead (Bytes × Reader))
        → read_full n r ≡ x
        → of_full x ≡ ok (part, q)
        → length part ≡ n
    go (err e) e' h = absurd (cc)
    go (ok (got, p)) e h =
        let (got_is, _) = ok_injective h in rw (← got_is) (read_full-Takes n r e).0.is_long

abbrev Collects : Option Automaton → (Scanner → Bytes → Action (Bytes × Headers)) → Type 0
Collects a loop =
    (s : Scanner) (body : Bytes) (r q : Reader) (all : Bytes) (trailers : Headers)
    → loop s body r ≡ ok ((all, trailers), q)
    → Collected a s body all trailers

Collected-more :
    {a : Option Automaton} {s t : Scanner} {all : Bytes} {trailers : Headers} (body part : Bytes)
    → feed_body a s part ≡ (t, clean)
    → length body + length part ≤ max_body_bytes
    → Collected a t (body ++ part) all trailers
    → Collected a s body all trailers
Collected-more {a} {s} body part shown small c = record {
  part = part ++ c.part;
  last = c.last;
  grows = c.grows ∙ append_assoc body part c.part;
  shown = feed_body-clean a s part c.part shown ∙ c.shown;
  finished = c.finished;
  fits = λ h. c.fits (omega (arith, length-append body part, small));
  are_trailers = c.are_trailers;
  few = c.few;
}

take_chunk-Collects :
    (a : Option Automaton) (next : Scanner → Bytes → Action (Bytes × Headers)) (size : ℕ)
    → Collects a next
    → Collects a (λ s body. take_chunk a s body next size)
unfolding take_chunk
take_chunk-Collects a next zero ih s body r q all trailers h =
    let (f, h1) = pass-eq-ok (finish_body a s).1 _ r h in
    bind_ok (read_trailers a) _ r h1 λ ts p e k.
      let body_is : body ≡ all = cc in
      let ts_is : ts ≡ trailers = cc in
      let (fs, few) = read_trailers_sound a r p ts e in
      rw (← body_is, ← ts_is)
        (record {
          part = [];
          last = s;
          grows = sym (append-nil body);
          shown = feed_body-nil a s;
          finished = f;
          fits = λ small. small;
          are_trailers = fs;
          few = few;
        })
take_chunk-Collects a next (suc m) ih s body r q all trailers h =
    let (small, h1) =
      reject_if-eq-ok (ltb max_body_bytes (length body + suc m)) body_too_large _ r h in
    bind_ok (full_or (suc m)) _ r h1 λ part p e k.
      let (c, k1) = pass-eq-ok (feed_body a s part).1 _ p k in
      bind_ok read_crlf _ p k1 λ _ p' _ k2.
        Collected-more body part (feed_body_pair a s part c)
          (omega (arith, full_or-length (suc m) r p part e, ltb→le _ _ small))
          (ih (feed_body a s part).0 (body ++ part) p' q all trailers k2)

chunk_loop-Collects : (fuel : ℕ) (a : Option Automaton) → Collects a (chunk_loop fuel a)
unfolding chunk_loop
chunk_loop-Collects zero a s body r q all trailers h = absurd (cc)
chunk_loop-Collects (suc fuel) a s body r q all trailers h =
    bind_ok (read_line_limited max_header_line_bytes) _ r h λ line r1 _ h1.
      bind_ok (lift (parse_chunk_size line)) _ r1 h1 λ size r2 _ h2.
        take_chunk-Collects a (chunk_loop fuel a) size (chunk_loop-Collects fuel a) s body r2 q all
          trailers h2

-- A chunked body that is accepted is within the limit, and the scanner has found nothing in it as
-- one value; its trailers have distinct names in canonical form, none of them forbidden, inspected
-- values, and are fewer than `maxTrailerCount`.
pub read_chunked_body_sound :
    (a : Option Automaton) (r q : Reader) (body : Bytes) (trailers : Headers)
    → read_chunked_body a r ≡ ok ((body, trailers), q)
    → (length body ≤ max_body_bytes)
      × (inspect_body a body ≡ clean)
      × AreFields (IsTrailer a) trailers
      × (length trailers < max_trailer_count)
unfolding read_chunked_body
read_chunked_body_sound a r q body trailers h =
    let c = chunk_loop-Collects chunk_fuel a new_scanner [] r q body trailers h in
    (
      c.fits (omega arith),
      rw c.grows (inspect_body-clean a c.part c.shown c.finished),
      c.are_trailers,
      c.few,
    )
