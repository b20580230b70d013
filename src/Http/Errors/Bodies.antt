-- ===== src/Http/Errors/Bodies.antt =====
-- http/parser.go: the errors of the two framings of a body. The scanner that has been shown a part of
-- the body without a match is passed on, and the fuel of the chunk loop is never used up.
use multi_threaded_web_serve.Go.Reader.{ReadError, Reader, ShortRead, broken, eof, read_full}
use multi_threaded_web_serve.Http.Action.{
  Action, ParseError, body_too_large, byte_or, chunk_size_too_large, incomplete_chunk_terminator,
  invalid_chunk_size, lift, pass, reject_if, reject_if_last,
}
use multi_threaded_web_serve.Http.Body.{
  body_fault, body_loop, checked, chunk_fuel, chunk_loop, feed_body, finish_body, full_or, of_full,
  read_body, read_chunked_body, read_crlf, run_body_loop, take_chunk,
}
use multi_threaded_web_serve.Http.Chars.{
  chunk_size_loop, hex_value, max_body_bytes, max_header_line_bytes, parse_chunk_size, size_of_text,
}
use multi_threaded_web_serve.Http.Chunks.{full_or-length}
use multi_threaded_web_serve.Http.Errors.{
  Errs, Honest, Passes, err_injective, >>=-Errs, >>=-ErrsAt, byte_or-Errs, is_plain, lift-Errs,
  pass-Errs, pure-Errs, reject_if-Errs,
}
use multi_threaded_web_serve.Http.Errors.Lines.{read_line_limited-Errs, read_trailers-Errs}
use multi_threaded_web_serve.Http.Inspection.{body_loop-Inspects, feed_body-clean, feed_body-nil}
use multi_threaded_web_serve.Http.Read.{Headers, read_line_limited, read_trailers}
use multi_threaded_web_serve.Http.Sizes.{size_digits}
use multi_threaded_web_serve.Waf.Automaton.{Automaton}
use multi_threaded_web_serve.Waf.Scanner.{
  Outcome, Scanner, Verdict, clean, fault, found, new_scanner,
}
use mathlib.Core.Path.{subst₂}
use multi_threaded_web_serve.Base.{
  ℕ, zero, suc, ◌+◌, ◌-◌, ◌/◌, sym, ◌*◌, ◌≤◌, ◌<◌, Bool, true, false, List, [], ◌∷◌, ◌++◌, ◌≡◌, ◌∙◌,
  refl, ap, subst, Option, none, some, arith, ltb, ltb→le, Bytes, Result, ok, err, length,
  length-append, take, drop,
}

body_fault-plain : (e : ReadError) → is_plain (body_fault e) ≡ true
body_fault-plain eof = refl
body_fault-plain (broken c) = refl

pass_clean : (v : Verdict) (r : Reader) {q : Reader} → pass v r ≡ ok (tt, q) → v ≡ clean
pass_clean clean r h = refl
pass_clean (found m) r h = absurd (cc)
pass_clean fault r h = absurd (cc)

clean_outcome : (x : Outcome) → x.1 ≡ clean → x ≡ (x.0, clean)
clean_outcome (t, v) h = ap (λ v. (t, v)) h

module _ (Q : ParseError → Type 0) {a : Option Automaton} (o : Honest Q a) where
  read_crlf-Errs : Errs Q read_crlf
  unfolding read_crlf
  read_crlf-Errs =
      >>=-Errs Q (byte_or incomplete_chunk_terminator) _ (byte_or-Errs Q _ (λ e. o.plain _ refl))
        λ first.
          >>=-Errs Q (byte_or incomplete_chunk_terminator) _
            (byte_or-Errs Q _ (λ e. o.plain _ refl)) λ second. reject_if-Errs Q _ _ (o.plain _ refl)

  tested_error :
      (t : Bool) (x : Result ParseError ℕ) (e : ParseError)
      → (elim t [ true ↦ err chunk_size_too_large | false ↦ x ]) ≡ err e
      → (x ≡ err e → Q e)
      → Q e
  tested_error true x e h more = subst Q (err_injective h) (o.plain _ refl)
  tested_error false x e h more = more h

  digit_error :
      (d : Option ℕ) (k : ℕ → Result ParseError ℕ) (x e : ParseError)
      → Q x
      → (elim d [ none ↦ err x | some value ↦ k value ]) ≡ err e
      → ((value : ℕ) → k value ≡ err e → Q e)
      → Q e
  digit_error none k x e q h more = subst Q (err_injective h) q
  digit_error (some d) k x e q h more = more d h

  chunk_size_loop-error :
      (line s : Bytes) (size : ℕ) (e : ParseError) → chunk_size_loop line size s ≡ err e → Q e
  unfolding chunk_size_loop
  chunk_size_loop-error line [] size e h = absurd (cc)
  chunk_size_loop-error line (b ∷ s) size e h =
      digit_error (hex_value b) _ (invalid_chunk_size line) e (o.plain _ refl) h λ d h.
        tested_error (ltb ((max_body_bytes - d) / 16) size) _ e h
          (chunk_size_loop-error line s (size * 16 + d) e)

  parse_chunk_size-error : (line : Bytes) (e : ParseError) → parse_chunk_size line ≡ err e → Q e
  unfolding parse_chunk_size size_of_text
  parse_chunk_size-error line e h = go (size_digits line) h
    where
      go : (text : Bytes) → size_of_text line text ≡ err e → Q e
      go [] h = subst Q (err_injective h) (o.plain _ refl)
      go (b ∷ s) h = chunk_size_loop-error line (b ∷ s) 0 e h

  full_or-Errs : (n : ℕ) → Errs Q (full_or n)
  full_or-Errs n r e h = go (read_full n r) h
    where
      go : (x : Result ShortRead (Bytes × Reader)) → of_full x ≡ err e → Q e
      go (err x) h = subst Q (err_injective h) (o.plain _ refl)
      go (ok (b, q)) h = absurd (cc)

  checked-error :
      {B : Type 0} (x : Outcome) (k : Scanner → Result ParseError B) (e : ParseError)
      → Passes Q x.1
      → ((t : Scanner) → x ≡ (t, clean) → k t ≡ err e → Q e)
      → checked x k ≡ err e
      → Q e
  checked-error (t, clean) k e p more h = more t refl h
  checked-error (t, found m) k e p more h = subst Q (err_injective h) p
  checked-error (t, fault) k e p more h = subst Q (err_injective h) p

  abbrev Shown : Scanner → Bytes → Type 0
  Shown s body = feed_body a new_scanner body ≡ (s, clean)

  left_error :
      (left : Bytes) (x : Result ParseError ((Bytes × Scanner) × List Bytes))
      (y : Bytes → (Bytes × Scanner) × List Bytes) (e : ParseError)
      → (elim left [ [] ↦ x | b ∷ q ↦ ok (y (b ∷ q)) ]) ≡ err e
      → x ≡ err e
  left_error [] x y e h = h
  left_error (b ∷ q) x y e h = absurd (cc)

  body_loop-error :
      (ps : List Bytes) (f : ReadError) (n : ℕ) (s : Scanner) (got : Bytes) (e : ParseError)
      → Shown s got
      → body_loop a n s got ps f ≡ err e
      → Q e
  unfolding body_loop
  body_loop-error ps f zero s got e shown h = absurd (cc)
  body_loop-error [] f (suc n) s got e shown h =
      subst Q (err_injective h) (o.plain (body_fault f) (body_fault-plain f))
  body_loop-error (p ∷ ps) f (suc n) s got e shown h =
      checked-error (feed_body a s (take (suc n) p)) _ e (o.part got (take (suc n) p) s shown)
        (λ t now h.
          body_loop-error ps f (suc n - length p) t (got ++ take (suc n) p) e
            (feed_body-clean a new_scanner got (take (suc n) p) shown ∙ now)
            (left_error (drop (suc n) p) _ (λ rest. ((got ++ take (suc n) p, t), rest ∷ ps)) e h))
        h

  run_body_loop-Errs : (n : ℕ) → Errs Q (run_body_loop a n)
  run_body_loop-Errs n r e h = go (body_loop a n new_scanner [] r.pieces r.fault) refl h
    where
      go :
          (x : Result ParseError ((Bytes × Scanner) × List Bytes))
          → body_loop a n new_scanner [] r.pieces r.fault ≡ x
          → ◌≡◌ {A = Result ParseError ((Bytes × Scanner) × Reader)}
              (elim x [ err e ↦ err e | ok (y, ps) ↦ ok (y, record r { pieces = ps }) ])
              (err e)
          → Q e
      go (ok (y, ps)) k h = absurd (cc)
      go (err x) k h =
          body_loop-error r.pieces r.fault n new_scanner [] e (feed_body-nil a new_scanner)
            (k ∙ ap err (err_injective h))

  run_body_loop-Shown :
      (n : ℕ) (r q : Reader) (got : Bytes) (s : Scanner)
      → run_body_loop a n r ≡ ok ((got, s), q)
      → Shown s got
  run_body_loop-Shown n r q got s h = go (body_loop a n new_scanner [] r.pieces r.fault) refl h
    where
      go :
          (x : Result ParseError ((Bytes × Scanner) × List Bytes))
          → body_loop a n new_scanner [] r.pieces r.fault ≡ x
          → ◌≡◌ {A = Result ParseError ((Bytes × Scanner) × Reader)}
              (elim x [ err e ↦ err e | ok (y, ps) ↦ ok (y, record r { pieces = ps }) ])
              (ok ((got, s), q))
          → Shown s got
      go (err x) k h = absurd (cc)
      go (ok ((body, t), ps)) k h =
          let body_is : body ≡ got = cc in
          let t_is : t ≡ s = cc in
          let (part, i, is_part) =
            body_loop-Inspects a r.pieces r.fault n new_scanner [] body t ps k in
          subst₂ Shown t_is (sym is_part ∙ body_is) i.shown

  pub read_body-Errs : (n : ℕ) → Errs Q (read_body a n)
  unfolding read_body
  read_body-Errs zero r = pure-Errs Q [] r
  read_body-Errs (suc n) r =
      >>=-ErrsAt Q (run_body_loop a (suc n)) _ r (run_body_loop-Errs (suc n) r) λ (got, s) q k.
        >>=-ErrsAt Q (pass (finish_body a s).1) _ q
          (pass-Errs Q _ (o.last got s (run_body_loop-Shown (suc n) r q got s k)) q)
          λ _ q _. pure-Errs Q got q

  -- The fuel covers what the body may yet grow by.
  take_chunk-Errs :
      (s : Scanner) (body : Bytes) (next : Scanner → Bytes → Action (Bytes × Headers))
      (fuel size : ℕ)
      → Shown s body
      → max_body_bytes < length body + suc fuel
      → ((s : Scanner) (body : Bytes)
          → Shown s body
          → length body ≤ max_body_bytes
          → max_body_bytes < length body + fuel
          → Errs Q (next s body))
      → Errs Q (take_chunk a s body next size)
  unfolding take_chunk
  take_chunk-Errs s body next fuel zero shown h ih r =
      >>=-ErrsAt Q (pass (finish_body a s).1) _ r (pass-Errs Q _ (o.last body s shown) r) λ _ r1 _.
        >>=-ErrsAt Q (read_trailers a) _ r1 (read_trailers-Errs Q o r1) λ ts r2 _. pure-Errs Q _ r2
  take_chunk-Errs s body next fuel (suc m) shown h ih r =
      >>=-ErrsAt Q (reject_if (ltb max_body_bytes (length body + suc m)) body_too_large) _ r
        (reject_if-Errs Q _ _ (o.plain _ refl) r)
        λ _ r1 small. >>=-ErrsAt Q (full_or (suc m)) _ r1 (full_or-Errs (suc m) r1) λ part r2 e.
          >>=-ErrsAt Q (pass (feed_body a s part).1) _ r2
            (pass-Errs Q _ (o.part body part s shown) r2)
            λ _ r3 passed. >>=-ErrsAt Q read_crlf _ r3 (read_crlf-Errs r3) λ _ r4 _.
              ih (feed_body a s part).0 (body ++ part)
                (feed_body-clean a new_scanner body part shown
                  ∙ clean_outcome _ (pass_clean _ r2 passed))
                (omega (
                  arith,
                  length-append body part,
                  full_or-length (suc m) r1 r2 part e,
                  ltb→le _ _
                      (reject_if_last (ltb max_body_bytes (length body + suc m)) _ r small).0,
                ))
                (omega (arith, h, length-append body part, full_or-length (suc m) r1 r2 part e)) r4

  chunk_loop-Errs :
      (fuel : ℕ) (s : Scanner) (body : Bytes)
      → Shown s body
      → length body ≤ max_body_bytes
      → max_body_bytes < length body + fuel
      → Errs Q (chunk_loop fuel a s body)
  unfolding chunk_loop
  chunk_loop-Errs zero s body shown l h = absurd (omega arith)
  chunk_loop-Errs (suc fuel) s body shown l h =
      >>=-Errs Q (read_line_limited max_header_line_bytes) _
        (read_line_limited-Errs Q o max_header_line_bytes)
        λ line.
          >>=-Errs Q (lift (parse_chunk_size line)) _ (lift-Errs Q _ (parse_chunk_size-error line))
            λ size.
              take_chunk-Errs s body (chunk_loop fuel a) fuel size shown h (chunk_loop-Errs fuel)

  pub read_chunked_body-Errs : Errs Q (read_chunked_body a)
  unfolding read_chunked_body
  read_chunked_body-Errs =
      chunk_loop-Errs chunk_fuel new_scanner [] (feed_body-nil a new_scanner) (omega arith)
        (omega arith)
