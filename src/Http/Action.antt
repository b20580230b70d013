-- ===== src/Http/Action.antt =====
-- http/parser.go: the errors of the parser, and its actions: a reader goes in, a value and the
-- reader after it come out, or an error.
use multi_threaded_web_serve.Waf.Automaton.{Match}
use multi_threaded_web_serve.Waf.Scanner.{Verdict, clean, fault, found}
use multi_threaded_web_serve.Go.Reader.{
  ReadError, Reader, ShortRead, broken, eof, nothing_read, read_byte,
}
use multi_threaded_web_serve.Go.Reading.{read_byte-ReadsByte, rest}
use multi_threaded_web_serve.Base.{
  inl, inr, ◌∷◌, arith, ℕ, Bool, true, false, ◌≡◌, refl, ap, Bytes, Result, ok, ok_injective, err,
}

-- One constructor for each error value that the source makes, with what its text shows.
pub data ParseError : Type 0 where
  nil_reader end_of_input incomplete_line malformed_request_line too_many_headers : ParseError
  obsolete_folding empty_header_name transfer_encoding_with_content_length : ParseError
  missing_host invalid_host body_too_large empty_chunk_size chunk_size_too_large : ParseError
  invalid_chunk_terminator too_many_trailers : ParseError
  io_failure line_exceeds : ℕ → ParseError
  invalid_method unsupported_request_target unsupported_version malformed_header :
      Bytes → ParseError
  invalid_header_name duplicate_header unsupported_transfer_encoding : Bytes → ParseError
  invalid_content_length invalid_chunk_size forbidden_trailer duplicate_trailer : Bytes → ParseError
  incomplete_body incomplete_chunk_terminator : ReadError → ParseError
  incomplete_chunk_data : ShortRead → ParseError
  blocked : Match → ParseError
  -- A panic of the scanner, and the end of the fuel: the theorems exclude both.
  panicked out_of_fuel : ParseError

-- `errors.Is(err, io.EOF)`: the error is io.EOF, or wraps it.
unfoldable pub is_eof : ParseError → Bool
is_eof end_of_input = true
is_eof (incomplete_body eof) = true
is_eof (incomplete_chunk_terminator eof) = true
is_eof (incomplete_chunk_data (nothing_read eof)) = true
is_eof _ = false

abbrev pub Action : Type 0 → Type 0
Action A = Reader → Result ParseError (A × Reader)

infixl 5 ◌>>=◌ ◌>>◌
abbrev pub ◌>>=◌ : {A B : Type 0} → Action A → (A → Action B) → Action B
◌>>=◌ m f r = elim (m r) [ err e ↦ err e | ok (a, r') ↦ f a r' ]

abbrev pub ◌>>◌ : {B : Type 0} → Action (Unit {0}) → Action B → Action B
m >> k = m >>= λ _. k

abbrev pub pure : {A : Type 0} → A → Action A
pure a r = ok (a, r)

abbrev pub fail : {A : Type 0} → ParseError → Action A
fail e r = err e

-- `if test { return err }`.
abbrev pub reject_if : Bool → ParseError → Action (Unit {0})
reject_if true e = fail e
reject_if false e = pure tt

abbrev pub lift : {A : Type 0} → Result ParseError A → Action A
lift (ok a) = pure a
lift (err e) = fail e

-- `if match != nil { return securityError(match) }`.
abbrev pub pass : Verdict → Action (Unit {0})
pass clean = pure tt
pass (found m) = fail (blocked m)
pass fault = fail panicked

-- The errors of a read that are passed on as they are.
abbrev pub of_read : ReadError → ParseError
of_read eof = end_of_input
of_read (broken code) = io_failure code

-- ReadByte, with what the source makes of its error.
abbrev pub of_byte :
    (ReadError → ParseError) → Result ReadError (ℕ × Reader) → Result ParseError (ℕ × Reader)
of_byte wrap (err e) = err (wrap e)
of_byte wrap (ok (b, r)) = ok (b, r)

abbrev pub byte_or : (ReadError → ParseError) → Action ℕ
byte_or wrap r = of_byte wrap (read_byte r)

-- Inversion of a bind that succeeds.
pub bind_ok {ℓ} :
    {A B : Type 0} {P : Type ℓ} (m : Action A) (f : A → Action B) (r : Reader) {y : B × Reader}
    → (m >>= f) r ≡ ok y
    → ((a : A) (q : Reader) → m r ≡ ok (a, q) → f a q ≡ ok y → P)
    → P
bind_ok {A = A} {P = P} m f r {y} h k = go (m r) refl h
  where
    go :
        (x : Result ParseError (A × Reader))
        → m r ≡ x
        → (elim x [ err e ↦ err e | ok (a, q) ↦ f a q ]) ≡ ok y
        → P
    go (ok (a, q)) e h = k a q e h
    go (err x) e h = absurd (cc)

-- A bind goes on from the value of its first action.
pub bind_step :
    {A B : Type 0} (m : Action A) (f : A → Action B) (r : Reader) {a : A} {q : Reader}
    → m r ≡ ok (a, q)
    → (m >>= f) r ≡ f a q
bind_step {A} {B} m f r e = ap (λ (x : Result ParseError (A × Reader)). next x) e
  where
    next : Result ParseError (A × Reader) → Result ParseError (B × Reader)
    next (err e) = err e
    next (ok (a, q)) = f a q

-- The next byte is read.
pub byte_or_step :
    (wrap : ReadError → ParseError) (r : Reader) (b : ℕ) (s : Bytes)
    → rest r ≡ b ∷ s
    → (p : Reader) × (byte_or wrap r ≡ ok (b, p)) × (rest p ≡ s) × (p.fault ≡ r.fault)
byte_or_step wrap r b s h = elim (read_byte-ReadsByte r) [
  | inl (none_left, e) ↦ absurd (cc)
  | inr (c, p, next, f, e) ↦
      let c_is : c ≡ b = cc in let s_is : rest p ≡ s = cc in (p, ground arith, s_is, f)
]

-- A byte that is read was the next one.
pub byte_or-eq-ok :
    (wrap : ReadError → ParseError) (r : Reader) {b : ℕ} {q : Reader}
    → byte_or wrap r ≡ ok (b, q)
    → (rest r ≡ b ∷ rest q) × (q.fault ≡ r.fault)
byte_or-eq-ok wrap r h = elim (read_byte-ReadsByte r) [
  | inl (_, e) ↦ absurd (ground arith)
  | inr (c, p, s, f, e) ↦ ground arith
]

pub reject_if-eq-ok :
    {B : Type 0} (t : Bool) (e : ParseError) (k : Action B) (r : Reader) {y : B × Reader}
    → (reject_if t e >> k) r ≡ ok y
    → (t ≡ false) × (k r ≡ ok y)
reject_if-eq-ok true e k r h = cc
reject_if-eq-ok false e k r h = (refl, h)

pub reject_if_last :
    (t : Bool) (e : ParseError) (r : Reader) {q : Reader}
    → reject_if t e r ≡ ok (tt, q)
    → (t ≡ false) × (r ≡ q)
reject_if_last true e r h = absurd (cc)
reject_if_last false e r h = (refl, (ok_injective h).1)

pub pass-eq-ok :
    {B : Type 0} (v : Verdict) (k : Action B) (r : Reader) {y : B × Reader}
    → (pass v >> k) r ≡ ok y
    → (v ≡ clean) × (k r ≡ ok y)
pass-eq-ok clean k r h = (refl, h)
pass-eq-ok (found m) k r h = cc
pass-eq-ok fault k r h = cc
