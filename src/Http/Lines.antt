-- ===== src/Http/Lines.antt =====
-- http/parser.go: what `readLineLimited` reads.
use mathlib.Core.List.{reverse-cons}
use multi_threaded_web_serve.Go.Reader.{Reader}
use multi_threaded_web_serve.Go.Reading.{rest}
use multi_threaded_web_serve.Http.Action.{
  ParseError, byte_or, byte_or-eq-ok, byte_or_step, bind_step, bind_ok,
}
use multi_threaded_web_serve.Http.Read.{
  ends_line, line_fault, read_line, read_line_limited, without_cr,
}
use multi_threaded_web_serve.Base.{
  ℕ, zero, suc, ◌+◌, ◌≤◌, Bool, true, false, ◌&&◌, ◌||◌, [], ◌∷◌, ◌++◌, ◌≡◌, refl, sym, ap, ◌∙◌,
  inl, inr, arith, ◌==◌, Bool-cases, Bytes, Result, ok, reverse, append_assoc, append-nil, length,
  length-append,
}

-- A carriage return and a line feed, one behind the other.
abbrev pub starts_crlf : ℕ → Bytes → Bool
starts_crlf a [] = false
starts_crlf a (b ∷ s) = a == b'\r' && b == b'\n'

unfoldable pub has_crlf : Bytes → Bool
has_crlf [] = false
has_crlf (a ∷ s) = starts_crlf a s || has_crlf s

abbrev pub crlf : Bytes
crlf = b'\r' ∷ b'\n' ∷ []

has_crlf-two :
    (s : Bytes) (c b : ℕ)
    → has_crlf (s ++ c ∷ b ∷ []) ≡ has_crlf (s ++ c ∷ []) || (c == b'\r' && b == b'\n')
unfolding has_crlf
has_crlf-two [] c b = ground arith
has_crlf-two (a ∷ []) c b = ground arith
has_crlf-two (a ∷ d ∷ s) c b = ground (arith, has_crlf-two (d ∷ s) c b)

has_crlf-concat :
    (back : Bytes) (b : ℕ)
    → has_crlf (reverse (b ∷ back)) ≡ has_crlf (reverse back) || ends_line back b
has_crlf-concat [] b = unfold has_crlf in refl
has_crlf-concat (c ∷ back) b =
    rw
      (
        reverse-cons b (c ∷ back),
        reverse-cons c back,
        append_assoc (reverse back) (c ∷ []) (b ∷ []),
      )
      (has_crlf-two (reverse back) c b)

has_crlf_left : (s t : Bytes) → has_crlf (s ++ t) ≡ false → has_crlf s ≡ false
unfolding has_crlf
has_crlf_left [] t h = refl
has_crlf_left (a ∷ []) t h = refl
has_crlf_left (a ∷ b ∷ s) t h = ground (arith, has_crlf_left (b ∷ s) t)

-- At the end of a line its bytes so far, and the last one, are the line and CRLF.
ends_line-crlf :
    (back : Bytes) (b : ℕ)
    → ends_line back b ≡ true
    → reverse back ++ b ∷ [] ≡ without_cr back ++ crlf
ends_line-crlf [] b h = cc
ends_line-crlf (c ∷ back) b h =
    let c_is : c ≡ b'\r' = ground arith in
    let b_is : b ≡ b'\n' = ground arith in
    rw (c_is, b_is, reverse-cons b'\r' back) (append_assoc (reverse back) _ _)

without_cr-has_crlf :
    (back : Bytes) → has_crlf (reverse back) ≡ false → has_crlf (without_cr back) ≡ false
without_cr-has_crlf [] h = unfold has_crlf in refl
without_cr-has_crlf (c ∷ back) h =
    has_crlf_left (reverse back) (c ∷ []) (rw (reverse-cons c back) at h)

-- The loop reads `s`, and has then read a line.
pub record ReadsLine (room : ℕ) (back : Bytes) (r q : Reader) (line : Bytes) : Type 0 where
  read : Bytes
  splits : rest r ≡ read ++ rest q
  makes : reverse back ++ read ≡ line ++ crlf
  no_crlf : has_crlf line ≡ false
  fits : length read ≤ room
  same_fault : q.fault ≡ r.fault

abbrev Took : ℕ → Reader → Reader → Type 0
Took b r p = (rest r ≡ b ∷ rest p) × (p.fault ≡ r.fault)

ReadsLine-end :
    {room b : ℕ} {back : Bytes} {r p q : Reader} {line : Bytes}
    → Took b r p
    → has_crlf (reverse back) ≡ false
    → ends_line back b ≡ true
    → ◌≡◌ {A = Result ParseError (Bytes × Reader)} (ok (without_cr back, p)) (ok (line, q))
    → ReadsLine (suc room) back r q line
ReadsLine-end {room} {b} {back} {r} {p} {q} {line} (s, f) c x h =
    let same_line : without_cr back ≡ line = cc in
    let same_reader : p ≡ q = cc in
    rw (← same_line, ← same_reader)
      (record {
        read = b ∷ [];
        splits = s;
        makes = ends_line-crlf back b x;
        no_crlf = without_cr-has_crlf back c;
        fits = omega arith;
        same_fault = f;
      })

ReadsLine-next :
    {room b : ℕ} {back : Bytes} {r p q : Reader} {line : Bytes}
    → Took b r p
    → ReadsLine room (b ∷ back) p q line
    → ReadsLine (suc room) back r q line
ReadsLine-next {b = b} {back} (s, f) l = record {
  read = b ∷ l.read;
  splits = s ∙ ap (◌∷◌ b) l.splits;
  makes = sym (append_assoc (reverse back) (b ∷ []) l.read) ∙ rw (← reverse-cons b back) l.makes;
  no_crlf = l.no_crlf;
  fits = omega (arith, l.fits);
  same_fault = l.same_fault ∙ f;
}

read_line_sound :
    (max room : ℕ) (back : Bytes) (r q : Reader) (line : Bytes)
    → read_line max room back r ≡ ok (line, q)
    → has_crlf (reverse back) ≡ false
    → ReadsLine room back r q line
unfolding read_line
read_line_sound max zero back r q line h c =
    bind_ok (byte_or (line_fault back)) _ r h (λ b p e k. absurd (cc))
read_line_sound max (suc room) back r q line h c =
    bind_ok (byte_or (line_fault back)) _ r h λ b p e k. elim (Bool-cases (ends_line back b)) [
      | inl x ↦ ReadsLine-end (byte_or-eq-ok _ r e) c x (rw x at k)
      | inr x ↦ ReadsLine-next (byte_or-eq-ok _ r e) (
          read_line_sound max room (b ∷ back) p q line (rw x at k)
            (rw (has_crlf-concat back b, c, x)))
    ]

-- `readLineLimited` returns a line only where the input begins with it and CRLF; the line holds no
-- CRLF, fits the limit with its end, and the reader stands behind it.
pub read_line_limited_sound :
    (max : ℕ) (r q : Reader) (line : Bytes)
    → read_line_limited max r ≡ ok (line, q)
    → (rest r ≡ line ++ crlf ++ rest q)
      × (has_crlf line ≡ false)
      × (length line + 2 ≤ max)
      × (q.fault ≡ r.fault)
unfolding read_line_limited
read_line_limited_sound max r q line h =
    let l = read_line_sound max max [] r q line h (unfold has_crlf in refl) in
    (
      l.splits ∙ ap (λ s. s ++ rest q) l.makes,
      l.no_crlf,
      omega (arith, ap length l.makes, length-append line crlf, l.fits),
      l.same_fault,
    )

abbrev TookLine : ℕ → ℕ → Bytes → Reader → Bytes → Bytes → Type 0
TookLine max room back r line t =
    (q : Reader) × (read_line max room back r ≡ ok (line, q)) × (rest q ≡ t) × (q.fault ≡ r.fault)

-- A byte that does not end the line is put behind those that are read.
read_line-next :
    (max room : ℕ) (back : Bytes) (r : Reader) (b : ℕ) (s t line : Bytes)
    → rest r ≡ b ∷ s
    → ends_line back b ≡ false
    → ((p : Reader) → rest p ≡ s → TookLine max room (b ∷ back) p line t)
    → TookLine max (suc room) back r line t
unfolding read_line
read_line-next max room back r b s t line h n k =
    let (p, e, s_is, f) = byte_or_step (line_fault back) r b s h in
    let (q, read, left, same) = k p s_is in
    (q, bind_step (byte_or (line_fault back)) _ r e ∙ rw n read, left, same ∙ f)

read_line-last :
    (max room : ℕ) (back : Bytes) (r : Reader) (t : Bytes)
    → rest r ≡ b'\n' ∷ t
    → TookLine max (suc room) (b'\r' ∷ back) r (reverse back) t
unfolding read_line
read_line-last max room back r t h =
    let (p, e, t_is, f) = byte_or_step (line_fault (b'\r' ∷ back)) r b'\n' t h in
    (p, bind_step (byte_or (line_fault (b'\r' ∷ back))) _ r e, t_is, f)

has_crlf-cr : (s : Bytes) → has_crlf (s ++ b'\r' ∷ []) ≡ has_crlf s
unfolding has_crlf
has_crlf-cr [] = refl
has_crlf-cr (a ∷ []) = ground arith
has_crlf-cr (a ∷ b ∷ s) = ground (arith, has_crlf-cr (b ∷ s))

-- A byte that goes on without CRLF does not end the line.
not_ends_line :
    (back : Bytes) (b : ℕ) (s : Bytes)
    → has_crlf (reverse back ++ b ∷ s) ≡ false
    → ends_line back b ≡ false
not_ends_line back b s h = ground (
  arith,
  has_crlf-concat back b,
  has_crlf_left (reverse (b ∷ back)) s
      (rw (reverse-cons b back) (rw (append_assoc (reverse back) (b ∷ []) s) h)),
)

read_line_complete :
    (max room : ℕ) (back s : Bytes) (r : Reader) (t : Bytes)
    → rest r ≡ s ++ crlf ++ t
    → has_crlf (reverse back ++ s) ≡ false
    → length s + 2 ≤ room
    → TookLine max room back r (reverse back ++ s) t
read_line_complete max (suc (suc room)) back [] r t h n fits = rw (append-nil (reverse back)) (
    read_line-next max (suc room) back r b'\r' (b'\n' ∷ t) t (reverse back) h
      (not_ends_line back b'\r' [] (has_crlf-cr (reverse back) ∙ (rw append-nil at n)))
      (λ p e. read_line-last max room back p t e))
read_line_complete max (suc room) back (b ∷ s) r t h n fits =
    read_line-next max room back r b (s ++ crlf ++ t) t (reverse back ++ b ∷ s) h
      (not_ends_line back b s n)
      (λ p e.
        let joined : reverse (b ∷ back) ++ s ≡ reverse back ++ b ∷ s =
          rw (reverse-cons b back) (append_assoc (reverse back) (b ∷ []) s) in
        rw joined at (read_line_complete max room (b ∷ back) s p t e (rw joined n) (omega arith)))
read_line_complete max zero back s r t h n fits = absurd (omega arith)
read_line_complete max (suc zero) back [] r t h n fits = absurd (omega arith)

-- A line of the input that fits the limit with its CRLF is read, whatever follows it.
pub read_line_limited_complete :
    (max : ℕ) (r : Reader) (line t : Bytes)
    → rest r ≡ line ++ crlf ++ t
    → has_crlf line ≡ false
    → length line + 2 ≤ max
    → (q : Reader) × (read_line_limited max r ≡ ok (line, q)) × (rest q ≡ t) × (q.fault ≡ r.fault)
unfolding read_line_limited
read_line_limited_complete max r line t = read_line_complete max max [] line r t
