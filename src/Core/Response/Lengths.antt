-- ===== src/Core/Response/Lengths.antt =====
-- core/response.go and http/parser.go: the length that a response writes is the one that the parser reads.
use multi_threaded_web_serve.Core.Response.{decimal, digits}
use multi_threaded_web_serve.Go.Reader.{Reader}
use multi_threaded_web_serve.Go.Strings.{atoi_digits, decimal_value, max_int}
use multi_threaded_web_serve.Http.Action.{invalid_content_length, reject_if, ◌>>◌}
use multi_threaded_web_serve.Http.Chars.{all_bytes, is_decimal, max_body_bytes}
use multi_threaded_web_serve.Http.Parser.{announced_length, length_check}
use multi_threaded_web_serve.Base.{
  ℕ, zero, suc, ◌+◌, ◌*◌, ◌-◌, ◌/◌, ◌%◌, ◌≤◌, ◌<◌, Bool, true, false, not, [], ◌∷◌, ◌≡◌, ◌∙◌, refl,
  ap, Bool-cases, inl, inr, Option, none, some, arith, Bytes, is_empty, leb, ltb, ltb→lt, ltb→le,
  within, ok, if◌then◌else◌,
}

digit_value : (a n : ℕ) → a * 10 + (b'0' + n % 10 - b'0') ≡ a * 10 + n % 10
digit_value a n = omega arith

-- The digits of a number, with enough fuel, have its value.
digits-value :
    (fuel n : ℕ) (s : Bytes) → n < fuel → decimal_value 0 (digits fuel n s) ≡ decimal_value n s
unfolding digits decimal_value
digits-value zero n s h = absurd (omega arith)
digits-value (suc fuel) n s h = elim (Bool-cases (ltb n 10)) [
  | inl y ↦ rw (digits, y) (ap (λ m. decimal_value m s) (omega (arith, ltb→lt n 10 y)))
  | inr k ↦
      rw (digits, k)
        (digits-value fuel (n / 10) ((b'0' + n % 10) ∷ s) (omega (arith, ltb→le n 10 k))
          ∙ ap (λ m. decimal_value m s) (omega (arith)))
]

digit_is : (n : ℕ) → within b'0' b'9' (b'0' + n % 10) ≡ true
digit_is n = ground arith

digits-decimal :
    (fuel n : ℕ) (s : Bytes)
    → all_bytes (within b'0' b'9') s ≡ true
    → all_bytes (within b'0' b'9') (digits fuel n s) ≡ true
unfolding digits all_bytes
digits-decimal zero n s h = h
digits-decimal (suc fuel) n s h =
    let more : all_bytes (within b'0' b'9') ((b'0' + n % 10) ∷ s) ≡ true =
      rw (all_bytes, digit_is n) h in
    elim (Bool-cases (ltb n 10)) [
      | inl y ↦ rw (digits, y) more
      | inr k ↦ rw (digits, k) (digits-decimal fuel (n / 10) ((b'0' + n % 10) ∷ s) more)
    ]

digits-given : (fuel n d : ℕ) (s : Bytes) → is_empty (digits fuel n (d ∷ s)) ≡ false
unfolding digits
digits-given zero n d s = refl
digits-given (suc fuel) n d s = elim (Bool-cases (ltb n 10)) [
  | inl y ↦ rw (digits, y) refl
  | inr k ↦ rw (digits, k) (digits-given fuel (n / 10) (b'0' + n % 10) (d ∷ s))
]

decimal-given : (n : ℕ) → is_empty (decimal n) ≡ false
unfolding decimal digits
decimal-given n = elim (Bool-cases (ltb n 10)) [
  | inl y ↦ rw (decimal, digits, y) refl
  | inr k ↦ rw (decimal, digits, k) (digits-given n (n / 10) (b'0' + n % 10) [])
]

decimal-IsDecimal : (n : ℕ) → is_decimal (decimal n) ≡ true
unfolding is_decimal decimal all_bytes
decimal-IsDecimal n = rw (is_decimal, decimal-given n) (digits-decimal (suc n) n [] refl)

decimal-value : (n : ℕ) → decimal_value 0 (decimal n) ≡ n
unfolding decimal decimal_value
decimal-value n = digits-value (suc n) n [] (omega arith)

atoi_digits-decimal : (n : ℕ) → n ≤ max_int → atoi_digits (decimal n) ≡ some n
unfolding atoi_digits
atoi_digits-decimal n h =
    ap (λ (m : ℕ). if leb m max_int then some m else none) (decimal-value n) ∙ within_int
  where
    within_int : (if leb n max_int then some n else none) ≡ some n
    within_int = ground arith

length_check-within :
    (text : Bytes) (n : ℕ) (r : Reader)
    → n ≤ max_body_bytes
    → length_check text (some n) r ≡ ok (n, r)
unfolding length_check
length_check-within text n r h = elim (Bool-cases (ltb max_body_bytes n)) [
  | inl y ↦ absurd (omega (arith, h, ltb→lt max_body_bytes n y))
  | inr k ↦ rw (length_check, k) refl
]

-- A length within the limit of the body, as a response writes it, is read by the parser as that
-- length, and nothing of the input is taken.
pub announced_length-decimal :
    (n : ℕ) (r : Reader) → n ≤ max_body_bytes → announced_length (some (decimal n)) r ≡ ok (n, r)
unfolding announced_length
announced_length-decimal n r h =
    ap
      (λ (b : Bool).
        (reject_if (not b) (invalid_content_length (decimal n))
            >> length_check (decimal n) (atoi_digits (decimal n)))
          r)
      (decimal-IsDecimal n)
    ∙ ap (λ (m : Option ℕ). length_check (decimal n) m r) (atoi_digits-decimal n (omega (arith, h)))
    ∙ length_check-within (decimal n) n r h
