-- ===== src/Http/Sizes.antt =====
-- http/parser.go: the number on the size line of a chunk.
use multi_threaded_web_serve.Go.Strings.{cut, trim_space}
use multi_threaded_web_serve.Http.Chars.{
  chunk_size_loop, hex_value, max_body_bytes, parse_chunk_size, size_of_text, size_text,
}
use multi_threaded_web_serve.Base.{
  ℕ, ◌+◌, ◌-◌, ◌*◌, ◌/◌, ◌≤◌, false, [], ◌∷◌, ◌≡◌, refl, ◌↔◌, inl, inr, Option, none, some, arith,
  ltb, Bool-cases, Option-cases, Bytes, ok, is_empty,
}

-- The number that hexadecimal digits stand for, with `n` in front of them; `none` if a byte is no
-- digit.
pub hex_number : ℕ → Bytes → Option ℕ
hex_number n [] = some n
hex_number n (b ∷ s) = elim (hex_value b) [
  | none ↦ none
  | some digit ↦ hex_number (n * 16 + digit) s
]

hex_number-le : (s : Bytes) (n m : ℕ) → hex_number n s ≡ some m → n ≤ m
unfolding hex_number
hex_number-le [] n m h = ground arith
hex_number-le (b ∷ s) n m h = elim (Option-cases (hex_value b)) [
  | inl e ↦ absurd (ground arith)
  | inr (d, e) ↦ ground (arith, hex_number-le s (n * 16 + d) m)
]

hex_value-lt : (b d : ℕ) → hex_value b ≡ some d → d ≤ 15
unfolding hex_value
hex_value-lt b d h = ground arith

-- The test before each step lets the next value pass exactly when it fits the limit.
chunk_size_sound :
    (line s : Bytes) (size n : ℕ)
    → size ≤ max_body_bytes
    → chunk_size_loop line size s ≡ ok n
    → (hex_number size s ≡ some n) × (n ≤ max_body_bytes)
unfolding chunk_size_loop hex_number
chunk_size_sound line [] size n l h = ground arith
chunk_size_sound line (b ∷ s) size n l h = elim (Option-cases (hex_value b)) [
  | inl e ↦ absurd (ground arith)
  | inr (d, e) ↦
      let small = hex_value-lt b d e in
      elim (Bool-cases (ltb ((max_body_bytes - d) / 16) size)) [
        | inl x ↦ absurd (ground arith)
        | inr x ↦
            rw (e, hex_number)
              (chunk_size_sound line s (size * 16 + d) n (ground arith) (ground arith))
      ]
]

chunk_size_complete :
    (line s : Bytes) (size n : ℕ)
    → hex_number size s ≡ some n
    → n ≤ max_body_bytes
    → chunk_size_loop line size s ≡ ok n
unfolding chunk_size_loop hex_number
chunk_size_complete line [] size n h l = ground arith
chunk_size_complete line (b ∷ s) size n h l = elim (Option-cases (hex_value b)) [
  | inl e ↦ absurd (ground arith)
  | inr (d, e) ↦
      let small = hex_value-lt b d e in
      let later : hex_number (size * 16 + d) s ≡ some n = ground arith in
      let fits = hex_number-le s (size * 16 + d) n later in
      ground (arith, chunk_size_complete line s (size * 16 + d) n later l)
]

-- The text of the size: what stands before a ';', without white space round it.
abbrev pub size_digits : Bytes → Bytes
size_digits line = trim_space (size_text (cut b';' line) line)

size_of_text_iff :
    (line text : Bytes) (n : ℕ)
    → (size_of_text line text ≡ ok n)
      ↔ ((is_empty text ≡ false) × (hex_number 0 text ≡ some n) × (n ≤ max_body_bytes))
unfolding size_of_text
size_of_text_iff line [] n = (λ h. absurd (cc), λ h. absurd (cc))
size_of_text_iff line (b ∷ s) n = (
  λ h.
      let (number, small) = chunk_size_sound line (b ∷ s) 0 n (omega arith) h in
      (refl, number, small),
  λ h. chunk_size_complete line (b ∷ s) 0 n h.1 h.2,
)

-- A size line is accepted exactly when it has a hexadecimal number that is at most
-- `maxBodyBytes`, and the result is that number.
pub parse_chunk_size_iff :
    (line : Bytes) (n : ℕ)
    → (parse_chunk_size line ≡ ok n) ↔ (
        (is_empty (size_digits line) ≡ false)
        × (hex_number 0 (size_digits line) ≡ some n)
        × (n ≤ max_body_bytes))
unfolding parse_chunk_size
parse_chunk_size_iff line n = size_of_text_iff line (size_digits line) n
