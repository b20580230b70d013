-- ===== src/Waf/Normalize.antt =====
-- security/waf/normalize.go. A position in the input is the list of the bytes from there on.
use multi_threaded_web_serve.Base.{
  ℕ, zero, suc, ◌-◌, ◌+◌, Bool, true, false, not, ◌&&◌, ◌||◌, [], ◌∷◌, ◌++◌, Option, none, some,
  ◌==◌, within, if◌then◌else◌, Bytes, length, drop, is_empty,
}

unfoldable pub is_whitespace : ℕ → Bool
is_whitespace b = b == b' ' || b == b'\t' || b == b'\n' || b == b'\r' || b == 11 || b == 12

unfoldable pub lower_ascii : ℕ → ℕ
lower_ascii b = if within b'A' b'Z' b then b + (b'a' - b'A') else b

-- `b == '/' && i+1 < len(input) && input[i+1] == '*'`, on the bytes behind `b`.
unfoldable pub opens_comment : ℕ → Bytes → Bool
opens_comment b [] = false
opens_comment b (c ∷ s) = b == b'/' && c == b'*'

-- The inner loop, from behind "/*": the bytes behind "*/", or `none` where the input ends first.
unfoldable pub skip_comment : Bytes → Option Bytes
skip_comment [] = none
skip_comment (a ∷ []) = none
skip_comment (a ∷ b ∷ s) = if a == b'*' && b == b'/' then some s else skip_comment (b ∷ s)

-- `value[:len(value)-1]` where the last byte is a space.
unfoldable pub trim_trailing_space : Bytes → Bytes
trim_trailing_space [] = []
trim_trailing_space (b ∷ []) = if b == b' ' then [] else b ∷ []
trim_trailing_space (b ∷ c ∷ s) = b ∷ trim_trailing_space (c ∷ s)

-- What a byte that is kept appends to `out`.
unfoldable pub append_byte : Bool → Bytes → ℕ → Bytes
unfolding lower_ascii
append_byte pending_space out b =
    (if pending_space && not (is_empty out) then out ++ b' ' ∷ [] else out) ++ lower_ascii b ∷ []

-- The outer loop. Each round takes a byte at least, so that the length of the input is fuel enough.
unfoldable pub normalize_loop : ℕ → Bytes → Bool → Bytes → Bytes
normalize_loop zero input pending_space out = trim_trailing_space out
normalize_loop (suc fuel) [] pending_space out = trim_trailing_space out
normalize_loop (suc fuel) (b ∷ input) pending_space out = elim (opens_comment b input) [
  | true ↦ elim (skip_comment (drop 1 input)) [
    | none ↦ trim_trailing_space out
    | some rest ↦ normalize_loop fuel rest true out
  ]
  | false ↦ elim (is_whitespace b) [
    | true ↦ normalize_loop fuel input true out
    | false ↦ normalize_loop fuel input false (append_byte pending_space out b)
  ]
]

unfoldable pub normalize : Bytes → Bytes
unfolding normalize_loop append_byte opens_comment skip_comment is_whitespace trim_trailing_space
normalize input = normalize_loop (length input) input false []
