-- ===== src/Waf/Stream.antt =====
-- security/waf/automaton.go against normalize.go: what the scanner shows to the automaton.
use multi_threaded_web_serve.Waf.Normalize.{
  append_byte, is_whitespace, lower_ascii, normalize, normalize_loop, opens_comment, skip_comment,
  trim_trailing_space,
}
use multi_threaded_web_serve.Waf.Automaton.{Automaton, root}
use multi_threaded_web_serve.Waf.Scanner.{new_scanner}
use multi_threaded_web_serve.Waf.Walk.{scan, walk}
use multi_threaded_web_serve.Waf.Pending.{and_left, and_right, pending, scan-walk, spaced}
use multi_threaded_web_serve.Base.{
  ℕ, zero, suc, ◌≤◌, Bool, true, false, not, ◌&&◌, [], ◌∷◌, ◌++◌, ◌≡◌, refl, sym, ap, ◌∙◌, Option,
  none, some, arith, ◌==◌, if◌then◌else◌, Bytes, Bool-cases, Option-cases, ==_iff, inl, inr,
  append_assoc, append-nil, length, length-drop, drop, is_empty,
}

-- `out` does not end in a space.
abbrev IsTrimmed : Bytes → Type 0
IsTrimmed out = trim_trailing_space out ≡ out

trim_trailing_space-concat :
    (out : Bytes) (b : ℕ) → b == b' ' ≡ false → trim_trailing_space (out ++ b ∷ []) ≡ out ++ b ∷ []
unfolding trim_trailing_space
trim_trailing_space-concat [] b h = rw h
trim_trailing_space-concat (c ∷ []) b h = ap (◌∷◌ c) (trim_trailing_space-concat [] b h)
trim_trailing_space-concat (c ∷ d ∷ out) b h = ap (◌∷◌ c) (trim_trailing_space-concat (d ∷ out) b h)

whitespace-ne-slash : (b : ℕ) → is_whitespace b ≡ true → b == b'/' ≡ false
unfolding is_whitespace
whitespace-ne-slash b h = ground arith

lower_ascii-ne-space : (b : ℕ) → is_whitespace b ≡ false → lower_ascii b == b' ' ≡ false
unfolding is_whitespace lower_ascii
lower_ascii-ne-space b h = ground arith

append_byte-IsTrimmed :
    (sp : Bool) (out : Bytes) (b : ℕ) → is_whitespace b ≡ false → IsTrimmed (append_byte sp out b)
unfolding append_byte
append_byte-IsTrimmed sp out b h = trim_trailing_space-concat _ _ (lower_ascii-ne-space b h)

append_byte-spaced :
    (sp : Bool) (out rest : Bytes) (b : ℕ)
    → append_byte sp out b ++ rest ≡ out ++ spaced sp (not (is_empty out)) (lower_ascii b ∷ rest)
unfolding append_byte spaced
append_byte-spaced sp out rest b = elim (Bool-cases (sp && not (is_empty out))) [
  | inl e ↦ rw e (simp append_assoc)
  | inr e ↦ rw e (simp append_assoc)
]

append_byte-not_empty : (sp : Bool) (out : Bytes) (b : ℕ) → is_empty (append_byte sp out b) ≡ false
unfolding append_byte
append_byte-not_empty true [] b = refl
append_byte-not_empty false [] b = refl
append_byte-not_empty true (c ∷ out) b = refl
append_byte-not_empty false (c ∷ out) b = refl

skip_comment-cons :
    (b : ℕ) (input : Bytes) → b == b'*' ≡ false → skip_comment (b ∷ input) ≡ skip_comment input
unfolding skip_comment
skip_comment-cons b [] h = refl
skip_comment-cons b (c ∷ input) h = rw h

abbrev after_comment : Bool → Option Bytes → Bytes
after_comment em none = []
after_comment em (some rest) = pending false false false true em rest

abbrev starred : Bool → Bytes → Bytes
starred star input = if star then b'*' ∷ input else input

-- In a comment the scanner waits for what `Normalize` skips to.
module _ (sp em : Bool) where
  pending-star :
      (b : ℕ) (input : Bytes)
      → ((star : Bool)
          → pending true false star sp em input
            ≡ after_comment em (skip_comment (starred star input)))
      → pending true false (b == b'*') sp em input ≡ after_comment em (skip_comment (b ∷ input))
  pending-star b input ih = elim (Bool-cases (b == b'*')) [
    | inl e ↦ rw (e, (==_iff b b'*').0 e) (ih true)
    | inr e ↦ rw (e, skip_comment-cons b input e) (ih false)
  ]

  pending-skip_comment :
      (input : Bytes) (star : Bool)
      → pending true false star sp em input ≡ after_comment em (skip_comment (starred star input))
  unfolding pending skip_comment
  pending-skip_comment [] true = refl
  pending-skip_comment [] false = refl
  pending-skip_comment (b ∷ input) false = pending-star b input (pending-skip_comment input)
  pending-skip_comment (b ∷ input) true = elim (Bool-cases (b == b'/')) [
    | inl e ↦ rw e
    | inr e ↦ rw e (pending-star b input (pending-skip_comment input))
  ]

skip_comment-le : (input rest : Bytes) → skip_comment input ≡ some rest → length rest ≤ length input
unfolding skip_comment
skip_comment-le [] rest h = cc
skip_comment-le (a ∷ []) rest h = cc
skip_comment-le (a ∷ b ∷ s) rest h = elim (Bool-cases (a == b'*' && b == b'/')) [
  | inl e ↦ ground arith
  | inr e ↦ ground (arith, skip_comment-le (b ∷ s) rest)
]

-- Whether the loop has written anything yet.
abbrev wrote : Bytes → Bool
wrote out = not (is_empty out)

pending_comment :
    (sp em : Bool) (b : ℕ) (input : Bytes)
    → opens_comment b input ≡ true
    → pending false false false sp em (b ∷ input) ≡ after_comment em (skip_comment (drop 1 input))
unfolding pending opens_comment
pending_comment sp em b [] h = cc
pending_comment sp em b (c ∷ input) h =
    let slash : b == b'/' ≡ true = and_left _ _ h in
    let star : c == b'*' ≡ true = and_right _ _ h in
    rw (slash, star) (pending-skip_comment true em input false)

pending_whitespace :
    (sp em : Bool) (b : ℕ) (input : Bytes)
    → is_whitespace b ≡ true
    → pending false false false sp em (b ∷ input) ≡ pending false false false true em input
unfolding pending
pending_whitespace sp em b input h = rw (whitespace-ne-slash b h, h)

pending_slash :
    (sp em : Bool) (input : Bytes)
    → opens_comment b'/' input ≡ false
    → pending false false false sp em (b'/' ∷ input)
      ≡ spaced sp em (lower_ascii b'/' ∷ pending false false false false true input)
unfolding pending opens_comment lower_ascii
pending_slash sp em [] h = refl
pending_slash sp em (c ∷ input) h = rw h

pending_byte :
    (sp em : Bool) (b : ℕ) (input : Bytes)
    → opens_comment b input ≡ false
    → is_whitespace b ≡ false
    → pending false false false sp em (b ∷ input)
      ≡ spaced sp em (lower_ascii b ∷ pending false false false false true input)
pending_byte sp em b input h w = elim (Bool-cases (b == b'/')) [
  | inl e ↦ rw ((==_iff b b'/').0 e) (pending_slash sp em input (rw ((==_iff b b'/').0 e) at h))
  | inr e ↦ unfold pending in rw (e, w)
]

-- The loop of `Normalize` writes what a scanner in the same situation has pending.
normalize_loop-pending :
    (fuel : ℕ) (input : Bytes) (sp : Bool) (out : Bytes)
    → length input ≤ fuel
    → IsTrimmed out
    → normalize_loop fuel input sp out ≡ out ++ pending false false false sp (wrote out) input
unfolding normalize_loop pending
normalize_loop-pending zero [] sp out h t = t ∙ sym (append-nil out)
normalize_loop-pending zero (b ∷ input) sp out h t = absurd (omega arith)
normalize_loop-pending (suc fuel) [] sp out h t = t ∙ sym (append-nil out)
normalize_loop-pending (suc fuel) (b ∷ input) sp out h t =
    elim (Bool-cases (opens_comment b input)) [
      | inl e ↦ rw (pending_comment sp (wrote out) b input e) (
          rw (e, normalize_loop)
            (elim (Option-cases (skip_comment (drop 1 input))) [
              | inl n ↦ rw n (t ∙ sym (append-nil out))
              | inr (rest, n) ↦ rw n (
                  normalize_loop-pending fuel rest true out
                    (omega (arith, skip_comment-le _ rest n, length-drop 1 input)) t)
            ]))
      | inr e ↦ elim (Bool-cases (is_whitespace b)) [
        | inl e' ↦ rw (pending_whitespace sp (wrote out) b input e') (
            rw (e, normalize_loop)
              (rw (e', normalize_loop)
                (normalize_loop-pending fuel input true out (omega arith) t)))
        | inr e' ↦ rw (pending_byte sp (wrote out) b input e e') (
            rw (e, normalize_loop)
              (rw (e', normalize_loop)
                (normalize_loop-pending fuel input false (append_byte sp out b) (omega arith)
                    (append_byte-IsTrimmed sp out b e')
                  ∙ rw (append_byte-not_empty sp out b) (append_byte-spaced sp out _ b))))
      ]
    ]

-- One scanner over one value shows the automaton the bytes of `Normalize`, and stops at the first
-- match: it finds what the automaton finds in them.
pub scan-normalize :
    (a : Automaton) (field input : Bytes)
    → (scan a field new_scanner input).1 ≡ walk a.nodes field root (normalize input)
unfolding normalize
scan-normalize a field input =
    scan-walk a field input new_scanner
    ∙ ap (walk a.nodes field root) (
        sym (
          normalize_loop-pending (length input) input false [] (omega arith)
            (unfold trim_trailing_space in refl)))
