-- ===== src/Http/Complete/Words.antt =====
-- http/parser.go with Go's strings package: words of visible bytes, and the request line that they make.
use mathlib.Core.List.{reverse-cons, reverse-reverse, reverse_aux}
use mathlib.Core.Bool.{false≢true}
use multi_threaded_web_serve.Go.Strings.{
  ascii_space, fields, fields_from, flush_field, space_width, space_width_back, trim_by, trim_space,
  wide_space,
}
use multi_threaded_web_serve.Http.Action.{
  invalid_method, pass, reject_if, unsupported_request_target,
}
use multi_threaded_web_serve.Http.Chars.{
  all_bytes, is_origin_form, is_token, is_token_char, max_request_line_bytes,
}
use multi_threaded_web_serve.Http.Complete.{
  Gives, >>=-Gives, pass-Gives, pure-Gives, read_line_limited-Gives, reject_if-Gives,
}
use multi_threaded_web_serve.Http.Lines.{crlf, has_crlf}
use multi_threaded_web_serve.Http.Read.{
  check_parts, read_line_limited, read_request_line, scan_field,
}
use multi_threaded_web_serve.Waf.Automaton.{Automaton}
use multi_threaded_web_serve.Waf.Scanner.{clean}
use multi_threaded_web_serve.Base.{
  ℕ, ◌+◌, ◌≤◌, Bool, true, false, not, ◌&&◌, [], ◌∷◌, ◌++◌, ◌≡◌, ◌∙◌, refl, sym, ap, reverse,
  append-nil, Option, arith, Bool-cases, inl, inr, ◌==◌, Bytes, codes, is_empty, length, within,
  if◌then◌else◌,
}

-- Printable ASCII, and no space.
abbrev pub visible : ℕ → Bool
visible b = within 33 126 b

-- A word: a byte at least, and all of them visible.
abbrev pub IsWord : Bytes → Type 0
IsWord s = (is_empty s ≡ false) × (all_bytes visible s ≡ true)

pub token_char-visible : (b : ℕ) → is_token_char b ≡ true → visible b ≡ true
unfolding is_token_char
token_char-visible b h = ground arith

wide-visible : (a : ℕ) (s : Bytes) → visible a ≡ true → wide_space a s ≡ 0
unfolding wide_space
wide-visible a [] h = refl
wide-visible a (b ∷ []) h = ground arith
wide-visible a (b ∷ c ∷ s) h = ground arith

space_width-visible : (a : ℕ) (s : Bytes) → visible a ≡ true → space_width (a ∷ s) ≡ 0
unfolding space_width
space_width-visible a s h = ground (arith, wide-visible a s h)

none_wide :
    (ascii : Bool) (two three : ℕ)
    → ascii ≡ false
    → two ≡ 0
    → (three == 3) ≡ false
    → ◌≡◌ {A = ℕ} (if ascii then 1 else if two == 2 then 2 else if three == 3 then 3 else 0) 0
none_wide ascii two three a b c = ground arith

not_wide : (a b c : ℕ) → visible c ≡ true → (wide_space a (b ∷ c ∷ []) == 3) ≡ false
unfolding wide_space
not_wide a b c h = ground arith

space_width_back-visible : (a : ℕ) (s : Bytes) → visible a ≡ true → space_width_back (a ∷ s) ≡ 0
unfolding space_width_back wide_space
space_width_back-visible c [] h = ground arith
space_width_back-visible c (b ∷ []) h = ground arith
space_width_back-visible c (b ∷ a ∷ s) h =
    none_wide (ascii_space c) (wide_space b (c ∷ [])) (wide_space a (b ∷ c ∷ [])) (ground arith)
      (ground arith) (not_wide a b c h)

pub and-true : (x y : Bool) → (x && y) ≡ true → (x ≡ true) × (y ≡ true)
and-true true y h = (refl, h)
and-true false y h = absurd (cc)

trim_by-visible :
    (width : Bytes → ℕ) (s : Bytes)
    → ((a : ℕ) (t : Bytes) → visible a ≡ true → width (a ∷ t) ≡ 0)
    → all_bytes visible s ≡ true
    → trim_by width 0 s ≡ s
unfolding trim_by all_bytes
trim_by-visible width [] w h = refl
trim_by-visible width (b ∷ s) w h = rw (trim_by, w b s (and-true (visible b) _ h).0) refl

all_bytes-append :
    (test : ℕ → Bool) (s t : Bytes)
    → all_bytes test (s ++ t) ≡ (all_bytes test s && all_bytes test t)
unfolding all_bytes
all_bytes-append test [] t = refl
all_bytes-append test (b ∷ s) t = elim (Bool-cases (test b)) [
  | inl y ↦ rw y (all_bytes-append test s t)
  | inr n ↦ rw n refl
]

all_bytes-reverse : (test : ℕ → Bool) (s : Bytes) → all_bytes test (reverse s) ≡ all_bytes test s
unfolding all_bytes
all_bytes-reverse test [] = refl
all_bytes-reverse test (b ∷ s) =
    ap (all_bytes test) (reverse-cons b s)
    ∙ all_bytes-append test (reverse s) (b ∷ [])
    ∙ swapped (all_bytes test (reverse s)) (test b) (all_bytes test s) (all_bytes-reverse test s)
  where
    swapped : (x y z : Bool) → x ≡ z → (x && (y && true)) ≡ (y && z)
    swapped true true z e = e
    swapped true false z e = refl
    swapped false true z e = e
    swapped false false z e = refl

-- There is nothing to trim.
pub trim_space-visible : (s : Bytes) → all_bytes visible s ≡ true → trim_space s ≡ s
unfolding trim_space
trim_space-visible s h =
    ap (λ t. reverse (trim_by space_width_back 0 (reverse t)))
      (trim_by-visible space_width s space_width-visible h)
    ∙ ap reverse (
        trim_by-visible space_width_back (reverse s) space_width_back-visible
          (all_bytes-reverse visible s ∙ h))
    ∙ reverse-reverse s

-- The bytes of a word are put behind those of the field that is being read.
fields_from-word :
    (back w s : Bytes)
    → all_bytes visible w ≡ true
    → fields_from 0 back (w ++ s) ≡ fields_from 0 (reverse_aux w back) s
unfolding all_bytes fields_from
fields_from-word back [] s h = refl
fields_from-word back (b ∷ w) s h =
    let (v, vs) = and-true (visible b) _ h in
    rw (fields_from, space_width-visible b (w ++ s) v) (fields_from-word (b ∷ back) w s vs)

flush-word : (w : Bytes) → is_empty w ≡ false → flush_field (reverse w) ≡ w ∷ []
flush-word w h = go (reverse w) (reverse-reverse w)
  where
    go : (back : Bytes) → reverse back ≡ w → flush_field back ≡ w ∷ []
    go [] e = absurd (false≢true (sym h ∙ ap is_empty (sym e)))
    go (b ∷ back) e = ap (λ x. x ∷ []) e

fields_from-space :
    (w s : Bytes) → IsWord w → fields_from 0 [] (w ++ b' ' ∷ s) ≡ w ∷ fields_from 0 [] s
unfolding fields_from space_width
fields_from-space w s (given, seen) =
    fields_from-word [] w (b' ' ∷ s) seen ∙ ap (λ x. x ++ fields_from 0 [] s) (flush-word w given)

fields_from-last : (w : Bytes) → IsWord w → fields_from 0 [] w ≡ w ∷ []
unfolding fields_from
fields_from-last w (given, seen) =
    ap (fields_from 0 []) (sym (append-nil w)) ∙ fields_from-word [] w [] seen ∙ flush-word w given

-- The request line of a method and a target.
abbrev pub request_line : Bytes → Bytes → Bytes
request_line method target = method ++ (b' ' ∷ (target ++ (b' ' ∷ codes "HTTP/1.1")))

version-IsWord : IsWord (codes "HTTP/1.1")
unfolding all_bytes
version-IsWord = (refl, refl)

fields_from-request_line :
    (method target : Bytes)
    → IsWord method
    → IsWord target
    → fields_from 0 [] (request_line method target) ≡ method ∷ target ∷ codes "HTTP/1.1" ∷ []
fields_from-request_line method target m t =
    fields_from-space method (target ++ b' ' ∷ codes "HTTP/1.1") m
    ∙ ap (◌∷◌ method) (fields_from-space target (codes "HTTP/1.1") t)
    ∙ ap (λ l. method ∷ target ∷ l) (fields_from-last (codes "HTTP/1.1") version-IsWord)

fields-request_line :
    (method target : Bytes)
    → IsWord method
    → IsWord target
    → fields (request_line method target) ≡ method ∷ target ∷ codes "HTTP/1.1" ∷ []
unfolding fields
fields-request_line = fields_from-request_line

pub tokens-visible : (s : Bytes) → all_bytes is_token_char s ≡ true → all_bytes visible s ≡ true
unfolding all_bytes
tokens-visible [] h = refl
tokens-visible (b ∷ s) h =
    let (token, tokens) = and-true (is_token_char b) _ h in
    rw (token_char-visible b token) (tokens-visible s tokens)

pub token-IsWord : (s : Bytes) → is_token s ≡ true → IsWord s
unfolding is_token
token-IsWord s h =
    let (given, tokens) = and-true (not (is_empty s)) _ h in
    (not_true (is_empty s) given, tokens-visible s tokens)
  where
    not_true : (b : Bool) → not b ≡ true → b ≡ false
    not_true true h = sym h
    not_true false h = refl

-- What the request line must be for the parser to take it.
pub record IsReadable (a : Option Automaton) (method target : Bytes) : Type 0 where
  pub token : is_token method ≡ true
  pub target_word : IsWord target
  pub target_form : is_origin_form method target ≡ true
  pub harmless : scan_field a (codes "uri") target ≡ clean
  pub one_line : has_crlf (request_line method target) ≡ false
  pub fits : length (request_line method target) + 2 ≤ max_request_line_bytes

pub read_request_line-Gives :
    (a : Option Automaton) (method target t : Bytes)
    → IsReadable a method target
    → Gives
        (read_request_line a)
        (request_line method target ++ (crlf ++ t))
        (method, target, codes "HTTP/1.1")
        t
unfolding read_request_line check_parts
read_request_line-Gives a method target t i =
    >>=-Gives (read_line_limited max_request_line_bytes) _
      (read_line_limited-Gives max_request_line_bytes (request_line method target) t i.one_line
        i.fits)
      (rw (fields-request_line method target (token-IsWord method i.token) i.target_word) checked)
  where
    checked :
        Gives
          (check_parts a (method ∷ target ∷ codes "HTTP/1.1" ∷ []))
          t
          (method, target, codes "HTTP/1.1")
          t
    checked =
        >>=-Gives (reject_if (not (is_token method)) (invalid_method method)) _
          (reject_if-Gives _ _ t (ap not i.token))
          (>>=-Gives
            (reject_if (not (is_origin_form method target)) (unsupported_request_target target)) _
            (reject_if-Gives _ _ t (ap not i.target_form))
            (>>=-Gives (pass (scan_field a (codes "uri") target)) _ (pass-Gives _ t i.harmless)
              (pure-Gives _ t)))
