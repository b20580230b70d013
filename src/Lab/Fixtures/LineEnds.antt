-- ===== src/Lab/Fixtures/LineEnds.antt =====
-- cmd/lab/main.go: what a normalized payload looks like.
use multi_threaded_web_serve.Go.Replacing.{has_suffix, replace_all, replace_from, trim_right}
use multi_threaded_web_serve.Go.Strings.{contains_byte, has_prefix}
use multi_threaded_web_serve.Lab.Fixtures.{
  blank_line, cr, crlf, lf, normalize_http_fixture, unified,
}
use multi_threaded_web_serve.Base.{
  ◌-◌, Bool, true, false, ◌&&◌, [], ◌∷◌, ◌++◌, ◌≡◌, refl, sym, ap, ◌∙◌, append_assoc, All,
  All-append, arith, Bool-cases, inl, inr, ◌==◌, ==_iff, Bytes, drop_append, is_empty, leb, length,
  length-append, same_iff, if◌then◌else◌,
}

-- Each line feed as CRLF.
abbrev pub expand : Bytes → Bytes
expand [] = []
expand (b ∷ s) = (if b == b'\n' then crlf else b ∷ []) ++ expand s

-- No carriage return.
abbrev pub NoReturn : Bytes → Type 0
NoReturn s = All (λ b. (b == b'\r') ≡ false) s

replace-expand : (s : Bytes) → replace_all lf crlf s ≡ expand s
unfolding replace_from has_prefix
replace-expand [] = refl
replace-expand (b ∷ s) = elim (Bool-cases (b == b'\n')) [
  | inl y ↦ rw (y, replace-expand s) refl
  | inr n ↦ rw (n, replace-expand s) refl
]

replace-NoReturn : (s : Bytes) → NoReturn (replace_all cr lf s)
unfolding replace_from has_prefix
replace-NoReturn [] = tt
replace-NoReturn (b ∷ s) = elim (Bool-cases (b == b'\r')) [
  | inl y ↦ rw y (refl, replace-NoReturn s)
  | inr n ↦ rw n (n, replace-NoReturn s)
]

-- On a text without a carriage return, the second replacement changes nothing.
replace-kept : (u : Bytes) → NoReturn u → replace_all cr lf u ≡ u
unfolding replace_from has_prefix
replace-kept [] h = refl
replace-kept (b ∷ u) (n, h) = rw n (ap (◌∷◌ b) (replace-kept u h))

-- The first replacement takes the expansion back.
replace-back : (u : Bytes) → NoReturn u → replace_all crlf lf (expand u) ≡ u
unfolding replace_from has_prefix
replace-back [] h = refl
replace-back (b ∷ u) (n, h) = elim (Bool-cases (b == b'\n')) [
  | inl y ↦ rw (y, (==_iff b b'\n').0 y) (ap (◌∷◌ b'\n') (replace-back u h))
  | inr k ↦ rw (k, n) (ap (◌∷◌ b) (replace-back u h))
]

text_of : Bytes → Bytes
text_of s = replace_all cr lf (replace_all crlf lf s)

unified-expand : (s : Bytes) → unified s ≡ expand (text_of s)
unfolding unified text_of
unified-expand s = replace-expand (text_of s)

unified_again : (u : Bytes) → NoReturn u → unified (expand u) ≡ expand u
unfolding text_of
unified_again u h =
    unified-expand (expand u)
    ∙ ap (λ x. expand (replace_all cr lf x)) (replace-back u h)
    ∙ ap expand (replace-kept u h)

is_empty-expand : (u : Bytes) → is_empty (expand u) ≡ is_empty u
is_empty-expand [] = refl
is_empty-expand (b ∷ u) = elim (Bool-cases (b == b'\n')) [ inl y ↦ rw y refl | inr n ↦ rw n refl ]

expand-append : (u v : Bytes) → expand (u ++ v) ≡ expand u ++ expand v
expand-append [] v = refl
expand-append (b ∷ u) v =
    ap (λ s. (if b == b'\n' then crlf else b ∷ []) ++ s) (expand-append u v)
    ∙ sym (append_assoc (if b == b'\n' then crlf else b ∷ []) (expand u) (expand v))

trim_right-NoReturn : (u : Bytes) → NoReturn u → NoReturn (trim_right lf u)
unfolding trim_right
trim_right-NoReturn [] h = tt
trim_right-NoReturn (b ∷ u) (n, h) =
    elim (Bool-cases (is_empty (trim_right lf u) && contains_byte lf b)) [
      | inl y ↦ rw y tt
      | inr k ↦ rw k (n, trim_right-NoReturn u h)
    ]

and_false : (x : Bool) → (x && false) ≡ false
and_false true = refl
and_false false = refl

trimmed_feed :
    (rest whole : Bytes)
    → expand rest ≡ whole
    → is_empty whole ≡ is_empty rest
    → (let more = if is_empty whole && true then [] else b'\n' ∷ whole in
        if is_empty more && true then [] else b'\r' ∷ more)
      ≡ expand (if is_empty rest && true then [] else b'\n' ∷ rest)
trimmed_feed [] whole e h = rw h refl
trimmed_feed (b ∷ rest) whole e h = rw h (ap (λ s. b'\r' ∷ b'\n' ∷ s) (sym e))

-- The line ends at the end of the text go in both spellings.
trim_right-expand : (u : Bytes) → NoReturn u → trim_right crlf (expand u) ≡ expand (trim_right lf u)
unfolding trim_right contains_byte
trim_right-expand [] h = refl
trim_right-expand (b ∷ u) (n, h) = elim (Bool-cases (b == b'\n')) [
  | inl y ↦
      rw ((==_iff b b'\n').0 y, trim_right-expand u h)
        (trimmed_feed (trim_right lf u) (expand (trim_right lf u)) refl
          (is_empty-expand (trim_right lf u)))
  | inr k ↦
      let no_return : (b'\r' == b) ≡ false = ground (arith, n) in
      let no_feed : (b'\n' == b) ≡ false = ground (arith, k) in
      rw
        (
          k,
          no_return,
          no_feed,
          trim_right-expand u h,
          and_false (is_empty (expand (trim_right lf u))),
          and_false (is_empty (trim_right lf u)),
        )
        (rw k refl)
]

has_suffix-append : (s suffix : Bytes) → has_suffix (s ++ suffix) suffix ≡ true
unfolding has_suffix
has_suffix-append s suffix =
    let longer : leb (length suffix) (length (s ++ suffix)) ≡ true =
      ground (arith, length-append s suffix) in
    let front : length (s ++ suffix) - length suffix ≡ length s =
      omega (arith, length-append s suffix) in
    rw (longer, front, drop_append s suffix) ((same_iff suffix suffix).1 refl)

-- A payload as the lab sends it: a text whose lines all end in CRLF, with no other carriage return
-- or line feed, and with an empty line at its end.
pub record IsFixture (s : Bytes) : Type 0 where
  pub text : Bytes
  pub no_return : NoReturn text
  pub expands : s ≡ expand text
  pub ended : has_suffix s blank_line ≡ true

normalized-IsFixture : (body : Bytes) → IsFixture (normalize_http_fixture body)
unfolding normalize_http_fixture text_of
normalized-IsFixture body =
    let u = text_of body in
    let clean = replace-NoReturn (replace_all crlf lf body) in
    elim (Bool-cases (has_suffix (unified body) blank_line)) [
      | inl y ↦
          rw y (record { text = u; no_return = clean; expands = unified-expand body; ended = y })
      | inr n ↦ rw n (record {
        text = trim_right lf u ++ (lf ++ lf);
        no_return =
            All-append _ (trim_right lf u) (lf ++ lf) (trim_right-NoReturn u clean)
              (refl, (refl, tt));
        expands =
            ap (λ s. s ++ blank_line)
              (ap (trim_right crlf) (unified-expand body) ∙ trim_right-expand u clean)
            ∙ sym (expand-append (trim_right lf u) (lf ++ lf));
        ended = has_suffix-append (trim_right crlf (unified body)) blank_line;
      })
    ]

-- A normalized payload is left as it is.
IsFixture-kept : (s : Bytes) → IsFixture s → normalize_http_fixture s ≡ s
unfolding normalize_http_fixture text_of
IsFixture-kept s f =
    let same_text : unified s ≡ s =
      ap unified f.expands ∙ unified_again f.text f.no_return ∙ sym f.expands in
    rw (normalize_http_fixture, same_text, f.ended) refl

-- Whatever the bytes of a payload, its normal form is a text whose lines all end in CRLF, with no
-- other carriage return or line feed, and that has an empty line at its end; and normalizing it once
-- more changes nothing.
pub normalize_http_fixture-IsFixture :
    (body : Bytes)
    → IsFixture (normalize_http_fixture body)
      × (normalize_http_fixture (normalize_http_fixture body) ≡ normalize_http_fixture body)
normalize_http_fixture-IsFixture body = (
  normalized-IsFixture body,
  IsFixture-kept (normalize_http_fixture body) (normalized-IsFixture body),
)
