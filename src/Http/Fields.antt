-- ===== src/Http/Fields.antt =====
-- http/parser.go: the header fields and the trailers that the parser accepts.
pub mod Names
pub use Names.{keys, AreFields}
use multi_threaded_web_serve.Http.Fields.Names.{AreFields-insert, Distinct, Seen, length-insert}
use multi_threaded_web_serve.Go.Reader.{Reader}
use multi_threaded_web_serve.Go.Strings.{canonical_mime_header_key, cut, trim_space}
use multi_threaded_web_serve.Http.Action.{
  Action, bind_ok, duplicate_header, duplicate_trailer, empty_header_name, forbidden_trailer,
  invalid_header_name, malformed_header, obsolete_folding, pass-eq-ok, pure, reject_if-eq-ok,
}
use multi_threaded_web_serve.Http.Chars.{
  is_forbidden_trailer, is_token, max_header_count, max_header_line_bytes, max_trailer_count,
}
use multi_threaded_web_serve.Http.Read.{
  Headers, add_header, add_trailer, check_header, header_field, header_of_line, read_header_line,
  read_headers, read_line_limited, read_trailers, scan_field, split_header, trailers_loop,
}
use multi_threaded_web_serve.Waf.Automaton.{Automaton}
use multi_threaded_web_serve.Waf.Scanner.{clean}
use mathlib.Core.Path.{subst₂}
use multi_threaded_web_serve.Base.{
  ℕ, zero, suc, ◌+◌, ◌≤◌, ◌<◌, Bool, true, false, not, ◌||◌, List, [], ◌∷◌, ◌++◌, ◌≡◌, refl, sym,
  ap, ◌∙◌, Option, none, some, arith, ◌==◌, Bytes, All, All-append, contains, insert, is_empty,
  length, map, ok, ok_injective, same, same_iff,
}

-- A header field that is accepted: its name is the canonical form of a token, and its value has
-- been inspected under that name.
pub record IsField (a : Option Automaton) (name value : Bytes) : Type 0 where
  pub written : Bytes
  pub token : is_token written ≡ true
  pub canonical : name ≡ canonical_mime_header_key written
  pub inspected : scan_field a (header_field name) value ≡ clean

pub not-not : (b : Bool) → not b ≡ false → b ≡ true
not-not b h = ground arith

check_header-IsField :
    (a : Option Automaton) (n v : Bytes) (r q : Reader) {name value : Bytes}
    → check_header a n v r ≡ ok (some (name, value), q)
    → IsField a name value
unfolding check_header
check_header-IsField a n v r q {name} {value} h =
    let (_, h1) = reject_if-eq-ok (is_empty n) empty_header_name _ r h in
    let (t, h2) = reject_if-eq-ok (not (is_token n)) (invalid_header_name n) _ r h1 in
    let (c, h3) = pass-eq-ok (scan_field a (header_field (canonical_mime_header_key n)) v) _ r h2 in
    let name_is : canonical_mime_header_key n ≡ name = cc in
    let value_is : v ≡ value = cc in
    record {
      written = n;
      token = not-not (is_token n) t;
      canonical = sym name_is;
      inspected = subst₂ (λ x y. scan_field a (header_field x) y ≡ clean) name_is value_is c;
    }

header_of_line-IsField :
    (a : Option Automaton) (line : Bytes) (r q : Reader) {name value : Bytes}
    → header_of_line a line r ≡ ok (some (name, value), q)
    → IsField a name value
unfolding header_of_line split_header
header_of_line-IsField a [] r q h = absurd (cc)
header_of_line-IsField a (b ∷ line) r q h =
    let (_, h1) = reject_if-eq-ok (b == b' ' || b == b'\t') obsolete_folding _ r h in
    let parts = cut b':' (b ∷ line) in
    let (_, h2) = reject_if-eq-ok (not parts.2) (malformed_header (b ∷ line)) _ r h1 in
    check_header-IsField a (trim_space parts.0) (trim_space parts.1) r q h2

read_header_line-IsField :
    (a : Option Automaton) (r q : Reader) {name value : Bytes}
    → read_header_line a r ≡ ok (some (name, value), q)
    → IsField a name value
unfolding read_header_line
read_header_line-IsField a r q h =
    bind_ok (read_line_limited max_header_line_bytes) _ r h
      λ line p e k. header_of_line-IsField a line p q k

-- What a loop over fields returns with so many rounds left: fields with the property, and fewer of
-- them than the limit.
abbrev Collects : (Bytes → Bytes → Type 0) → ℕ → (List Bytes → Headers → Action Headers) → Type 0
Collects P rounds loop =
    (limit : ℕ) (seen : List Bytes) (headers : Headers) (r q : Reader) (out : Headers)
    → loop seen headers r ≡ ok (out, q)
    → AreFields P headers
    → Seen seen headers
    → length headers + rounds ≤ limit
    → AreFields P out × (length out < limit)

module _ {P : Bytes → Bytes → Type 0} where
  Collects-done :
      (rounds : ℕ) {limit : ℕ} {headers out : Headers} {r q : Reader}
      → pure headers r ≡ ok (out, q)
      → AreFields P headers
      → length headers + suc rounds ≤ limit
      → AreFields P out × (length out < limit)
  Collects-done rounds h f l =
      let (out_is, _) = ok_injective h in rw (← out_is) (f, omega (arith, l))

  Collects-more :
      (rounds limit : ℕ) (headers out : Headers) (r q : Reader) (seen : List Bytes)
      (name value : Bytes) (next : List Bytes → Headers → Action Headers)
      → Collects P rounds next
      → next (name ∷ seen) (insert name value headers) r ≡ ok (out, q)
      → AreFields P headers
      → Seen seen headers
      → contains name seen ≡ false
      → P name value
      → length headers + suc rounds ≤ limit
      → AreFields P out × (length out < limit)
  Collects-more rounds limit headers out r q seen name value next ih h f s n p l =
      let (f', s') = AreFields-insert name value headers seen f s n p in
      ih limit (name ∷ seen) (insert name value headers) r q out h f' s'
        (omega (arith, l, length-insert name value headers))

add_header-Collects :
    (a : Option Automaton) (rounds limit : ℕ) (seen : List Bytes) (headers : Headers)
    (next : List Bytes → Headers → Action Headers) (line : Option (Bytes × Bytes)) (r q : Reader)
    (out : Headers)
    → Collects (IsField a) rounds next
    → ((name value : Bytes) → line ≡ some (name, value) → IsField a name value)
    → add_header seen headers next line r ≡ ok (out, q)
    → AreFields (IsField a) headers
    → Seen seen headers
    → length headers + suc rounds ≤ limit
    → AreFields (IsField a) out × (length out < limit)
unfolding add_header
add_header-Collects a rounds limit seen headers next none r q out ih p h f s l =
    Collects-done rounds h f l
add_header-Collects a rounds limit seen headers next (some (name, value)) r q out ih p h f s l =
    let (fresh, h') = reject_if-eq-ok (contains name seen) (duplicate_header name) _ r h in
    Collects-more rounds limit headers out r q seen name value next ih h' f s fresh
      (p name value refl) l

read_headers-Collects :
    (a : Option Automaton) (rounds : ℕ) → Collects (IsField a) rounds (read_headers a rounds)
unfolding read_headers
read_headers-Collects a zero limit seen headers r q out h f s l = absurd (cc)
read_headers-Collects a (suc rounds) limit seen headers r q out h f s l =
    bind_ok (read_header_line a) _ r h λ line p e k.
      add_header-Collects a rounds limit seen headers (read_headers a rounds) line p q out
        (read_headers-Collects a rounds)
        (λ n v x. read_header_line-IsField a r p (e ∙ ap (λ y. ok (y, p)) x)) k f s l

-- A trailer is a field that is not one of those that frame the message.
pub record IsTrailer (a : Option Automaton) (name value : Bytes) : Type 0 where
  pub field : IsField a name value
  pub allowed : is_forbidden_trailer name ≡ false

add_trailer-Collects :
    (a : Option Automaton) (rounds limit : ℕ) (seen : List Bytes) (headers : Headers)
    (next : List Bytes → Headers → Action Headers) (line : Option (Bytes × Bytes)) (r q : Reader)
    (out : Headers)
    → Collects (IsTrailer a) rounds next
    → ((name value : Bytes) → line ≡ some (name, value) → IsField a name value)
    → add_trailer seen headers next line r ≡ ok (out, q)
    → AreFields (IsTrailer a) headers
    → Seen seen headers
    → length headers + suc rounds ≤ limit
    → AreFields (IsTrailer a) out × (length out < limit)
unfolding add_trailer
add_trailer-Collects a rounds limit seen headers next none r q out ih p h f s l =
    Collects-done rounds h f l
add_trailer-Collects a rounds limit seen headers next (some (name, value)) r q out ih p h f s l =
    let (allowed, h1) =
      reject_if-eq-ok (is_forbidden_trailer name) (forbidden_trailer name) _ r h in
    let (fresh, h2) = reject_if-eq-ok (contains name seen) (duplicate_trailer name) _ r h1 in
    Collects-more rounds limit headers out r q seen name value next ih h2 f s fresh
      (record { field = p name value refl; allowed = allowed }) l

trailers_loop-Collects :
    (a : Option Automaton) (rounds : ℕ) → Collects (IsTrailer a) rounds (trailers_loop a rounds)
unfolding trailers_loop
trailers_loop-Collects a zero limit seen headers r q out h f s l = absurd (cc)
trailers_loop-Collects a (suc rounds) limit seen headers r q out h f s l =
    bind_ok (read_header_line a) _ r h λ line p e k.
      add_trailer-Collects a rounds limit seen headers (trailers_loop a rounds) line p q out
        (trailers_loop-Collects a rounds)
        (λ n v x. read_header_line-IsField a r p (e ∙ ap (λ y. ok (y, p)) x)) k f s l

pub no_fields : (P : Bytes → Bytes → Type 0) → AreFields P []
no_fields P = record { each = tt; distinct = tt }

-- The headers that are accepted have distinct names in canonical form and inspected values, and are
-- fewer than `maxHeaderCount`.
pub read_headers_sound :
    (a : Option Automaton) (r q : Reader) (headers : Headers)
    → read_headers a max_header_count [] [] r ≡ ok (headers, q)
    → AreFields (IsField a) headers × (length headers < max_header_count)
read_headers_sound a r q headers h =
    read_headers-Collects a max_header_count max_header_count [] [] r q headers h
      (no_fields (IsField a)) (λ k. unfold contains in refl) (omega arith)

pub read_trailers_sound :
    (a : Option Automaton) (r q : Reader) (trailers : Headers)
    → read_trailers a r ≡ ok (trailers, q)
    → AreFields (IsTrailer a) trailers × (length trailers < max_trailer_count)
unfolding read_trailers
read_trailers_sound a r q trailers h =
    trailers_loop-Collects a max_trailer_count max_trailer_count [] [] r q trailers h
      (no_fields (IsTrailer a)) (λ k. unfold contains in refl) (omega arith)
