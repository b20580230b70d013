-- ===== src/Http/Complete.antt =====
-- http/parser.go: actions that succeed, stated on the bytes to come and not on the pieces in which they come.
pub mod Words
pub mod FieldLoops
pub mod Fields
pub mod Pieces
pub mod Bodies
pub mod Chunks
pub mod Whole
pub mod Free
use multi_threaded_web_serve.Go.Reader.{Reader}
use multi_threaded_web_serve.Go.Reading.{rest}
use multi_threaded_web_serve.Http.Action.{
  Action, ParseError, bind_step, lift, pass, pure, reject_if, ◌>>=◌,
}
use multi_threaded_web_serve.Http.Lines.{crlf, has_crlf, read_line_limited_complete}
use multi_threaded_web_serve.Http.Read.{read_line_limited}
use multi_threaded_web_serve.Waf.Scanner.{Verdict, clean}
use multi_threaded_web_serve.Base.{
  ℕ, ◌+◌, ◌≤◌, Bool, false, ◌++◌, ◌≡◌, ◌∙◌, refl, sym, append_assoc, Bytes, Result, ok, length,
}

-- On any reader with the bytes `s` to come, the action gives `v`, and the bytes `t` are left.
abbrev pub Gives : {A : Type 0} → Action A → Bytes → A → Bytes → Type 0
Gives m s v t =
    (r : Reader)
    → rest r ≡ s
    → (q : Reader) × (m r ≡ ok (v, q)) × (rest q ≡ t) × (q.fault ≡ r.fault)

pub >>=-Gives :
    {A B : Type 0} (m : Action A) (f : A → Action B) {s t u : Bytes} {a : A} {b : B}
    → Gives m s a t
    → Gives (f a) t b u
    → Gives (m >>= f) s b u
>>=-Gives m f g h r e =
    let (p, gives, left, same) = g r e in
    let (q, gives', left', same') = h p left in
    (q, bind_step m f r gives ∙ gives', left', same' ∙ same)

pub pure-Gives : {A : Type 0} (a : A) (s : Bytes) → Gives (pure a) s a s
pure-Gives a s r e = (r, refl, e, refl)

pub reject_if-Gives :
    (t : Bool) (e : ParseError) (s : Bytes) → t ≡ false → Gives (reject_if t e) s tt s
reject_if-Gives t e s h r k = (r, rw h refl, k, refl)

pub pass-Gives : (v : Verdict) (s : Bytes) → v ≡ clean → Gives (pass v) s tt s
pass-Gives v s h r k = (r, rw h refl, k, refl)

pub lift-Gives :
    {A : Type 0} (x : Result ParseError A) (a : A) (s : Bytes) → x ≡ ok a → Gives (lift x) s a s
lift-Gives x a s h r k = (r, rw h refl, k, refl)

pub read_line_limited-Gives :
    (max : ℕ) (line t : Bytes)
    → has_crlf line ≡ false
    → length line + 2 ≤ max
    → Gives (read_line_limited max) (line ++ (crlf ++ t)) line t
read_line_limited-Gives max line t n fits r e =
    read_line_limited_complete max r line t (e ∙ sym (append_assoc line crlf t)) n fits
