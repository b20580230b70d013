-- ===== src/Http/Errors.antt =====
-- http/parser.go: the errors of an action, for a property of errors that the plain ones have and that
-- the verdicts of the scanner lead to.
pub mod Lines
pub mod Bodies
pub mod Whole
pub mod Causes
use multi_threaded_web_serve.Go.Reader.{ReadError, Reader, read_byte}
use multi_threaded_web_serve.Http.Action.{
  Action, ParseError, blocked, byte_or, fail, lift, of_byte, out_of_fuel, panicked, pass, pure,
  reject_if, ◌>>=◌,
}
use multi_threaded_web_serve.Http.Body.{feed_body, finish_body}
use multi_threaded_web_serve.Http.Read.{scan_field}
use multi_threaded_web_serve.Waf.Automaton.{Automaton}
use multi_threaded_web_serve.Waf.Scanner.{Scanner, Verdict, clean, fault, found, new_scanner}
use multi_threaded_web_serve.Base.{
  ℕ, Bool, true, false, ◌≡◌, refl, subst, ap, sym, ◌∙◌, Option, Bytes, Result, ok, err,
}

-- An error that neither the scanner nor the fuel makes.
abbrev pub is_plain : ParseError → Bool
is_plain (blocked m) = false
is_plain panicked = false
is_plain out_of_fuel = false
is_plain _ = true

-- What a verdict leads to is an error with the property, if it is one.
abbrev pub Passes : (ParseError → Type 0) → Verdict → Type 0
Passes Q clean = Unit
Passes Q (found m) = Q (blocked m)
Passes Q fault = Q panicked

pub record Honest (Q : ParseError → Type 0) (a : Option Automaton) : Type 0 where
  pub plain : (e : ParseError) → is_plain e ≡ true → Q e
  pub field : (name value : Bytes) → Passes Q (scan_field a name value)
  pub part :
      (before part : Bytes) (s : Scanner)
      → feed_body a new_scanner before ≡ (s, clean)
      → Passes Q (feed_body a s part).1
  pub last :
      (before : Bytes) (s : Scanner)
      → feed_body a new_scanner before ≡ (s, clean)
      → Passes Q (finish_body a s).1

-- An error of the action on this input has the property.
abbrev pub ErrsAt : {A : Type 0} → (ParseError → Type 0) → Action A → Reader → Type 0
ErrsAt Q m r = (e : ParseError) → m r ≡ err e → Q e

abbrev pub Errs : {A : Type 0} → (ParseError → Type 0) → Action A → Type 0
Errs Q m = (r : Reader) → ErrsAt Q m r

pub err_injective : {E A : Type 0} {x y : E} → ◌≡◌ {A = Result E A} (err x) (err y) → x ≡ y
err_injective h = cc

module _ (Q : ParseError → Type 0) where
  pub >>=-ErrsAt :
      {A B : Type 0} (m : Action A) (f : A → Action B) (r : Reader)
      → ErrsAt Q m r
      → ((a : A) (q : Reader) → m r ≡ ok (a, q) → ErrsAt Q (f a) q)
      → ErrsAt Q (m >>= f) r
  >>=-ErrsAt {A} {B} m f r em ef e h = go (m r) refl h
    where
      go :
          (x : Result ParseError (A × Reader))
          → m r ≡ x
          → (elim x [ err e ↦ err e | ok (a, q) ↦ f a q ]) ≡ err e
          → Q e
      go (ok (a, q)) k h = ef a q k e h
      go (err x) k h = em e (k ∙ ap err (err_injective h))

  pub >>=-Errs :
      {A B : Type 0} (m : Action A) (f : A → Action B)
      → Errs Q m
      → ((a : A) → Errs Q (f a))
      → Errs Q (m >>= f)
  >>=-Errs m f em ef r = >>=-ErrsAt m f r (em r) (λ a q e. ef a q)

  pub pure-Errs : {A : Type 0} (a : A) → Errs Q (pure a)
  pure-Errs a r e h = absurd (cc)

  pub fail-Errs : {A : Type 0} (x : ParseError) → Q x → Errs Q (fail {A = A} x)
  fail-Errs x q r e h = subst Q (err_injective h) q

  pub reject_if-Errs : (t : Bool) (x : ParseError) → Q x → Errs Q (reject_if t x)
  reject_if-Errs true x q r e h = subst Q (err_injective h) q
  reject_if-Errs false x q r e h = absurd (cc)

  pub pass-Errs : (v : Verdict) → Passes Q v → Errs Q (pass v)
  pass-Errs clean p r e h = absurd (cc)
  pass-Errs (found m) p r e h = subst Q (err_injective h) p
  pass-Errs fault p r e h = subst Q (err_injective h) p

  pub lift-Errs :
      {A : Type 0} (x : Result ParseError A)
      → ((e : ParseError) → x ≡ err e → Q e)
      → Errs Q (lift x)
  lift-Errs (ok a) n r e h = absurd (cc)
  lift-Errs (err x) n r e h = n e (ap err (err_injective h))

  pub byte_or-Errs :
      (wrap : ReadError → ParseError) → ((e : ReadError) → Q (wrap e)) → Errs Q (byte_or wrap)
  byte_or-Errs wrap n r e h = go (read_byte r) h
    where
      go : (x : Result ReadError (ℕ × Reader)) → of_byte wrap x ≡ err e → Q e
      go (ok (b, q)) h = absurd (cc)
      go (err x) h = subst Q (err_injective h) (n x)
