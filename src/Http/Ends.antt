-- ===== src/Http/Ends.antt =====
-- http/parser.go: the loops of the parser end; the fuel of the chunk loop is never used up.
use mathlib.Core.Bool.{false≢true}
use multi_threaded_web_serve.Go.Reader.{Reader}
use multi_threaded_web_serve.Http.Action.{ParseError, out_of_fuel}
use multi_threaded_web_serve.Http.Body.{feed_body, finish_body, read_chunked_body}
use multi_threaded_web_serve.Http.Errors.{Honest, Passes, is_plain}
use multi_threaded_web_serve.Http.Errors.Bodies.{read_chunked_body-Errs}
use multi_threaded_web_serve.Http.Read.{scan_field}
use multi_threaded_web_serve.Waf.Automaton.{Automaton}
use multi_threaded_web_serve.Waf.Scanner.{Verdict, clean, fault, found}
use multi_threaded_web_serve.Base.{◌≢◌, refl, sym, ap, ◌∙◌, Option, err}

abbrev IsNotFuel : ParseError → Type 0
IsNotFuel e = e ≢ out_of_fuel

verdict-IsNotFuel : (v : Verdict) → Passes IsNotFuel v
verdict-IsNotFuel clean = tt
verdict-IsNotFuel (found m) = λ h. cc
verdict-IsNotFuel fault = λ h. cc

any-Honest : (a : Option Automaton) → Honest IsNotFuel a
any-Honest a = record {
  plain = λ e p k. false≢true (sym (ap is_plain k) ∙ p);
  field = λ n v. verdict-IsNotFuel (scan_field a n v);
  part = λ before part s h. verdict-IsNotFuel (feed_body a s part).1;
  last = λ before s h. verdict-IsNotFuel (finish_body a s).1;
}

-- The chunk loop never uses up its fuel, whatever the input: each round but the last adds a byte at
-- least to a body that cannot exceed `maxBodyBytes`. So the loop of the source ends.
pub read_chunked_body-ends :
    (a : Option Automaton) (r : Reader) → read_chunked_body a r ≢ err out_of_fuel
read_chunked_body-ends a r h = read_chunked_body-Errs IsNotFuel (any-Honest a) r out_of_fuel h refl
