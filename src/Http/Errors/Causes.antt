-- ===== src/Http/Errors/Causes.antt =====
-- http/parser.go with security/waf: no error is a panic of the scanner, and a security error names one
-- of the patterns.
use mathlib.Core.Bool.{false≢true}
use multi_threaded_web_serve.Go.Reader.{Reader}
use multi_threaded_web_serve.Http.Action.{ParseError, blocked, out_of_fuel, panicked}
use multi_threaded_web_serve.Http.Body.{body_field, feed_body, finish_body}
use multi_threaded_web_serve.Http.Errors.{Honest, Passes, is_plain}
use multi_threaded_web_serve.Http.Errors.Whole.{parse_request-Errs}
use multi_threaded_web_serve.Http.Parser.{parse_request}
use multi_threaded_web_serve.Http.Read.{inspected, scan_field}
use multi_threaded_web_serve.Waf.Automaton.{Match, new}
use multi_threaded_web_serve.Waf.Normalize.{normalize}
use multi_threaded_web_serve.Waf.Reports.{NoneVanishes, Reports}
use multi_threaded_web_serve.Waf.Reports.Scanned.{scan-Reports}
use multi_threaded_web_serve.Waf.Scanner.{
  Outcome, Scanner, Verdict, and_then, clean, fault, feed, finish, found, new_scanner,
}
use multi_threaded_web_serve.Waf.Walk.{feed-append, scan}
use multi_threaded_web_serve.Base.{
  true, List, [], ◌∷◌, ◌++◌, ◌≡◌, ◌≢◌, subst, ap, sym, ◌∙◌, some, Bytes, err, contains,
}

-- The error is not a panic and not the end of the fuel, and what blocks is one of the patterns.
abbrev pub IsCaused : List Bytes → ParseError → Type 0
IsCaused patterns e =
    (e ≢ panicked)
    × (e ≢ out_of_fuel)
    × ((m : Match) → e ≡ blocked m → contains m.pattern patterns ≡ true)

plain-IsCaused : (patterns : List Bytes) (e : ParseError) → is_plain e ≡ true → IsCaused patterns e
plain-IsCaused patterns e h = (
  λ k. false≢true (sym (ap is_plain k) ∙ h),
  λ k. false≢true (sym (ap is_plain k) ∙ h),
  λ m k. absurd (false≢true (sym (ap is_plain k) ∙ h)),
)

of_Reports :
    (patterns : List Bytes) (field text : Bytes) (v : Verdict)
    → Reports patterns field text v
    → Passes (IsCaused patterns) v
of_Reports patterns field text clean h = tt
of_Reports patterns field text (found m) h = (
  λ k. cc,
  λ k. cc,
  λ n k.
      let same : m ≡ n = cc in subst (λ (x : Match). contains x.pattern patterns ≡ true) same h.0,
)
of_Reports patterns field text fault h = absurd h

module _ (patterns : List Bytes) (none_vanish : NoneVanishes patterns) where
  scan-Passes :
      (field input : Bytes)
      → Passes (IsCaused patterns) (scan (new patterns) field new_scanner input).1
  scan-Passes field input =
      of_Reports patterns field (normalize input) _ (scan-Reports patterns none_vanish field input)

  first_Passes :
      (x : Outcome) (k : Scanner → Outcome)
      → Passes (IsCaused patterns) (and_then x k).1
      → Passes (IsCaused patterns) x.1
  first_Passes (t, clean) k h = tt
  first_Passes (t, found m) k h = h
  first_Passes (t, fault) k h = h

  field-Passes :
      (field value : Bytes)
      → Passes (IsCaused patterns) (scan_field (some (new patterns)) field value)
  unfolding scan_field
  field-Passes field [] = tt
  field-Passes field (b ∷ s) = scan-Passes field (inspected field (b ∷ s))

  part-Passes :
      (before part : Bytes) (s : Scanner)
      → feed (new patterns) body_field new_scanner before ≡ (s, clean)
      → Passes (IsCaused patterns) (feed (new patterns) body_field s part).1
  unfolding scan
  part-Passes before part s h =
      subst (λ (x : Outcome). Passes (IsCaused patterns) x.1)
        (feed-append (new patterns) body_field before part new_scanner
          ∙ ap (λ x. and_then x (λ t. feed (new patterns) body_field t part)) h)
        (first_Passes (feed (new patterns) body_field new_scanner (before ++ part))
          (finish (new patterns) body_field) (scan-Passes body_field (before ++ part)))

  last-Passes :
      (before : Bytes) (s : Scanner)
      → feed (new patterns) body_field new_scanner before ≡ (s, clean)
      → Passes (IsCaused patterns) (finish (new patterns) body_field s).1
  unfolding scan
  last-Passes before s h =
      subst
        (λ (x : Outcome).
          Passes (IsCaused patterns) (and_then x (finish (new patterns) body_field)).1)
        h (scan-Passes body_field before)

  new-Honest : Honest (IsCaused patterns) (some (new patterns))
  unfolding feed_body finish_body
  new-Honest = record {
    plain = plain-IsCaused patterns;
    field = field-Passes;
    part = part-Passes;
    last = last-Passes;
  }

  -- Where none of the patterns is normalized to nothing without being empty, whatever the input, the
  -- parser with the automaton of these patterns never panics and always ends, and where its error
  -- is a match of the firewall, the match names one of the patterns.
  pub parse_request-IsCaused :
      (r : Reader) (e : ParseError)
      → parse_request (some (new patterns)) r ≡ err e
      → IsCaused patterns e
  parse_request-IsCaused = parse_request-Errs (IsCaused patterns) new-Honest
