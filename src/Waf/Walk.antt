-- ===== src/Waf/Walk.antt =====
-- security/waf/automaton.go: a scanner over one value, and the automaton alone over bytes that are
-- normalized already.
use multi_threaded_web_serve.Waf.Automaton.{Addr, Automaton, Store, load}
use multi_threaded_web_serve.Waf.Scanner.{
  Outcome, Scanner, Verdict, and_then, clean, fault, feed, feed_raw, finish, found, next_state,
  report,
}
use mathlib.Core.Path.{fun_ext}
use multi_threaded_web_serve.Base.{[], ◌∷◌, ◌++◌, ◌≡◌, refl, sym, ◌∙◌, ap, none, some, Bytes}

-- One scanner over one value, as `scanField` uses it.
unfoldable pub scan : Automaton → Bytes → Scanner → Bytes → Outcome
unfolding feed finish
scan a field s input = and_then (feed a field s input) (finish a field)

-- The automaton alone, over bytes that are normalized already: it stops at the first match.
unfoldable pub walk : Store → Bytes → Addr → Bytes → Verdict
unfolding next_state
walk st field state [] = clean
walk st field state (b ∷ s) = elim (next_state st state b) [
  | none ↦ fault
  | some p ↦ elim (load st p).output [ none ↦ walk st field p s | some r ↦ report (some r) field ]
]

pub and_then_assoc :
    (m : Outcome) (f k : Scanner → Outcome)
    → and_then (and_then m f) k ≡ and_then m (λ t. and_then (f t) k)
and_then_assoc (s, clean) f k = refl
and_then_assoc (s, found m) f k = refl
and_then_assoc (s, fault) f k = refl

-- A value that comes in two pieces is scanned as the whole of it.
pub feed-append :
    (a : Automaton) (field xs ys : Bytes) (s : Scanner)
    → feed a field s (xs ++ ys) ≡ and_then (feed a field s xs) (λ t. feed a field t ys)
unfolding feed
feed-append a field [] ys s = refl
feed-append a field (b ∷ xs) ys s =
    ap (and_then (feed_raw a field s b)) (fun_ext (λ t. feed-append a field xs ys t))
    ∙ sym (and_then_assoc (feed_raw a field s b) _ _)

-- Where nothing is found in the value, the verdict is that of `Finish`.
pub scan-clean :
    (a : Automaton) (field input : Bytes) (s : Scanner) {t : Scanner}
    → feed a field s input ≡ (t, clean)
    → (scan a field s input).1 ≡ (finish a field t).1
unfolding scan
scan-clean a field input s h = ap (λ o. (and_then o (finish a field)).1) h
