-- ===== src/Http/Inspection.antt =====
-- http/parser.go: a body is inspected as one value, however it comes in.
use multi_threaded_web_serve.Go.Reader.{ReadError, Reader, content}
use multi_threaded_web_serve.Go.Reading.{Takes, Takes-across, Takes-inside}
use multi_threaded_web_serve.Http.Action.{ParseError, bind_ok, pass-eq-ok}
use multi_threaded_web_serve.Http.Body.{
  body_field, body_loop, checked, feed_body, finish_body, read_body, run_body_loop,
}
use multi_threaded_web_serve.Waf.Automaton.{Automaton}
use multi_threaded_web_serve.Waf.Scanner.{
  Outcome, Scanner, Verdict, and_then, clean, fault, feed, finish, found, new_scanner,
}
use multi_threaded_web_serve.Waf.Walk.{feed-append, scan, scan-clean}
use mathlib.Core.Path.{subst₂, subst₃}
use multi_threaded_web_serve.Base.{
  ℕ, zero, suc, ◌-◌, ◌≤◌, List, [], ◌∷◌, ◌++◌, ◌≡◌, refl, sym, ap, ◌∙◌, Option, none, some, arith,
  Bytes, Result, ok, err, ok_injective, append_assoc, append-nil, length, take, drop, length-drop,
  take-append-drop,
}

pub feed_body-append :
    (a : Option Automaton) (s : Scanner) (xs ys : Bytes)
    → feed_body a s (xs ++ ys) ≡ and_then (feed_body a s xs) (λ t. feed_body a t ys)
unfolding feed_body
feed_body-append none s xs ys = refl
feed_body-append (some a) s xs ys = feed-append a body_field xs ys s

-- A part that is clean leaves the verdict to what follows.
pub feed_body-clean :
    (a : Option Automaton) (s : Scanner) {t : Scanner} (xs ys : Bytes)
    → feed_body a s xs ≡ (t, clean)
    → feed_body a s (xs ++ ys) ≡ feed_body a t ys
feed_body-clean a s xs ys h = feed_body-append a s xs ys ∙ rw h

-- The verdict of one scanner over a whole body.
unfoldable pub inspect_body : Option Automaton → Bytes → Verdict
unfolding scan
inspect_body none body = clean
inspect_body (some a) body = (scan a body_field new_scanner body).1

pub inspect_body-clean :
    (a : Option Automaton) {t : Scanner} (body : Bytes)
    → feed_body a new_scanner body ≡ (t, clean)
    → (finish_body a t).1 ≡ clean
    → inspect_body a body ≡ clean
unfolding inspect_body feed_body finish_body
inspect_body-clean none body h f = refl
inspect_body-clean (some a) body h f = scan-clean a body_field body new_scanner h ∙ f

-- The loop has read `part` and shown it to the scanner.
pub record Inspects (a : Option Automaton) (n : ℕ) (s t : Scanner) (ps qs : List Bytes)
    (part : Bytes) : Type 0 where
  pub takes : Takes n ps qs part
  pub shown : feed_body a s part ≡ (t, clean)

drop-nil : (n : ℕ) (p : Bytes) → drop n p ≡ [] → length p ≤ n
drop-nil n p h = omega (arith, length-drop n p, ap length h)

drop-cons : {b : ℕ} {q : Bytes} (n : ℕ) (p : Bytes) → drop n p ≡ b ∷ q → n ≤ length p
drop-cons n p h = omega (arith, length-drop n p, ap length h)

checked-eq-ok :
    {B : Type 0} (o : Outcome) (k : Scanner → Result ParseError B) {y : B}
    → checked o k ≡ ok y
    → (t : Scanner) × (o ≡ (t, clean)) × (k t ≡ ok y)
checked-eq-ok (t, clean) k h = (t, refl, h)
checked-eq-ok (t, found m) k h = absurd (cc)
checked-eq-ok (t, fault) k h = absurd (cc)

-- What the loop of `readBody` returns, on the bytes `got` and with `n` missing.
abbrev pub LoopInspects :
    Option Automaton → ℕ → Scanner → Bytes → List Bytes → List Bytes → Bytes → Scanner → Type 0
LoopInspects a n s got ps qs body t =
    (part : Bytes) × Inspects a n s t ps qs part × (body ≡ got ++ part)

abbrev BodyResult : Type 0
BodyResult = Result ParseError ((Bytes × Scanner) × List Bytes)

-- The loop has stopped: its outcome is what it has got.
LoopInspects-stop :
    (a : Option Automaton) (n : ℕ) (s u : Scanner) (got part : Bytes) (ps rs : List Bytes)
    {body : Bytes} {t : Scanner} {qs : List Bytes}
    → Inspects a n s u ps rs part
    → ◌≡◌ {A = Result ParseError ((Bytes × Scanner) × List Bytes)}
        (ok ((got ++ part, u), rs))
        (ok ((body, t), qs))
    → LoopInspects a n s got ps qs body t
LoopInspects-stop a n s u got part ps rs {body} {t} {qs} i h =
    let body_is : got ++ part ≡ body = cc in
    let t_is : u ≡ t = cc in
    let qs_is : rs ≡ qs = cc in
    (part, subst₂ (λ v vs. Inspects a n s v ps vs part) t_is qs_is i, sym body_is)

-- The loop has used up the piece `p`, and goes on.
LoopInspects-across :
    (a : Option Automaton) (n : ℕ) (s u t : Scanner) (got p : Bytes) (ps qs : List Bytes)
    {body : Bytes}
    → length p ≤ n
    → feed_body a s p ≡ (u, clean)
    → LoopInspects a (n - length p) u (got ++ p) ps qs body t
    → LoopInspects a n s got (p ∷ ps) qs body t
LoopInspects-across a n s u t got p ps qs h shown (part, i, body_is) = (
  p ++ part,
  record {
    takes = Takes-across p (omega (arith, h)) i.takes;
    shown = feed_body-clean a s p part shown ∙ i.shown;
  },
  body_is ∙ append_assoc got p part,
)

pub feed_body-nil : (a : Option Automaton) (s : Scanner) → feed_body a s [] ≡ (s, clean)
unfolding feed_body feed
feed_body-nil none s = refl
feed_body-nil (some a) s = refl

Inspects-none : (a : Option Automaton) (s : Scanner) (ps : List Bytes) → Inspects a 0 s s ps ps []
Inspects-none a s ps = record {
  takes = record { splits = refl; is_long = refl };
  shown = feed_body-nil a s;
}

take_all : (n : ℕ) (p : Bytes) → drop n p ≡ [] → take n p ≡ p
take_all n p h = sym (append-nil (take n p)) ∙ rw h at (take-append-drop n p)

pub body_loop-Inspects :
    (a : Option Automaton) (ps : List Bytes) (e : ReadError) (n : ℕ) (s : Scanner) (got : Bytes)
    (body : Bytes) (t : Scanner) (qs : List Bytes)
    → body_loop a n s got ps e ≡ ok ((body, t), qs)
    → LoopInspects a n s got ps qs body t
unfolding body_loop
body_loop-Inspects a [] e zero s got body t qs h =
    LoopInspects-stop a 0 s s got [] [] [] (Inspects-none a s []) (rw append-nil h)
body_loop-Inspects a (p ∷ ps) e zero s got body t qs h =
    LoopInspects-stop a 0 s s got [] (p ∷ ps) (p ∷ ps) (Inspects-none a s (p ∷ ps))
      (rw append-nil h)
body_loop-Inspects a [] e (suc m) s got body t qs h = absurd (cc)
body_loop-Inspects a (p ∷ ps) e (suc m) s got body t qs h =
    let (u, shown, more) = checked-eq-ok (feed_body a s (take (suc m) p)) _ h in
    go (drop (suc m) p) refl u shown more (body_loop-Inspects a ps e)
  where
    go :
        (left : Bytes)
        → drop (suc m) p ≡ left
        → (u : Scanner) → feed_body a s (take (suc m) p) ≡ (u, clean)
        → ◌≡◌ {A = Result ParseError ((Bytes × Scanner) × List Bytes)}
            (elim left [
              | [] ↦ body_loop a (suc m - length p) u (got ++ take (suc m) p) ps e
              | b ∷ q ↦ ok ((got ++ take (suc m) p, u), (b ∷ q) ∷ ps)
            ])
            (ok ((body, t), qs))
        → ((n : ℕ) (s : Scanner) (got : Bytes) (body : Bytes) (t : Scanner) (qs : List Bytes)
            → body_loop a n s got ps e ≡ ok ((body, t), qs)
            → LoopInspects a n s got ps qs body t)
        → LoopInspects a (suc m) s got (p ∷ ps) qs body t
    go [] d u shown h ih =
        let whole = take_all (suc m) p d in
        LoopInspects-across a (suc m) s u t got p ps qs (drop-nil (suc m) p d) (rw whole at shown)
          (rw whole at (ih (suc m - length p) u (got ++ take (suc m) p) body t qs h))
    go (b ∷ q) d u shown h ih =
        LoopInspects-stop a (suc m) s u got (take (suc m) p) (p ∷ ps) ((b ∷ q) ∷ ps)
          (record {
            takes = rw d at (Takes-inside (suc m) p ps (drop-cons (suc m) p d));
            shown = shown;
          })
          h

abbrev resumed : Reader → BodyResult → Result ParseError ((Bytes × Scanner) × Reader)
resumed r (err e) = err e
resumed r (ok (x, pieces)) = ok (x, record r { pieces = pieces })

run_body_loop-Inspects :
    (a : Option Automaton) (n : ℕ) (r q : Reader) (body : Bytes) (t : Scanner)
    → run_body_loop a n r ≡ ok ((body, t), q)
    → Inspects a n new_scanner t r.pieces q.pieces body × (q.fault ≡ r.fault)
run_body_loop-Inspects a n r q body t h = go (body_loop a n new_scanner [] r.pieces r.fault) refl h
  where
    go :
        (x : BodyResult)
        → body_loop a n new_scanner [] r.pieces r.fault ≡ x
        → resumed r x ≡ ok ((body, t), q)
        → Inspects a n new_scanner t r.pieces q.pieces body × (q.fault ≡ r.fault)
    go (err e) x h = absurd (cc)
    go (ok ((got, u), qs)) x h =
        let t_is : u ≡ t = cc in
        let got_is : got ≡ body = cc in
        let (_, q_is) = ok_injective h in
        let (part, i, part_is) =
          body_loop-Inspects a r.pieces r.fault n new_scanner [] got u qs x in
        (
          subst₃ (λ (p : Reader) v g. Inspects a n new_scanner v r.pieces p.pieces g) q_is t_is
              (sym part_is ∙ got_is) i,
          ap (λ (p : Reader). p.fault) (sym q_is),
        )

inspect_body-nil : (a : Option Automaton) → inspect_body a [] ≡ clean
unfolding inspect_body feed finish
inspect_body-nil none = refl
inspect_body-nil (some a) = refl

-- A body of announced length: it is the next bytes of the input, as many as announced, and all of
-- it has been inspected, as one value, whatever the sizes of the reads.
pub read_body_sound :
    (a : Option Automaton) (n : ℕ) (r q : Reader) (body : Bytes)
    → read_body a n r ≡ ok (body, q)
    → (content r.pieces ≡ body ++ content q.pieces)
      × (length body ≡ n)
      × (inspect_body a body ≡ clean)
      × (q.fault ≡ r.fault)
unfolding read_body
read_body_sound a zero r q body h =
    let (body_is, q_is) = ok_injective h in
    rw (← body_is, ← q_is) (refl, refl, inspect_body-nil a, refl)
read_body_sound a (suc n) r q body h = bind_ok (run_body_loop a (suc n)) _ r h λ (got, t) p e k.
    let (f, done) = pass-eq-ok (finish_body a t).1 _ p k in
    let (i, same_fault) = run_body_loop-Inspects a (suc n) r p got t e in
    let (body_is, q_is) = ok_injective done in
    rw (← body_is, ← q_is)
      (i.takes.splits, i.takes.is_long, inspect_body-clean a got i.shown f, same_fault)
