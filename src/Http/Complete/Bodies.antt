-- ===== src/Http/Complete/Bodies.antt =====
-- http/parser.go with bufio and io: a body whose bytes come, in whatever pieces, is read.
use multi_threaded_web_serve.Go.Reader.{ReadError, content, fill, read_full}
use multi_threaded_web_serve.Http.Action.{pass}
use multi_threaded_web_serve.Http.Body.{
  body_field, body_loop, feed_body, finish_body, full_or, read_body, run_body_loop,
}
use multi_threaded_web_serve.Http.Complete.{Gives, >>=-Gives, pass-Gives, pure-Gives}
use multi_threaded_web_serve.Http.Complete.Pieces.{
  end_of_piece, longer, split_at, drop_all, take_all,
}
use multi_threaded_web_serve.Http.Inspection.{feed_body-append, feed_body-nil, inspect_body}
use multi_threaded_web_serve.Waf.Automaton.{Automaton}
use multi_threaded_web_serve.Waf.Scanner.{
  Outcome, Scanner, and_then, clean, fault, feed, finish, found, new_scanner,
}
use multi_threaded_web_serve.Waf.Walk.{scan}
use multi_threaded_web_serve.Base.{
  ℕ, zero, suc, ◌-◌, ◌≤◌, ◌<◌, List, [], ◌∷◌, ◌++◌, ◌≡◌, ◌∙◌, refl, sym, ap, append_assoc,
  append-nil, Option, none, some, arith, Bool-cases, inl, inr, Bytes, ok, leb, leb→le, leb→lt,
  length, length-append, take, drop, length-drop,
}

pub and_then-clean :
    (o : Outcome) (k : Scanner → Outcome) (u : Scanner)
    → and_then o k ≡ (u, clean)
    → (v : Scanner) × (o ≡ (v, clean)) × (k v ≡ (u, clean))
and_then-clean (v, clean) k u h = (v, refl, h)
and_then-clean (v, found m) k u h = absurd (cc)
and_then-clean (v, fault) k u h = absurd (cc)

settled :
    (o : Outcome) (k : Scanner → Outcome)
    → (and_then o k).1 ≡ clean
    → (v : Scanner) × (o ≡ (v, clean)) × ((k v).1 ≡ clean)
settled (v, clean) k h = (v, refl, h)
settled (v, found m) k h = absurd (cc)
settled (v, fault) k h = absurd (cc)

-- The scanner that has been shown the whole part, and its end.
abbrev pub Shown : Option Automaton → Bytes → Type 0
Shown a body =
    (u : Scanner) × (feed_body a new_scanner body ≡ (u, clean)) × ((finish_body a u).1 ≡ clean)

pub inspect_body-Shown :
    (a : Option Automaton) (body : Bytes) → inspect_body a body ≡ clean → Shown a body
unfolding inspect_body feed_body finish_body scan
inspect_body-Shown none body h = (new_scanner, refl, refl)
inspect_body-Shown (some a) body h =
    settled (feed a body_field new_scanner body) (finish a body_field) h

module _ (a : Option Automaton) where
  -- The loop of `readBody` reads the part that is to come and leaves what follows it.
  abbrev pub LoopGives :
      ℕ → Scanner → Bytes → List Bytes → ReadError → Bytes → Scanner → Bytes → Type 0
  LoopGives n s got ps e part u t =
      (qs : List Bytes) × (body_loop a n s got ps e ≡ ok ((got ++ part, u), qs)) × (content qs ≡ t)

  stops :
      (m : ℕ) (s u : Scanner) (got p : Bytes) (ps : List Bytes) (e : ReadError) (b : ℕ) (d : Bytes)
      → feed_body a s (take (suc m) p) ≡ (u, clean)
      → drop (suc m) p ≡ b ∷ d
      → body_loop a (suc m) s got (p ∷ ps) e ≡ ok ((got ++ take (suc m) p, u), (b ∷ d) ∷ ps)
  unfolding body_loop
  stops m s u got p ps e b d shown k = rw (shown, k) refl

  goes_on :
      (m : ℕ) (s v : Scanner) (got p : Bytes) (ps : List Bytes) (e : ReadError)
      → feed_body a s p ≡ (v, clean)
      → length p ≤ suc m
      → body_loop a (suc m) s got (p ∷ ps) e ≡ body_loop a (suc m - length p) v (got ++ p) ps e
  unfolding body_loop
  goes_on m s v got p ps e shown h =
      let whole = take_all (suc m) p h in
      rw (ap (feed_body a s) whole ∙ shown, drop_all (suc m) p h)
        (ap (λ x. body_loop a (suc m - length p) v (got ++ x) ps e) whole)

  body_loop-inside :
      (m : ℕ) (s u : Scanner) (got : Bytes) (p : Bytes) (ps : List Bytes) (e : ReadError)
      (part t : Bytes)
      → suc m < length p
      → take (suc m) p ≡ part
      → drop (suc m) p ++ content ps ≡ t
      → feed_body a s part ≡ (u, clean)
      → LoopGives (suc m) s got (p ∷ ps) e part u t
  unfolding content
  body_loop-inside m s u got p ps e part t h taken left shown = go (drop (suc m) p) refl
    where
      go : (d : Bytes) → drop (suc m) p ≡ d → LoopGives (suc m) s got (p ∷ ps) e part u t
      go [] k = absurd (omega (arith, h, length-drop (suc m) p, ap length k))
      go (b ∷ d) k = (
        (b ∷ d) ∷ ps,
        stops m s u got p ps e b d (ap (feed_body a s) taken ∙ shown) k
            ∙ ap (λ x. ok ((got ++ x, u), (b ∷ d) ∷ ps)) taken,
        ap (λ x. x ++ content ps) (sym k) ∙ left,
      )

  pub body_loop-Gives :
      (ps : List Bytes) (e : ReadError) (n : ℕ) (s u : Scanner) (got part t : Bytes)
      → content ps ≡ part ++ t
      → length part ≡ n
      → feed_body a s part ≡ (u, clean)
      → LoopGives n s got ps e part u t
  unfolding body_loop content
  body_loop-Gives ps e zero s u got (b ∷ part) t c l shown = absurd (omega (arith, l))
  body_loop-Gives ps e zero s u got [] t c l shown =
      let nothing = feed_body-nil a s in
      let same_scanner : s ≡ u = cc in (ps, rw (append-nil got, same_scanner) refl, c)
  body_loop-Gives [] e (suc m) s u got [] t c l shown = absurd (omega (arith, l))
  body_loop-Gives [] e (suc m) s u got (b ∷ part) t c l shown = absurd (cc)
  body_loop-Gives (p ∷ ps) e (suc m) s u got part t c l shown =
      elim (end_of_piece (suc m) p (content ps) part t c l) [
        | inr (h, taken, left) ↦ body_loop-inside m s u got p ps e part t h taken left shown
        | inl (us, h, part_is, more) ↦
            let (v, first, second) =
              and_then-clean (feed_body a s p) (λ v. feed_body a v us) u
                (sym (feed_body-append a s p us) ∙ ap (feed_body a s) (sym part_is) ∙ shown) in
            let (qs, gives, left) =
              body_loop-Gives ps e (suc m - length p) v u (got ++ p) us t more
                (omega (arith, h, l, ap length part_is, length-append p us)) second in
            (
              qs,
              goes_on m s v got p ps e first h
                  ∙ gives
                  ∙ ap (λ x. ok ((x, u), qs))
                      (append_assoc got p us ∙ ap (λ x. got ++ x) (sym part_is)),
              left,
            )
      ]

  run_body_loop-Gives :
      (n : ℕ) (part t : Bytes) (u : Scanner)
      → length part ≡ n
      → feed_body a new_scanner part ≡ (u, clean)
      → Gives (run_body_loop a n) (part ++ t) (part, u) t
  run_body_loop-Gives n part t u l shown r c =
      let (qs, gives, left) =
        body_loop-Gives r.pieces r.fault n new_scanner u [] part t c l shown in
      (record r { pieces = qs }, rw (run_body_loop, gives) refl, left, refl)

  pub read_body-Gives :
      (n : ℕ) (body t : Bytes)
      → length body ≡ n
      → inspect_body a body ≡ clean
      → Gives (read_body a n) (body ++ t) body t
  unfolding read_body
  read_body-Gives zero [] t l h = pure-Gives [] t
  read_body-Gives zero (b ∷ body) t l h = absurd (omega (arith, l))
  read_body-Gives (suc n) body t l h =
      let (u, shown, ended) = inspect_body-Shown a body h in
      >>=-Gives (run_body_loop a (suc n)) _ (run_body_loop-Gives (suc n) body t u l shown)
        (>>=-Gives (pass (finish_body a u).1) _ (pass-Gives _ t ended) (pure-Gives body t))

-- io.ReadFull is given the bytes that it wants.
fill-gives :
    (ps : List Bytes) (e : ReadError) (n : ℕ) (got part t : Bytes)
    → content ps ≡ part ++ t
    → length part ≡ n
    → (qs : List Bytes) × (fill n got ps e ≡ ok (got ++ part, qs)) × (content qs ≡ t)
unfolding fill content
fill-gives [] e zero got [] t c l = ([], rw (append-nil got) refl, c)
fill-gives [] e zero got (b ∷ part) t c l = absurd (cc)
fill-gives [] e (suc n) got [] t c l = absurd (omega (arith, l))
fill-gives [] e (suc n) got (b ∷ part) t c l = absurd (cc)
fill-gives (p ∷ ps) e n got part t c l = elim (Bool-cases (leb n (length p))) [
  | inl y ↦
      let (a, b) = split_at n p (content ps) part t c l (leb→le n (length p) y) in
      (drop n p ∷ ps, rw (fill, y, a) refl, b)
  | inr k ↦
      let h = leb→lt n (length p) k in
      let (us, part_is, more) = longer p (content ps) part t c (omega (arith, h, l)) in
      let (qs, gives, left) =
        fill-gives ps e (n - length p) (got ++ p) us t more
          (omega (arith, h, l, ap length part_is, length-append p us)) in
      (
        qs,
        rw (fill, k) gives
            ∙ ap (λ x. ok (x, qs)) (append_assoc got p us ∙ ap (λ x. got ++ x) (sym part_is)),
        left,
      )
]

pub full_or-Gives :
    (n : ℕ) (part t : Bytes) → length part ≡ n → Gives (full_or n) (part ++ t) part t
unfolding read_full
full_or-Gives n part t l r c =
    let (qs, gives, left) = fill-gives r.pieces r.fault n [] part t c l in
    (record r { pieces = qs }, rw (full_or, read_full, gives) refl, left, refl)
