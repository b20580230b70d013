-- ===== src/Waf/Tracks.antt =====
-- security/waf/automaton.go: the state of a finished automaton is the longest node that starts the
-- reversed text, and so it reports the patterns as they end.
use mathlib.Core.Bool.{false≢true}
use multi_threaded_web_serve.Waf.Automaton.{Addr, Store, load, next_of}
use multi_threaded_web_serve.Waf.Initial.{
  Best, Best-extends, Best-next, Best-root, Longest, starts, starts-length, starts_nested,
  starts_trans,
}
use multi_threaded_web_serve.Waf.Links.{marked-has, Good-Fires, IsBase}
use multi_threaded_web_serve.Waf.Links.Levels.Finished.{Finished}
use multi_threaded_web_serve.Waf.Occurs.{meets}
use multi_threaded_web_serve.Waf.Scanner.{Verdict, clean, fault, found, next_state, settle}
use multi_threaded_web_serve.Waf.Trie.{has}
use multi_threaded_web_serve.Waf.Trie.Paths.{is_some, key, marked}
use multi_threaded_web_serve.Waf.Walk.{walk}
use multi_threaded_web_serve.Base.{
  ℕ, zero, suc, ◌≤◌, Bool, true, false, ◌||◌, [], ◌∷◌, ◌≡◌, refl, subst, ap, sym, ◌∙◌, arith, inl,
  inr, ◌⊎◌, Option, none, some, Option-cases, Bool-cases, Bytes, length, if◌then◌else◌,
}

-- The verdict of an automaton that has seen `u`, reversed, on the text `s`.
abbrev pub Says : (Bytes → Type 0) → (Addr → Bool) → Bytes → Addr → Bytes → Verdict → Type 0
Says P ends field u s clean = (x : Addr) → ends x ≡ true → meets x u s ≡ false
Says P ends field u s (found m) =
    P m.pattern × (meets (key m.pattern) u s ≡ true) × (m.field ≡ field)
Says P ends field u s fault = ⊥

pub or_later : (a : Bool) {b : Bool} → b ≡ true → (a || b) ≡ true
or_later true h = refl
or_later false h = h

module _ {P : Bytes → Type 0} {base st : Store} (b_is : IsBase P base) (f : Finished b_is st) where
  leads : (w : Addr) (b : ℕ) → next_of st w b ≡ (if has base (b ∷ w) then some (b ∷ w) else none)
  leads w b = f.on.trie.leads w b ∙ ap (λ t. if t then some (b ∷ w) else none) (f.on.nodes (b ∷ w))

  next-there : (w : Addr) (b : ℕ) → has base (b ∷ w) ≡ true → next_of st w b ≡ some (b ∷ w)
  next-there w b y = leads w b ∙ ap (λ t. if t then some (b ∷ w) else none) y

  next-absent : (w : Addr) (b : ℕ) → has base (b ∷ w) ≡ false → next_of st w b ≡ none
  next-absent w b k = leads w b ∙ ap (λ t. if t then some (b ∷ w) else none) k

  -- Where the loop over the fail pointers stops.
  abbrev Settled : Addr → ℕ → Option Addr → Type 0
  Settled u b none = ⊥
  Settled u b (some q) = Best (has base) (length u) u b q × ((has base (b ∷ q) ≡ true) ⊎ (q ≡ []))

  settle-Settled :
      (fuel : ℕ) (u : Addr) (b : ℕ) (p : Addr)
      → length p ≤ fuel
      → Best (has base) (length u) u b p
      → Settled u b (settle fuel st p b)
  unfolding settle
  settle-Settled zero u b [] l h = (h, inr refl)
  settle-Settled (suc fuel) u b [] l h = (h, inr refl)
  settle-Settled zero u b (c ∷ w) l h = absurd (omega arith)
  settle-Settled (suc fuel) u b (c ∷ w) l h = elim (Bool-cases (has base (b ∷ c ∷ w))) [
    | inl y ↦ rw (settle, next-there (c ∷ w) b y) (h, inl y)
    | inr k ↦
        let (p, e, longest, _) = f.good (c ∷ w) h.member in
        rw (settle, next-absent (c ∷ w) b k, e)
          (settle-Settled fuel u b p (omega (arith, longest.short))
            (Best-next (has base) b_is.marks.trie.closed (length u) u b c w p h k longest))
  ]

  -- The state is the longest node that starts the reversed text.
  abbrev Tracks : Addr → Option Addr → Type 0
  Tracks u none = ⊥
  Tracks u (some v) = Longest (has base) (length u) u v

  next_state-Tracks :
      (u : Addr) (b : ℕ) (state : Addr)
      → Longest (has base) (length u) u state
      → Tracks (b ∷ u) (next_state st state b)
  unfolding next_state
  next_state-Tracks u b state l =
      let best : Best (has base) (length u) u b state = record {
        member = l.member;
        initial = l.initial;
        short = l.short;
        longest = λ x m s k. l.longest x (b_is.marks.trie.closed b x m) s k;
      } in
      let settled = settle-Settled (length state) u b state (omega arith) best in
      elim (Option-cases (settle (length state) st state b)) [
        | inl e ↦ absurd (subst (Settled u b) e settled)
        | inr (q, e) ↦
            let (h, stops) = subst (Settled u b) e settled in
            elim (Bool-cases (has base (b ∷ q))) [
              | inl y ↦
                  rw (next_state, e, next-there q b y)
                    (Best-extends (has base) b_is.marks.trie.closed (length u) u b q h y)
              | inr k ↦
                  rw (next_state, e, next-absent q b k)
                    (elim stops [
                      | inl y ↦ absurd (false≢true (sym k ∙ y))
                      | inr at ↦ subst (Longest (has base) (suc (length u)) (b ∷ u)) (sym at) (
                          Best-root (has base) b_is.marks.trie.closed (length u) u b
                            b_is.marks.trie.rooted (subst (Best (has base) (length u) u b) at h)
                            (ap (λ x. has base (b ∷ x)) (sym at) ∙ k))
                    ])
            ]
      ]

  -- A node within the text's segments that is marked makes the state fire.
  silent :
      (u v x : Addr)
      → Longest (has base) (length u) u v
      → (load st v).output ≡ none
      → marked base x ≡ true
      → starts x u ≡ false
  silent u v x l e m = elim (Bool-cases (starts x u)) [
    | inr n ↦ n
    | inl y ↦
        let there = marked-has b_is st f.on x m in
        let within = l.longest x there y (starts-length x u y) in
        let fires =
          Good-Fires (has base) (marked base) b_is.no_empty (load st v) v (f.good v l.member) x m
            (starts_nested v x u l.initial y within) in
        absurd (false≢true (sym (ap is_some e) ∙ fires))
  ]

  -- One byte more before the text.
  further :
      (field s u : Bytes) (b : ℕ) (v : Verdict)
      → Says P (marked base) field (b ∷ u) s v
      → ((x : Addr) → marked base x ≡ true → starts x (b ∷ u) ≡ false)
      → Says P (marked base) field u (b ∷ s) v
  further field s u b clean h k = λ x m. ap (λ t. t || meets x (b ∷ u) s) (k x m) ∙ h x m
  further field s u b (found m) (p, e, f_is) k =
      (p, or_later (starts (key m.pattern) (b ∷ u)) e, f_is)
  further field s u b fault h k = h

  pub walk-Says :
      (field : Bytes) (s : Bytes) (u state : Addr)
      → Longest (has base) (length u) u state
      → Says P (marked base) field u s (walk st field state s)
  unfolding walk
  walk-Says field [] u state l = λ x m. refl
  walk-Says field (b ∷ s) u state l =
      let tracks = next_state-Tracks u b state l in
      elim (Option-cases (next_state st state b)) [
        | inl e ↦ absurd (subst (Tracks (b ∷ u)) e tracks)
        | inr (v, e) ↦
            let l' = subst (Tracks (b ∷ u)) e tracks in
            elim (Option-cases (load st v).output) [
              | inr (r, o) ↦
                  let (p, ends_here) = (f.on.partial v).sound r o in
                  rw (walk, e, o)
                    (
                      p,
                      ap (λ t. t || meets (key r.pattern) (b ∷ u) s)
                          (starts_trans (key r.pattern) v (b ∷ u) ends_here l'.initial),
                      refl,
                    )
              | inl o ↦
                  rw (walk, e, o)
                    (further field s u b (walk st field v s) (walk-Says field s (b ∷ u) v l')
                      (λ x m. silent (b ∷ u) v x l' o m))
            ]
      ]
