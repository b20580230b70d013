-- ===== src/Waf/Initial.antt =====
-- security/waf/automaton.go: addresses as reversed paths. A suffix of a path is an initial segment of
-- its address.
use mathlib.Core.Bool.{false≢true}
use native.Mathlib.Decide.{dec_lt}
use multi_threaded_web_serve.Waf.Automaton.{Addr}
use multi_threaded_web_serve.Base.{
  ℕ, suc, ◌≤◌, ◌<◌, Bool, true, false, ◌&&◌, [], ◌∷◌, ◌≡◌, refl, ap, sym, ◌∙◌, ◌==◌, length, arith,
}

-- `starts v u`: `v` is an initial segment of `u`.
abbrev pub starts : Addr → Addr → Bool
starts [] u = true
starts (a ∷ v) [] = false
starts (a ∷ v) (b ∷ u) = a == b && starts v u

-- The address of the path `s` from `w`.
abbrev pub onto : Addr → Addr → Addr
onto [] w = w
onto (b ∷ s) w = onto s (b ∷ w)

pub starts-length : (v u : Addr) → starts v u ≡ true → length v ≤ length u
starts-length [] u h = omega arith
starts-length (a ∷ v) [] h = ground arith
starts-length (a ∷ v) (b ∷ u) h = ground (arith, starts-length v u)

pub starts_refl : (u : Addr) → starts u u ≡ true
starts_refl [] = refl
starts_refl (a ∷ u) = ground (arith, starts_refl u)

-- Of two initial segments the shorter one starts the longer one.
pub starts_nested :
    (v x u : Addr) → starts v u ≡ true → starts x u ≡ true → length x ≤ length v → starts x v ≡ true
starts_nested v [] u h k l = refl
starts_nested [] (c ∷ x) u h k l = absurd (omega arith)
starts_nested (a ∷ v) (c ∷ x) [] h k l = ground arith
starts_nested (a ∷ v) (c ∷ x) (b ∷ u) h k l = ground (arith, starts_nested v x u)

pub starts_trans : (x v u : Addr) → starts x v ≡ true → starts v u ≡ true → starts x u ≡ true
starts_trans [] v u h k = refl
starts_trans (c ∷ x) [] u h k = ground arith
starts_trans (c ∷ x) (a ∷ v) [] h k = ground arith
starts_trans (c ∷ x) (a ∷ v) (b ∷ u) h k = ground (arith, starts_trans x v u)

pub starts_whole : (v u : Addr) → starts v u ≡ true → length v ≡ length u → v ≡ u
starts_whole [] [] h l = refl
starts_whole [] (b ∷ u) h l = absurd (omega arith)
starts_whole (a ∷ v) [] h l = absurd (omega arith)
starts_whole (a ∷ v) (b ∷ u) h l =
    let both : (a ≡ b) × (starts v u ≡ true) = ground arith in
    let rest : v ≡ u = starts_whole v u both.1 (omega arith) in rw (both.0, rest)

-- The longest member of `T` among the initial segments of `u` that are at most `n` long.
pub record Longest (T : Addr → Bool) (n : ℕ) (u v : Addr) : Type 0 where
  pub member : T v ≡ true
  pub initial : starts v u ≡ true
  pub short : length v ≤ n
  pub longest : (x : Addr) → T x ≡ true → starts x u ≡ true → length x ≤ n → length x ≤ length v

-- All initial segments that `b` extends within `T` are at most as long as `q`, which is one.
pub record Best (T : Addr → Bool) (n : ℕ) (u : Addr) (b : ℕ) (q : Addr) : Type 0 where
  pub member : T q ≡ true
  pub initial : starts q u ≡ true
  pub short : length q ≤ n
  pub longest :
      (x : Addr) → T (b ∷ x) ≡ true → starts x u ≡ true → length x ≤ n → length x ≤ length q

-- With every node, its parent.
abbrev pub Closed : (Addr → Bool) → Type 0
Closed T = (b : ℕ) (w : Addr) → T (b ∷ w) ≡ true → T w ≡ true

module _ (T : Addr → Bool) (closed : Closed T) (n : ℕ) (u : Addr) (b : ℕ) where
  shorter :
      (x v : Addr) → starts x v ≡ true → T (b ∷ v) ≡ false → T (b ∷ x) ≡ true → length x < length v
  shorter x v s stays goes =
      let l = starts-length x v s in
      elim (dec_lt (length x) (length v)) [
        | yes h ↦ h
        | no h ↦
            let e : x ≡ v = starts_whole x v s (omega arith) in
            absurd (false≢true (sym stays ∙ ap (λ y. T (b ∷ y)) (sym e) ∙ goes))
      ]

  -- Where `b` does not extend a segment, the longest segment of that one is the best next.
  pub Best-next :
      (c : ℕ) (q p : Addr)
      → Best T n u b (c ∷ q)
      → T (b ∷ c ∷ q) ≡ false
      → Longest T (length q) (c ∷ q) p
      → Best T n u b p
  Best-next c q p h none l = record {
    member = l.member;
    initial = starts_trans p (c ∷ q) u l.initial h.initial;
    short = omega (arith, l.short, h.short);
    longest = λ x m s k.
        let nested = starts_nested (c ∷ q) x u h.initial s (h.longest x m s k) in
        let less = shorter x (c ∷ q) nested none m in
        l.longest x (closed b x m) nested (omega arith);
  }

  extends-longest :
      (q : Addr)
      → Best T n u b q
      → (x : Addr) → T x ≡ true
      → starts x (b ∷ u) ≡ true
      → length x ≤ suc n
      → length x ≤ suc (length q)
  extends-longest q h [] m s l = omega arith
  extends-longest q h (a ∷ x) m s l =
      let both : (a ≡ b) × (starts x u ≡ true) = ground arith in
      let at : T (b ∷ x) ≡ true = ap (λ y. T (y ∷ x)) (sym both.0) ∙ m in
      omega (arith, h.longest x at both.1 (omega arith))

  -- The best segment that `b` extends is, extended, the longest one of `b ∷ u`.
  pub Best-extends :
      (q : Addr) → Best T n u b q → T (b ∷ q) ≡ true → Longest T (suc n) (b ∷ u) (b ∷ q)
  Best-extends q h m = record {
    member = m;
    initial = ground (arith, h.initial);
    short = omega (arith, h.short);
    longest = extends-longest q h;
  }

  root-longest :
      Best T n u b []
      → T (b ∷ []) ≡ false
      → (x : Addr) → T x ≡ true
      → starts x (b ∷ u) ≡ true
      → length x ≤ suc n
      → length x ≤ 0
  root-longest h none [] m s l = omega arith
  root-longest h none (a ∷ x) m s l =
      let both : (a ≡ b) × (starts x u ≡ true) = ground arith in
      let at : T (b ∷ x) ≡ true = ap (λ y. T (y ∷ x)) (sym both.0) ∙ m in
      let less =
        shorter x [] (starts_nested [] x u refl both.1 (h.longest x at both.1 (omega arith))) none
          at in
      absurd (omega arith)

  -- Where it extends none, the root is the longest one.
  pub Best-root : T [] ≡ true → Best T n u b [] → T (b ∷ []) ≡ false → Longest T (suc n) (b ∷ u) []
  Best-root root_in h none = record {
    member = root_in;
    initial = refl;
    short = omega arith;
    longest = root-longest h none;
  }
