-- ===== src/Core/Metrics/Racing.antt =====
-- core/metrics.go: the loop of `RecordRequestDuration` on the maximum, with other goroutines between its
-- loads and its swaps. Each load and each compare-and-swap is one step.
use multi_threaded_web_serve.Base.{
  ℕ, zero, suc, ◌≤◌, ◌<◌, List, [], ◌∷◌, ◌≡◌, ◌∙◌, refl, ap, sym, subst, map, All, arith,
  Bool-cases, inl, inr, ◌==◌, leb, leb→le, leb→lt, ==_iff, if◌then◌else◌,
}

-- A goroutine with its duration: before its load, before the swap with what it has loaded, or
-- behind the loop.
pub data Racer : Type 0 where
  loads : ℕ → Racer
  swaps : ℕ → ℕ → Racer
  done : ℕ → Racer

abbrev pub micros : Racer → ℕ
micros (loads x) = x
micros (swaps x current) = x
micros (done x) = x

-- One step of a goroutine on the maximum.
unfoldable pub step : ℕ → Racer → ℕ × Racer
step m (loads x) = if leb x m then (m, done x) else (m, swaps x m)
step m (swaps x current) = if m == current then (x, done x) else (m, loads x)
step m (done x) = (m, done x)

-- A step of the goroutine at a position; there is none behind the last.
unfoldable pub step_at : ℕ → ℕ → List Racer → ℕ × List Racer
unfolding step
step_at i m [] = (m, [])
step_at zero m (r ∷ rs) = let (m', r') = step m r in (m', r' ∷ rs)
step_at (suc i) m (r ∷ rs) = let (m', rs') = step_at i m rs in (m', r ∷ rs')

-- The steps of a schedule, one after the other.
unfoldable pub race : List ℕ → ℕ → List Racer → ℕ × List Racer
unfolding step_at
race [] m rs = (m, rs)
race (i ∷ schedule) m rs = let (m', rs') = step_at i m rs in race schedule m' rs'

abbrev pub IsDone : Racer → Type 0
IsDone (loads x) = ⊥
IsDone (swaps x current) = ⊥
IsDone (done x) = Unit

abbrev pub larger : ℕ → ℕ → ℕ
larger a b = if leb a b then b else a

abbrev pub maximum : ℕ → List ℕ → ℕ
maximum n [] = n
maximum n (x ∷ xs) = larger x (maximum n xs)

-- Behind its loop, a goroutine's duration is within the maximum; before a swap it exceeds what was
-- loaded.
abbrev Fine : ℕ → Racer → Type 0
Fine m (loads x) = Unit
Fine m (swaps x current) = current < x
Fine m (done x) = x ≤ m

Fine-grows : (m m' : ℕ) (r : Racer) → m ≤ m' → Fine m r → Fine m' r
Fine-grows m m' (loads x) h f = f
Fine-grows m m' (swaps x current) h f = f
Fine-grows m m' (done x) h f = omega (arith, h, f)

All-grows : (m m' : ℕ) (rs : List Racer) → m ≤ m' → All (Fine m) rs → All (Fine m') rs
All-grows m m' [] h f = f
All-grows m m' (r ∷ rs) h (f, fs) = (Fine-grows m m' r h f, All-grows m m' rs h fs)

-- A step of one goroutine, within a bound of the durations.
record Steps (bound m : ℕ) (r : Racer) (m' : ℕ) (r' : Racer) : Type 0 where
  grows : m ≤ m'
  fine : Fine m' r'
  same_micros : micros r' ≡ micros r
  within : m' ≤ bound

step-Steps :
    (bound m : ℕ) (r : Racer)
    → Fine m r
    → m ≤ bound
    → micros r ≤ bound
    → Steps bound m r (step m r).0 (step m r).1
unfolding step
step-Steps bound m (loads x) f h k = elim (Bool-cases (leb x m)) [
  | inl y ↦
      rw y (record { grows = omega arith; fine = leb→le x m y; same_micros = refl; within = h })
  | inr n ↦
      rw n (record { grows = omega arith; fine = leb→lt x m n; same_micros = refl; within = h })
]
step-Steps bound m (swaps x current) f h k = elim (Bool-cases (m == current)) [
  | inl y ↦ rw y (record {
    grows = omega (arith, f, (==_iff m current).0 y);
    fine = omega arith;
    same_micros = refl;
    within = k;
  })
  | inr n ↦ rw n (record { grows = omega arith; fine = tt; same_micros = refl; within = h })
]
step-Steps bound m (done x) f h k = record {
  grows = omega arith;
  fine = f;
  same_micros = refl;
  within = h;
}

record StepsAll (bound m : ℕ) (rs : List Racer) (m' : ℕ) (rs' : List Racer) : Type 0 where
  grows : m ≤ m'
  fine : All (Fine m') rs'
  same_micros : map micros rs' ≡ map micros rs
  within : m' ≤ bound

step_at-StepsAll :
    (i bound m : ℕ) (rs : List Racer)
    → All (Fine m) rs
    → m ≤ bound
    → All (λ x. x ≤ bound) (map micros rs)
    → StepsAll bound m rs (step_at i m rs).0 (step_at i m rs).1
unfolding step_at
step_at-StepsAll i bound m [] f h k = record {
  grows = omega arith;
  fine = f;
  same_micros = refl;
  within = h;
}
step_at-StepsAll zero bound m (r ∷ rs) (f, fs) h (k, ks) =
    let s = step-Steps bound m r f h k in
    record {
      grows = s.grows;
      fine = (s.fine, All-grows m _ rs s.grows fs);
      same_micros = ap (λ x. x ∷ map micros rs) s.same_micros;
      within = s.within;
    }
step_at-StepsAll (suc i) bound m (r ∷ rs) (f, fs) h (k, ks) =
    let s = step_at-StepsAll i bound m rs fs h ks in
    record {
      grows = s.grows;
      fine = (Fine-grows m _ r s.grows f, s.fine);
      same_micros = ap (λ xs. micros r ∷ xs) s.same_micros;
      within = s.within;
    }

race-StepsAll :
    (schedule : List ℕ) (bound m : ℕ) (rs : List Racer)
    → All (Fine m) rs
    → m ≤ bound
    → All (λ x. x ≤ bound) (map micros rs)
    → StepsAll bound m rs (race schedule m rs).0 (race schedule m rs).1
unfolding race
race-StepsAll [] bound m rs f h k = record {
  grows = omega arith;
  fine = f;
  same_micros = refl;
  within = h;
}
race-StepsAll (i ∷ schedule) bound m rs f h k =
    let s = step_at-StepsAll i bound m rs f h k in
    let t =
      race-StepsAll schedule bound _ _ s.fine s.within
        (subst (λ xs. All (λ x. x ≤ bound) xs) (sym s.same_micros) k) in
    record {
      grows = omega (arith, s.grows, t.grows);
      fine = t.fine;
      same_micros = t.same_micros ∙ s.same_micros;
      within = t.within;
    }

maximum-least :
    (n b : ℕ) (rs : List Racer)
    → n ≤ b
    → All (Fine b) rs
    → All IsDone rs
    → maximum n (map micros rs) ≤ b
maximum-least n b [] h f d = h
maximum-least n b (done x ∷ rs) h (f, fs) (_, ds) = ground (arith, f, maximum-least n b rs h fs ds)
maximum-least n b (loads x ∷ rs) h f (d, ds) = absurd d
maximum-least n b (swaps x c ∷ rs) h f (d, ds) = absurd d

All-weaker : (a b : ℕ) (xs : List ℕ) → a ≤ b → All (λ x. x ≤ a) xs → All (λ x. x ≤ b) xs
All-weaker a b [] h k = k
All-weaker a b (x ∷ xs) h (k, ks) = (omega (arith, h, k), All-weaker a b xs h ks)

maximum-bound : (n : ℕ) (xs : List ℕ) → (n ≤ maximum n xs) × All (λ x. x ≤ maximum n xs) xs
maximum-bound n [] = (omega arith, tt)
maximum-bound n (x ∷ xs) =
    let (h, k) = maximum-bound n xs in
    let up : maximum n xs ≤ larger x (maximum n xs) = ground arith in
    (omega (arith, h, up), (ground arith, All-weaker (maximum n xs) _ xs up k))

loads-Fine : (m : ℕ) (xs : List ℕ) → All (Fine m) (map loads xs) × (map micros (map loads xs) ≡ xs)
loads-Fine m [] = (tt, refl)
loads-Fine m (x ∷ xs) = let (f, e) = loads-Fine m xs in ((tt, f), ap (λ l. x ∷ l) e)

-- Whatever the order in which goroutines load the maximum and swap it, once each of them is behind its
-- loop the maximum is the largest of their durations and of what it was before.
pub race-maximum :
    (schedule : List ℕ) (start : ℕ) (durations : List ℕ)
    → All IsDone (race schedule start (map loads durations)).1
    → (race schedule start (map loads durations)).0 ≡ maximum start durations
race-maximum schedule start durations ds =
    let (f, e) = loads-Fine start durations in
    let (h, k) = maximum-bound start durations in
    let s =
      race-StepsAll schedule (maximum start durations) start (map loads durations) f h
        (subst (λ xs. All (λ x. x ≤ maximum start durations) xs) (sym e) k) in
    let end = (race schedule start (map loads durations)).0 in
    let least = maximum-least start _ _ s.grows s.fine ds in
    omega (arith, s.within, subst (λ xs. maximum start xs ≤ end) (s.same_micros ∙ e) least)
