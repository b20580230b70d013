-- ===== src/Lab/Latency/Ordered.antt =====
-- cmd/lab/main.go: the figures of a benchmark are those of its latencies.
use mathlib.Core.List.{Mem}
use mathlib.Core.List.Perm
use native.Mathlib.Nat.{div-le_of_le-mul, le-div_iff_mul-le}
use multi_threaded_web_serve.Lab.Latency.Sorting.{
  Ascends, sum_of, All-map, sort-Ascends, sort-Perm, sort-sum, index-there, index-Mem, index-All,
  index-Ascends, sort-back, total-sum, sum-ge, sum-le, below_sum, rank_index-lt, rank_index-le,
}
use multi_threaded_web_serve.Lab.Latency.{
  Duration, LatencySummary, Ranks, before, index, percentile, place, quotient, rank_index,
  sort_durations, summarize_latencies, summary_of, total,
}
use multi_threaded_web_serve.Base.{
  ℕ, zero, suc, ◌-◌, ◌^◌, ◌≤◌, ◌<◌, true, false, List, [], ◌∷◌, ◌≡◌, refl, sym, ap, subst, ◌∙◌, All,
  some, arith, ltb, length,
}

-- The three percentiles are between 0 and 1, and their ranks rise.
pub record ArePercentiles {F : Type 0} (r : Ranks F) : Type 0 where
  pub above_zero :
      (r.at_most_zero r.p50 ≡ false)
      × (r.at_most_zero r.p95 ≡ false)
      × (r.at_most_zero r.p99 ≡ false)
  pub below_one :
      (r.at_least_one r.p50 ≡ false)
      × (r.at_least_one r.p95 ≡ false)
      × (r.at_least_one r.p99 ≡ false)
  pub rising :
      (n : ℕ)
      → (before (r.ceil_times n r.p50) ≤ before (r.ceil_times n r.p95))
        × (before (r.ceil_times n r.p95) ≤ before (r.ceil_times n r.p99))

-- The figures of the samples.
pub record AreFigures (samples : List Duration) (s : LatencySummary) : Type 0 where
  pub samples_of :
      Mem s.min samples
      × Mem s.p50 samples
      × Mem s.p95 samples
      × Mem s.p99 samples
      × Mem s.max samples
  pub lowest : All (λ x. s.min ≤ x) samples
  pub highest : All (λ x. x ≤ s.max) samples
  pub rising : (s.min ≤ s.p50) × (s.p50 ≤ s.p95) × (s.p95 ≤ s.p99) × (s.p99 ≤ s.max)
  pub between : (s.min ≤ s.average) × (s.average ≤ s.max)

place-lt : (x y : ℕ) → x < 2 ^ 63 → y < 2 ^ 63 → place x ≤ place y → x ≤ y
place-lt x y h k l = omega (arith, h, k, l)

All-place :
    (d : Duration) (xs : List Duration)
    → d < 2 ^ 63
    → All (λ x. x < 2 ^ 63) xs
    → All (λ x. place d ≤ place x) xs
    → All (λ x. d ≤ x) xs
All-place d [] h k l = tt
All-place d (x ∷ xs) h (k, ks) (l, ls) = (place-lt d x h k l, All-place d xs h ks ls)

-- The last of the sorted durations is the highest.
last_highest :
    (xs : List Duration) (n : ℕ) {m : Duration}
    → suc n ≡ length xs
    → m < 2 ^ 63
    → All (λ x. x < 2 ^ 63) xs
    → Ascends xs
    → index xs n ≡ some m
    → All (λ x. x ≤ m) xs
unfolding index
last_highest [] n l b bs up e = absurd (cc)
last_highest (d ∷ []) zero {m} l b bs up e = let same : d ≡ m = cc in (omega (arith, same), tt)
last_highest (d ∷ x ∷ xs) zero l b bs up e = absurd (omega (arith, l))
last_highest (d ∷ xs) (suc n) {m} l b (c, bs) (up, ups) e = (
  place-lt d m c b (index-All (λ x. place d ≤ place x) xs n up e),
  last_highest xs n (omega (arith, l)) b bs ups e,
)

average_between :
    (low high : ℕ) (xs : List ℕ)
    → 0 < length xs
    → sum_of xs < 2 ^ 63
    → All (λ x. low ≤ x) xs
    → All (λ x. x ≤ high) xs
    → (low ≤ quotient (total 0 xs) (length xs)) × (quotient (total 0 xs) (length xs) ≤ high)
unfolding quotient
average_between low high xs some_long small lows highs =
    let positive : ltb (sum_of xs) (2 ^ 63) ≡ true = ground (arith, small) in
    let whole : total 0 xs ≡ sum_of xs = total-sum 0 xs (omega (arith, small)) ∙ omega arith in
    rw whole (
      rw positive (
        (le-div_iff_mul-le some_long).1 (sum-ge low xs lows),
        div-le_of_le-mul (length xs) (omega (arith, sum-le high xs highs)),
      ))

module _ {F : Type 0} (r : Ranks F) (are : ArePercentiles r) where
  rank : List Duration → F → ℕ
  rank xs p = rank_index (length xs) (r.ceil_times (length xs) p)

  percentile_inside :
      (d : Duration) (ds : List Duration) (p : F)
      → r.at_most_zero p ≡ false
      → r.at_least_one p ≡ false
      → percentile r (d ∷ ds) p ≡ index (d ∷ ds) (rank (d ∷ ds) p)
  unfolding percentile rank
  percentile_inside d ds p h k = rw (h, k) refl

  sorted_figures :
      (d : Duration) (ds : List Duration)
      → Ascends (d ∷ ds)
      → sum_of (d ∷ ds) < 2 ^ 63
      → (s : LatencySummary) × (summary_of r
            (quotient (total 0 (d ∷ ds)) (length (d ∷ ds)))
            (index (d ∷ ds) 0)
            (percentile r (d ∷ ds) r.p50)
            (percentile r (d ∷ ds) r.p95)
            (percentile r (d ∷ ds) r.p99)
            (index (d ∷ ds) (length (d ∷ ds) - 1))
          ≡ some s)
        × AreFigures (d ∷ ds) s
  unfolding rank index
  sorted_figures d ds up small =
      let xs = d ∷ ds in
      let some_long : 0 < length xs = omega arith in
      let (b, at50) = index-there xs (rank xs r.p50) (rank_index-lt _ _ some_long) in
      let (c, at95) = index-there xs (rank xs r.p95) (rank_index-lt _ _ some_long) in
      let (e, at99) = index-there xs (rank xs r.p99) (rank_index-lt _ _ some_long) in
      let (m, at_end) = index-there xs (length xs - 1) (omega arith) in
      let bounded = All-map xs (λ x h. omega (arith, h, small)) (below_sum xs) in
      let least : index xs 0 ≡ some d = refl in
      let ordered : (i j : ℕ) (x y : Duration)
          → i ≤ j
          → index xs i ≡ some x
          → index xs j ≡ some y
          → x ≤ y =
        λ i j x y l f g.
          place-lt x y (index-All (λ x. x < 2 ^ 63) xs i bounded f)
            (index-All (λ x. x < 2 ^ 63) xs j bounded g) (index-Ascends xs i j up l f g) in
      let lows : All (λ x. d ≤ x) xs = (omega arith, All-place d ds bounded.0 bounded.1 up.0) in
      let highs =
        last_highest xs (length xs - 1) (omega arith)
          (index-All (λ x. x < 2 ^ 63) xs (length xs - 1) bounded at_end) bounded up at_end in
      let (up95, up99) = are.rising (length xs) in
      (
        record {
          average = quotient (total 0 xs) (length xs);
          min = d;
          p50 = b;
          p95 = c;
          p99 = e;
          max = m;
        },
        rw
            (
              percentile_inside d ds r.p50 are.above_zero.0 are.below_one.0 ∙ at50,
              percentile_inside d ds r.p95 are.above_zero.1 are.below_one.1 ∙ at95,
              percentile_inside d ds r.p99 are.above_zero.2 are.below_one.2 ∙ at99,
              at_end,
            )
            refl,
        record {
          samples_of = (
            index-Mem xs 0 least,
            index-Mem xs _ at50,
            index-Mem xs _ at95,
            index-Mem xs _ at99,
            index-Mem xs _ at_end,
          );
          lowest = lows;
          highest = highs;
          rising = (
            ordered 0 _ d b (omega arith) least at50,
            ordered _ _ b c (rank_index-le _ _ _ some_long up95) at50 at95,
            ordered _ _ c e (rank_index-le _ _ _ some_long up99) at95 at99,
            index-All (λ x. x ≤ m) xs _ highs at99,
          );
          between = average_between d m xs some_long small lows highs;
        },
      )

  Mem-sort : {x : Duration} (ds : List Duration) → Mem x (sort_durations ds) → Mem x ds
  Mem-sort ds = (Perm.mem_iff (sort-Perm ds)).0

  AreFigures-sort :
      (ds : List Duration) (s : LatencySummary) → AreFigures (sort_durations ds) s → AreFigures ds s
  AreFigures-sort ds s f =
      let (a, b, c, d, e) = f.samples_of in
      record {
        samples_of = (Mem-sort ds a, Mem-sort ds b, Mem-sort ds c, Mem-sort ds d, Mem-sort ds e);
        lowest = sort-back (λ x. s.min ≤ x) ds f.lowest;
        highest = sort-back (λ x. x ≤ s.max) ds f.highest;
        rising = f.rising;
        between = f.between;
      }

  -- Where the ranks of the percentiles rise with them, and the latencies, one at least, are not
  -- negative and their sum is below 2 ^ 63: the summary is made, and no index is out of range. The least,
  -- the greatest and the percentiles are samples, no sample is below the one or above the other, the
  -- percentiles rise between them, and the average is between them too.
  pub summarize_latencies-AreFigures :
      (d : Duration) (ds : List Duration)
      → sum_of (d ∷ ds) < 2 ^ 63
      → (s : LatencySummary) × (summarize_latencies r (d ∷ ds) ≡ some s) × AreFigures (d ∷ ds) s
  unfolding summarize_latencies
  summarize_latencies-AreFigures d ds small = go (sort_durations (d ∷ ds)) refl
    where
      go :
          (xs : List Duration)
          → sort_durations (d ∷ ds) ≡ xs
          → (s : LatencySummary) × (summarize_latencies r (d ∷ ds) ≡ some s) × AreFigures (d ∷ ds) s
      go [] k = absurd (omega (arith, (sort-sum (d ∷ ds)).1, ap length k))
      go (x ∷ xs) k =
          let (s, made, f) =
            sorted_figures x xs (subst Ascends k (sort-Ascends (d ∷ ds)))
              (omega (arith, small, (sort-sum (d ∷ ds)).0, ap sum_of k)) in
          (
            s,
            rw (summarize_latencies, k) made,
            AreFigures-sort (d ∷ ds) s (subst (λ l. AreFigures l s) (sym k) f),
          )
