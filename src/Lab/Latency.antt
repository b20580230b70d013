-- ===== src/Lab/Latency.antt =====
-- cmd/lab/main.go: the figures of a list of durations. A `time.Duration` is its word of 64 bits in two's
-- complement.
pub mod Sorting
pub mod Ordered
use multi_threaded_web_serve.Base.{
  ℕ, zero, suc, ◌+◌, ◌-◌, ◌/◌, ◌%◌, ◌^◌, Bool, List, [], ◌∷◌, Option, none, some, ltb, leb, length,
  ℤ, pos, negsuc, ◌==◌, if◌then◌else◌,
}

abbrev pub Duration : Type 0
Duration = ℕ

-- The place of a word in the order of the signed numbers.
abbrev pub place : Duration → ℕ
place d = (d + 2 ^ 63) % 2 ^ 64

-- `a < b`.
abbrev pub shorter : Duration → Duration → Bool
shorter a b = ltb (place a) (place b)

-- `a + b`.
abbrev pub plus : Duration → Duration → Duration
plus a b = (a + b) % 2 ^ 64

-- `a / n` for a positive `n`: the division goes towards 0.
unfoldable pub quotient : Duration → ℕ → Duration
quotient a n = if ltb a (2 ^ 63) then a / n else (2 ^ 64 - (2 ^ 64 - a) / n) % 2 ^ 64

-- `sort.Slice` by the order of durations.
unfoldable pub insert_duration : Duration → List Duration → List Duration
insert_duration d [] = d ∷ []
insert_duration d (e ∷ ds) =
    let rest = insert_duration d ds in if shorter e d then e ∷ rest else d ∷ e ∷ ds

unfoldable pub sort_durations : List Duration → List Duration
unfolding insert_duration
sort_durations [] = []
sort_durations (d ∷ ds) = insert_duration d (sort_durations ds)

unfoldable pub total : Duration → List Duration → Duration
total sum [] = sum
total sum (d ∷ ds) = total (plus sum d) ds

-- An element of a slice; none is a panic.
unfoldable pub index : List Duration → ℕ → Option Duration
index [] n = none
index (d ∷ ds) zero = some d
index (d ∷ ds) (suc n) = index ds n

-- The float64 numbers that are percentiles: `p <= 0`, `p >= 1`, and `int(math.Ceil(float64(n) * p))`.
pub record Ranks (F : Type 0) : Type 0 where
  pub at_most_zero : F → Bool
  pub at_least_one : F → Bool
  pub ceil_times : ℕ → F → ℤ
  pub p50 : F
  pub p95 : F
  pub p99 : F

-- `index - 1`, at least 0.
abbrev pub before : ℤ → ℕ
before (pos n) = n - 1
before (negsuc n) = 0

unfoldable pub rank_index : ℕ → ℤ → ℕ
rank_index n rank = if leb n (before rank) then n - 1 else before rank

pub record LatencySummary : Type 0 where
  pub average : Duration
  pub min : Duration
  pub p50 : Duration
  pub p95 : Duration
  pub p99 : Duration
  pub max : Duration

module _ {F : Type 0} (r : Ranks F) where
  unfoldable pub percentile : List Duration → F → Option Duration
  unfolding rank_index index
  percentile [] p = some 0
  percentile (d ∷ ds) p =
      if r.at_most_zero p
      then some d
      else if r.at_least_one p
      then index (d ∷ ds) (length (d ∷ ds) - 1)
      else index (d ∷ ds) (rank_index (length (d ∷ ds)) (r.ceil_times (length (d ∷ ds)) p))

  -- The figures, where none of the elements asked for is out of range.
  abbrev pub summary_of :
      Duration
      → Option Duration
      → Option Duration
      → Option Duration
      → Option Duration
      → Option Duration
      → Option LatencySummary
  summary_of average (some min) (some p50) (some p95) (some p99) (some max) =
      some (record { average = average; min = min; p50 = p50; p95 = p95; p99 = p99; max = max })
  summary_of average _ _ _ _ _ = none

  unfoldable pub summarize_latencies : List Duration → Option LatencySummary
  unfolding sort_durations percentile total quotient index
  summarize_latencies [] =
      some (record { average = 0; min = 0; p50 = 0; p95 = 0; p99 = 0; max = 0 })
  summarize_latencies (d ∷ ds) =
      let sorted = sort_durations (d ∷ ds) in
      summary_of (quotient (total 0 sorted) (length sorted)) (index sorted 0)
        (percentile sorted r.p50) (percentile sorted r.p95) (percentile sorted r.p99)
        (index sorted (length sorted - 1))

-- The middle of the sorted durations, or half the sum of the middle two.
unfoldable pub median_duration : List Duration → Option Duration
unfolding sort_durations index quotient
median_duration values =
    let sorted = sort_durations values in
    let mid = length sorted / 2 in
    let before_mid = index sorted (mid - 1) in
    if length sorted % 2 == 1 then index sorted mid else elim before_mid [
      | none ↦ none
      | some low ↦ elim (index sorted mid) [
        | none ↦ none
        | some high ↦ some (quotient (plus low high) 2)
      ]
    ]
