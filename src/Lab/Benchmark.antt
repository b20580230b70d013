-- ===== src/Lab/Benchmark.antt =====
-- cmd/lab/main.go: the counts of a benchmark, and the summary of several reports. The lock of `record`
-- makes each call one step.
pub mod Counted
use multi_threaded_web_serve.Lab.Fixtures.{less_text}
use multi_threaded_web_serve.Lab.Latency.{
  Duration, LatencySummary, Ranks, median_duration, summarize_latencies,
}
use multi_threaded_web_serve.Base.{
  ℕ, suc, ◌+◌, Bool, true, false, List, [], ◌∷◌, ◌++◌, Option, none, some, Bytes, Result, ok, err,
  ℤ, pos, negsuc, is_empty, not_positive, insert, lookup, map, length, ◌==◌, ◌&&◌, if◌then◌else◌,
  ltb,
}

-- A call of `issue`: its latency, and the status code that came back, if there was no error.
pub record Issued : Type 0 where
  pub latency : Duration
  pub status : Option ℕ

pub record Counts : Type 0 where
  pub latencies : List Duration
  pub status_counts : List (ℕ × ℕ)
  pub err_count : ℕ

-- `statusCounts[code]++`.
unfoldable pub count_status : ℕ → List (ℕ × ℕ) → List (ℕ × ℕ)
count_status code [] = (code, 1) ∷ []
count_status code ((c, n) ∷ counts) =
    let rest = count_status code counts in if c == code then (c, suc n) ∷ counts else (c, n) ∷ rest

unfoldable pub record_issued : Counts → Issued → Counts
unfolding count_status
record_issued c i =
    let timed = record c { latencies = c.latencies ++ i.latency ∷ [] } in
    elim i.status [
      | none ↦ record timed { err_count = suc c.err_count }
      | some code ↦ record timed { status_counts = count_status code c.status_counts }
    ]

unfoldable pub record_all : Counts → List Issued → Counts
unfolding record_issued
record_all c [] = c
record_all c (i ∷ is) = record_all (record_issued c i) is

abbrev pub no_counts : Counts
no_counts = record { latencies = []; status_counts = []; err_count = 0 }

pub data FlagError : Type 0 where
  requests_not_positive concurrency_not_positive : FlagError
  -- The panic of `make` with a negative capacity.
  capacity_panics : FlagError

abbrev pub is_negative : ℤ → Bool
is_negative (pos n) = false
is_negative (negsuc n) = true

-- The tests of `runBenchmark` on its flags, and the slice that is made behind them.
unfoldable pub check_flags : ℤ → ℤ → ℤ → Option FlagError
check_flags duration requests concurrency =
    if not_positive duration && not_positive requests
    then some requests_not_positive
    else if not_positive concurrency
    then some concurrency_not_positive
    else if is_negative requests
    then some capacity_panics
    else none

-- What `runBenchmark` makes of what was issued: where there is a duration, the requests configured are
-- those that were completed.
pub record Outcome : Type 0 where
  pub requests : ℤ
  pub completed : ℕ
  pub errors : ℕ
  pub status_codes : List (ℕ × ℕ)
  pub latency : Option LatencySummary
  pub rate_limited : Bool

unfoldable pub count_of : ℕ → List (ℕ × ℕ) → ℕ
count_of code [] = 0
count_of code ((c, n) ∷ counts) = if c == code then n else count_of code counts

-- `issued` is what the workers did, where the flags are accepted; printing and the report's file are left out.
unfoldable pub run_benchmark :
    {F : Type 0} → Ranks F → ℤ → ℤ → ℤ → List Issued → Result FlagError Outcome
unfolding check_flags record_all summarize_latencies count_of
run_benchmark ranks duration requests concurrency issued =
    elim (check_flags duration requests concurrency) [
      | some e ↦ err e
      | none ↦
          let counts = record_all no_counts issued in
          let completed = length counts.latencies in
          ok (record {
            requests = if not_positive duration then requests else pos completed;
            completed = completed;
            errors = counts.err_count;
            status_codes = counts.status_counts;
            latency = summarize_latencies ranks counts.latencies;
            rate_limited = ltb 0 (count_of 429 counts.status_counts);
          })
    ]
