-- ===== src/Lab/Summaries.antt =====
-- cmd/lab/main.go: the summary of several reports of benchmarks, grouped by their URLs.
use multi_threaded_web_serve.Lab.Fixtures.{less_text}
use multi_threaded_web_serve.Lab.Latency.{Duration, median_duration}
use multi_threaded_web_serve.Base.{
  ℕ, zero, suc, ◌-◌, ◌/◌, ◌%◌, Bool, List, [], ◌∷◌, ◌++◌, Option, none, some, Bytes, Result, ok,
  err, is_empty, insert, lookup, map, length, ◌==◌, if◌then◌else◌,
}

-- The fields of a report that the summary reads: the texts of its latencies, and its throughput.
pub record Report (F : Type 0) : Type 0 where
  pub url : Bytes
  pub throughput : F
  pub average : Bytes
  pub p50 : Bytes
  pub p95 : Bytes
  pub p99 : Bytes

pub record Summary (F : Type 0) : Type 0 where
  pub runs : ℕ
  pub throughput : F
  pub average : Duration
  pub p50 : Duration
  pub p95 : Duration
  pub p99 : Duration

-- The four durations of a report, where their texts are those of durations.
pub record Times : Type 0 where
  pub average : Duration
  pub p50 : Duration
  pub p95 : Duration
  pub p99 : Duration

pub data SummaryError (E : Type 0) : Type 0 where
  no_files : SummaryError E
  unreadable : E → SummaryError E
  not_a_report : Bytes → SummaryError E
  no_reports : SummaryError E
  invalid_duration : E → SummaryError E
  median_panics : SummaryError E

-- The numbers of float64: the order of `sort.Float64s`, the sum, and the half.
pub record Throughputs (F : Type 0) : Type 0 where
  pub is_less : F → F → Bool
  pub sum : F → F → F
  pub halved : F → F

module _ {F : Type 0} (t : Throughputs F) where
  unfoldable pub insert_float : F → List F → List F
  insert_float x [] = x ∷ []
  insert_float x (y ∷ ys) =
      let rest = insert_float x ys in if t.is_less y x then y ∷ rest else x ∷ y ∷ ys

  unfoldable pub sort_floats : List F → List F
  unfolding insert_float
  sort_floats [] = []
  sort_floats (x ∷ xs) = insert_float x (sort_floats xs)

  unfoldable pub float_at : List F → ℕ → Option F
  float_at [] n = none
  float_at (x ∷ xs) zero = some x
  float_at (x ∷ xs) (suc n) = float_at xs n

  unfoldable pub median_float64 : List F → Option F
  unfolding sort_floats float_at
  median_float64 values =
      let sorted = sort_floats values in
      let mid = length sorted / 2 in
      let low = float_at sorted (mid - 1) in
      if length sorted % 2 == 1 then float_at sorted mid else elim low [
        | none ↦ none
        | some low ↦ elim (float_at sorted mid) [
          | none ↦ none
          | some high ↦ some (t.halved (t.sum low high))
        ]
      ]

module _ {F E : Type 0} (parse_duration : Bytes → Result E Duration) (t : Throughputs F) where
  -- The calls of `time.ParseDuration` in the loop, and the first error among them.
  unfoldable pub parse_times : Report F → Result (SummaryError E) Times
  parse_times report = elim (parse_duration report.average) [
    | err e ↦ err (invalid_duration e)
    | ok average ↦ elim (parse_duration report.p50) [
      | err e ↦ err (invalid_duration e)
      | ok p50 ↦ elim (parse_duration report.p95) [
        | err e ↦ err (invalid_duration e)
        | ok p95 ↦ elim (parse_duration report.p99) [
          | err e ↦ err (invalid_duration e)
          | ok p99 ↦ ok (record { average = average; p50 = p50; p95 = p95; p99 = p99 })
        ]
      ]
    ]
  ]

  abbrev pub next_times :
      Result (SummaryError E) Times
      → Result (SummaryError E) (List Times)
      → Result (SummaryError E) (List Times)
  next_times (err e) rest = err e
  next_times (ok t) (err e) = err e
  next_times (ok t) (ok ts) = ok (t ∷ ts)

  unfoldable pub all_times : List (Report F) → Result (SummaryError E) (List Times)
  unfolding parse_times
  all_times [] = ok []
  all_times (report ∷ reports) = next_times (parse_times report) (all_times reports)

  -- The medians, where no index is out of range.
  unfoldable pub medians :
      ℕ
      → Option F
      → Option Duration
      → Option Duration
      → Option Duration
      → Option Duration
      → Result (SummaryError E) (Summary F)
  medians runs (some throughput) (some average) (some p50) (some p95) (some p99) = ok (record {
    runs = runs;
    throughput = throughput;
    average = average;
    p50 = p50;
    p95 = p95;
    p99 = p99;
  })
  medians runs _ _ _ _ _ = err median_panics

  unfoldable pub summarize_benchmark_reports : List (Report F) → Result (SummaryError E) (Summary F)
  unfolding all_times medians median_duration median_float64
  summarize_benchmark_reports [] = err no_reports
  summarize_benchmark_reports (report ∷ reports) = elim (all_times (report ∷ reports)) [
    | err e ↦ err e
    | ok ts ↦
        medians (length (report ∷ reports))
          (median_float64 t (map (λ (r : Report F). r.throughput) (report ∷ reports)))
          (median_duration (map (λ (t : Times). t.average) ts))
          (median_duration (map (λ (t : Times). t.p50) ts))
          (median_duration (map (λ (t : Times). t.p95) ts))
          (median_duration (map (λ (t : Times). t.p99) ts))
  ]

abbrev pub or_empty : {F : Type 0} → Option (List (Report F)) → List (Report F)
or_empty none = []
or_empty (some reports) = reports

-- `reportsByURL[report.URL] = append(…)` over the reports read.
unfoldable pub by_url :
    {F : Type 0} → List (Bytes × List (Report F)) → List (Report F) → List (Bytes × List (Report F))
unfolding insert lookup
by_url groups [] = groups
by_url groups (report ∷ reports) =
    by_url (insert report.url (or_empty (lookup report.url groups) ++ report ∷ []) groups) reports

-- `sortedURLs`: the keys of a map differ.
unfoldable pub insert_url : Bytes → List Bytes → List Bytes
unfolding less_text
insert_url u [] = u ∷ []
insert_url u (v ∷ urls) =
    let rest = insert_url u urls in if less_text v u then v ∷ rest else u ∷ v ∷ urls

unfoldable pub sorted_urls : {F : Type 0} → List (Bytes × List (Report F)) → List Bytes
unfolding insert_url
sorted_urls [] = []
sorted_urls ((url, reports) ∷ groups) = insert_url url (sorted_urls groups)

module _ {F E : Type 0} (decode : Bytes → Result E (Report F))
    (parse_duration : Bytes → Result E Duration) (t : Throughputs F) where
  -- `decode` is `os.ReadFile` with `json.Unmarshal`.
  unfoldable pub read_benchmark_report : Bytes → Result (SummaryError E) (Report F)
  read_benchmark_report path = elim (decode path) [
    | err e ↦ err (unreadable e)
    | ok report ↦ if is_empty report.url then err (not_a_report path) else ok report
  ]

  abbrev pub next_report :
      Result (SummaryError E) (Report F)
      → Result (SummaryError E) (List (Report F))
      → Result (SummaryError E) (List (Report F))
  next_report (err e) rest = err e
  next_report (ok r) (err e) = err e
  next_report (ok r) (ok rs) = ok (r ∷ rs)

  unfoldable pub read_reports : List Bytes → Result (SummaryError E) (List (Report F))
  unfolding read_benchmark_report
  read_reports [] = ok []
  read_reports (file ∷ files) = next_report (read_benchmark_report file) (read_reports files)

  abbrev pub next_summary :
      Bytes
      → Result (SummaryError E) (Summary F)
      → Result (SummaryError E) (List (Bytes × Summary F))
      → Result (SummaryError E) (List (Bytes × Summary F))
  next_summary url (err e) rest = err e
  next_summary url (ok s) (err e) = err e
  next_summary url (ok s) (ok ss) = ok ((url, s) ∷ ss)

  unfoldable pub summaries :
      List (Bytes × List (Report F))
      → List Bytes
      → Result (SummaryError E) (List (Bytes × Summary F))
  unfolding summarize_benchmark_reports lookup
  summaries groups [] = ok []
  summaries groups (url ∷ urls) =
      next_summary url (summarize_benchmark_reports parse_duration t (or_empty (lookup url groups)))
        (summaries groups urls)

  -- `runSummarize` on its files, those of the pattern among them: the lines of its table.
  unfoldable pub run_summarize : List Bytes → Result (SummaryError E) (List (Bytes × Summary F))
  unfolding read_reports summaries by_url sorted_urls
  run_summarize [] = err no_files
  run_summarize (file ∷ files) = elim (read_reports (file ∷ files)) [
    | err e ↦ err e
    | ok reports ↦ let groups = by_url [] reports in summaries groups (sorted_urls groups)
  ]
