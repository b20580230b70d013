-- ===== src/Tests/LabExamples.antt =====
-- The theorems on the lab and on the start of the server, at concrete inputs.
use multi_threaded_web_serve.Lab.Benchmark.{Issued, Outcome, run_benchmark}
use multi_threaded_web_serve.Lab.Benchmark.Counted.{IsCounted, run_benchmark-IsCounted}
use multi_threaded_web_serve.Lab.Fixtures.{normalize_http_fixture}
use multi_threaded_web_serve.Lab.Fixtures.LineEnds.{IsFixture, normalize_http_fixture-IsFixture}
use multi_threaded_web_serve.Lab.Latency.{LatencySummary, Ranks, summarize_latencies}
use multi_threaded_web_serve.Lab.Latency.Ordered.{
  AreFigures, ArePercentiles, summarize_latencies-AreFigures,
}
use multi_threaded_web_serve.Lab.Requests.{
  classify_difference, execute_raw_request, Exchange, summary,
}
use multi_threaded_web_serve.Tests.{reader}
use multi_threaded_web_serve.Base.{
  ℕ, ◌+◌, ◌*◌, ◌/◌, true, List, [], ◌∷◌, ◌≡◌, refl, none, some, arith, ok, err, codes, pos, leb,
}

-- Percentiles in percent.
abbrev percent : Ranks ℕ
percent = record {
  at_most_zero = λ p. leb p 0;
  at_least_one = λ p. leb 100 p;
  ceil_times = λ n p. pos ((n * p + 99) / 100);
  p50 = 50;
  p95 = 95;
  p99 = 99;
}

percent-ArePercentiles : ArePercentiles percent
percent-ArePercentiles = record {
  above_zero = (refl, refl, refl);
  below_one = (refl, refl, refl);
  rising = λ n. (omega arith, omega arith);
}

summarize_latencies-AreFigures_example :
    (s : LatencySummary) × (summarize_latencies percent (30 ∷ 10 ∷ 20 ∷ []) ≡ some s)
    × AreFigures (30 ∷ 10 ∷ 20 ∷ []) s
summarize_latencies-AreFigures_example =
    summarize_latencies-AreFigures percent percent-ArePercentiles 30 (10 ∷ 20 ∷ []) (omega arith)

figures :
    summarize_latencies percent (30 ∷ 10 ∷ 20 ∷ [])
    ≡ some (record { average = 20; min = 10; p50 = 20; p95 = 30; p99 = 30; max = 30 })
unfolding summarize_latencies
figures = refl

normalize_http_fixture-IsFixture_example :
    IsFixture (normalize_http_fixture (codes "GET / HTTP/1.1\nHost: h\r\n"))
    × (normalize_http_fixture (normalize_http_fixture (codes "GET / HTTP/1.1\nHost: h\r\n"))
        ≡ normalize_http_fixture (codes "GET / HTTP/1.1\nHost: h\r\n"))
normalize_http_fixture-IsFixture_example =
    normalize_http_fixture-IsFixture (codes "GET / HTTP/1.1\nHost: h\r\n")

normalized :
    normalize_http_fixture (codes "GET / HTTP/1.1\nHost: h\r\n")
    ≡ codes "GET / HTTP/1.1\r\nHost: h\r\n\r\n"
unfolding normalize_http_fixture
normalized = refl

abbrev issued : List Issued
issued =
    record { latency = 5; status = some 200 }
    ∷ record { latency = 9; status = none }
    ∷ record { latency = 7; status = some 429 }
    ∷ []

abbrev outcome : Outcome
outcome = record {
  requests = pos 3;
  completed = 3;
  errors = 1;
  status_codes = (200, 1) ∷ (429, 1) ∷ [];
  latency = some (record { average = 7; min = 5; p50 = 7; p95 = 9; p99 = 9; max = 9 });
  rate_limited = true;
}

benchmarked : run_benchmark percent (pos 0) (pos 3) (pos 1) issued ≡ ok outcome
unfolding run_benchmark
benchmarked = refl

run_benchmark-IsCounted_example : IsCounted percent issued 429 outcome
run_benchmark-IsCounted_example =
    run_benchmark-IsCounted percent (pos 0) (pos 3) (pos 1) issued 429 outcome benchmarked

-- A server that answers, and one that cannot be reached.
abbrev two_servers : Exchange
two_servers = record {
  send = λ addr request. elim addr [
    | [] ↦ err (codes "refused")
    | b ∷ s ↦ ok (reader (codes "HTTP/1.1 403 Forbidden\r\nServer: x" ∷ []))
  ];
  error_text = λ e. codes "EOF";
  scan_int = λ s. some (pos 403);
}

answered :
    summary (execute_raw_request two_servers (codes "a") []) ≡ codes "403 HTTP/1.1 403 Forbidden"
unfolding execute_raw_request summary
answered = refl

unreachable :
    classify_difference
      (execute_raw_request two_servers (codes "a") [])
      (execute_raw_request two_servers [] [])
    ≡ codes "infra-gap"
unfolding execute_raw_request classify_difference
unreachable = refl
