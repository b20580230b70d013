-- ===== src/Tests/EdgeExamples.antt =====
-- The theorems on settings, admission, routes and static files, at concrete inputs.
use multi_threaded_web_serve.Core.Metrics.{new_metrics}
use multi_threaded_web_serve.Core.Metrics.Racing.{IsDone, loads, maximum, race, race-maximum}
use multi_threaded_web_serve.Core.Response.{decimal}
use multi_threaded_web_serve.Core.Response.Lengths.{announced_length-decimal}
use multi_threaded_web_serve.Core.Router.{serve_http, not_found}
use multi_threaded_web_serve.Go.FilePath.{join_path, names_of, parent_name, render}
use multi_threaded_web_serve.Http.Parser.{Request, announced_length}
use multi_threaded_web_serve.Server.Admission.{
  Accepted, Front, arrived, cancelled, failed, sent, serve_all, shut, timed_out,
}
use multi_threaded_web_serve.Server.Admission.Accounted.{Tally, serve_all-Tally}
use multi_threaded_web_serve.Server.Limiter.{Floats, new_with_ttl}
use multi_threaded_web_serve.Server.Limiter.Bounded.{
  IsBounded, Ordered, allow_all, new_with_ttl-IsBounded,
}
use multi_threaded_web_serve.Server.Limiter.Burst.{
  Levels, calls_of, granted, granted-burst, lesser, level,
}
use multi_threaded_web_serve.Server.Routes.{Views, build_router, log_limit}
use multi_threaded_web_serve.Server.Routes.Guarded.{Guards, build_router-Guards}
use multi_threaded_web_serve.Server.Routes.Limits.{IsLimit, log_limit-IsLimit}
use multi_threaded_web_serve.Server.Settings.{Config, Parsing, load}
use multi_threaded_web_serve.Server.Settings.Taken.{IsTaken, load-IsTaken}
use multi_threaded_web_serve.Server.Static.{
  FileSystem, file, is_safe_static_path, other_error, static_answer,
}
use multi_threaded_web_serve.Server.Static.Paths.{join_path-safe}
use multi_threaded_web_serve.Server.Static.Confined.{IsServed, static_answer-IsServed}
use multi_threaded_web_serve.Tests.{counting, fresh, reader, request}
use multi_threaded_web_serve.Base.{
  All, map, ℕ, zero, suc, ◌+◌, ◌-◌, ◌*◌, ◌/◌, ◌≡◌, ◌⊎◌, refl, arith, false, List, [], ◌∷◌, ◌++◌,
  contains, true, none, some, Bytes, codes, if◌then◌else◌, leb, length, ltb, ok, err, same, pos,
  magnitude,
}

-- Whole tokens, with whole seconds.
abbrev pub whole_tokens : Floats ℕ
whole_tokens = record {
  one = 1;
  plus = λ x y. x + y;
  minus = λ x y. x - y;
  times = λ x y. x * y;
  less = ltb;
  seconds = λ d. magnitude d / 1000000000;
}

whole_tokens-Ordered : Ordered whole_tokens
whole_tokens-Ordered = record { irreflexive = λ x. ground arith; one_less = λ c x h. ground arith }

-- From 2 tokens.
level_whole : (k : ℕ) → level whole_tokens 2 k ≡ 2 - k
level_whole zero = omega arith
level_whole (suc k) = omega (arith, level_whole k)

whole_tokens-Levels : Levels whole_tokens 5 2 2
whole_tokens-Levels = record {
  some_burst = omega arith;
  holds_one = λ k h l. ground (arith, level_whole k, h, l);
  used_up = refl;
  not_above = λ k h l. ground (arith, level_whole k);
  no_time = λ k h l. omega arith;
}

new_with_ttl-IsBounded_example : IsBounded whole_tokens whole_tokens-Ordered (
    allow_all whole_tokens whole_tokens-Ordered
      ((codes "a", 0) ∷ (codes "a", 1) ∷ (codes "b", 2000000000) ∷ (codes "a", 9000000000) ∷ [])
      (new_with_ttl 5 2 (pos 0) 0))
new_with_ttl-IsBounded_example =
    new_with_ttl-IsBounded whole_tokens whole_tokens-Ordered 5 2 (pos 0) 0
      ((codes "a", 0) ∷ (codes "a", 1) ∷ (codes "b", 2000000000) ∷ (codes "a", 9000000000) ∷ [])

abbrev callers : List Bytes
callers = codes "a" ∷ codes "b" ∷ codes "a" ∷ codes "a" ∷ codes "a" ∷ []

granted-burst_example :
    granted whole_tokens (codes "a") 7 callers (new_with_ttl 5 2 (pos 0) 3)
    ≡ lesser (calls_of (codes "a") callers) 2
granted-burst_example =
    granted-burst whole_tokens 5 2 2 whole_tokens-Levels 7 (pos 0) 3 (codes "a") callers

abbrev parsing : Parsing ℕ
parsing = record {
  parse_float = λ s. none;
  parse_duration = λ s. none;
  below_zero = λ x. false;
  at_most_zero = λ x. leb x 0;
  default_rate_limit_rate = 5;
  default_rate_limit_capacity = 10;
}

abbrev environment : Bytes → Bytes
environment name = if same name (codes "MTWS_WORKERS") then codes " 12 " else codes ""

abbrev pub config : Config ℕ
unfolding load
config = load environment parsing

abbrev front : Front ℕ ℕ
unfolding new_with_ttl
front = record { jobs = []; limiter = new_with_ttl 5 2 (pos 0) 0; metrics = new_metrics }

abbrev pub arrivals : List (Accepted ℕ)
arrivals =
    arrived (record { conn = 1; client_ip = codes "a"; now = 1; selected = sent })
    ∷ failed
    ∷ arrived (record { conn = 2; client_ip = codes "a"; now = 1; selected = timed_out })
    ∷ arrived (record { conn = 3; client_ip = codes "a"; now = 1; selected = sent })
    ∷ arrived (record { conn = 4; client_ip = codes "b"; now = 1; selected = cancelled })
    ∷ shut
    ∷ []

load-IsTaken_example :
    let cfg = load environment parsing in
    All
      (IsTaken counting none (λ sent. pos 7) (reader (codes "x" ∷ [])) new_metrics cfg)
      (serve_all counting whole_tokens (λ c. c) none cfg arrivals front).0.jobs
unfolding front
load-IsTaken_example =
    load-IsTaken counting whole_tokens (λ c. c) none environment parsing none (λ sent. pos 7)
      (reader (codes "x" ∷ [])) new_metrics arrivals front.limiter new_metrics

serve_all-Tally_example :
    let r = serve_all counting whole_tokens (λ c. c) none config arrivals front in
    Tally new_metrics r.0.metrics 0 (length r.0.jobs) (length r.1) r.1
unfolding front
serve_all-Tally_example =
    serve_all-Tally counting whole_tokens (λ c. c) none config arrivals front
      (omega arith, omega arith, omega arith)

log_limit-IsLimit_example : IsLimit (pos 60) (log_limit (codes "/api/logs?limit=500") (pos 60))
log_limit-IsLimit_example = log_limit-IsLimit (codes "/api/logs?limit=500") (pos 60)

-- One file, in one directory, without symbolic links.
abbrev pub files : FileSystem
files = record {
  getwd = ok (codes "/");
  eval_symlinks = λ path. ok path;
  is_dir = λ path. ok (same path (codes "/srv"));
  read_file = λ path. if same path (codes "/srv/a.txt") then ok (codes "text") else err other_error;
  type_by_extension = λ ext. if same ext (codes ".txt") then codes "text/plain" else [];
}

text_file :
    static_answer files (ok (codes "/srv")) (codes "/static/a.txt?x")
    ≡ file (codes "text/plain") (codes "text")
unfolding static_answer
text_file = refl

static_answer-IsServed_example : IsServed files (codes "/srv") (codes "text")
static_answer-IsServed_example =
    static_answer-IsServed files (codes "/srv") (codes "/static/a.txt?x") (codes "text/plain")
      (codes "text") refl text_file

is_safe : is_safe_static_path (codes "a/../b") ≡ true
unfolding is_safe_static_path
is_safe = refl

join_path-safe_example :
    (join_path (codes "/srv") (codes "a/../b")
      ≡ render true (names_of (codes "/srv") ++ names_of (codes "a/../b")))
    × (contains parent_name (names_of (codes "a/../b")) ≡ false)
join_path-safe_example = join_path-safe (codes "/srv") (codes "a/../b") refl is_safe

abbrev pub views : Views ℕ ℕ
views = record {
  monitor_json = λ c m. none;
  logs_json = λ entries. some (codes "[]");
  logs = λ c. record { max = 200; entries = [] };
  milliseconds = record {
    zero_ms = 0;
    of_micros = λ n. n / 1000;
    divided = λ x n. x / n;
    fixed = λ x. codes "0.000";
  };
}

abbrev delete_request : Request
delete_request = record request { method = codes "DELETE" }

build_router-Guards_example :
    Guards counting delete_request fresh
      (serve_http counting (build_router counting files views (codes "srv")))
    ⊎ (serve_http counting (build_router counting files views (codes "srv")) delete_request fresh
        ≡ not_found counting fresh)
build_router-Guards_example =
    build_router-Guards counting files views (codes "srv") delete_request fresh refl refl

announced_length-decimal_example :
    announced_length (some (decimal 1024)) (reader (codes "x" ∷ []))
    ≡ ok (1024, reader (codes "x" ∷ []))
announced_length-decimal_example =
    announced_length-decimal 1024 (reader (codes "x" ∷ [])) (omega arith)

-- The second goroutine loads 6, loses its swap to the third, and tries again.
abbrev schedule : List ℕ
schedule = 0 ∷ 1 ∷ 2 ∷ 2 ∷ 1 ∷ 1 ∷ 1 ∷ []

abbrev durations : List ℕ
durations = 5 ∷ 9 ∷ 7 ∷ []

schedule_ends : All IsDone (race schedule 6 (map loads durations)).1
unfolding race
schedule_ends = (tt, (tt, (tt, tt)))

race-maximum_example : (race schedule 6 (map loads durations)).0 ≡ maximum 6 durations
race-maximum_example = race-maximum schedule 6 durations schedule_ends
