-- ===== src/Core/Metrics.antt =====
-- core/metrics.go: the counters, each of 64 bits. A method on a nil pointer does nothing: the
-- pointer is an `Option`.
pub mod Counting
pub mod Racing
pub mod Text
use multi_threaded_web_serve.Base.{
  ℕ, suc, ◌+◌, ◌-◌, ◌/◌, ◌%◌, ◌^◌, Bool, true, false, ◌&&◌, Option, none, some, ltb, leb,
  if◌then◌else◌, ℤ, pos, negsuc,
}

pub record Metrics : Type 0 where
  pub accepted_connections : ℕ
  pub active_connections : ℕ
  pub total_requests : ℕ
  pub total_request_duration : ℕ
  pub max_request_duration : ℕ
  pub waf_blocks : ℕ
  pub parse_rejects : ℕ
  pub queue_rejects : ℕ
  pub rate_limited : ℕ
  pub responses_2xx : ℕ
  pub responses_3xx : ℕ
  pub responses_4xx : ℕ
  pub responses_5xx : ℕ

abbrev pub new_metrics : Metrics
new_metrics = record {
  accepted_connections = 0;
  active_connections = 0;
  total_requests = 0;
  total_request_duration = 0;
  max_request_duration = 0;
  waf_blocks = 0;
  parse_rejects = 0;
  queue_rejects = 0;
  rate_limited = 0;
  responses_2xx = 0;
  responses_3xx = 0;
  responses_4xx = 0;
  responses_5xx = 0;
}

-- `Add` of an atomic.Uint64.
abbrev pub add64 : ℕ → ℕ → ℕ
add64 a b = (a + b) % 2 ^ 64

-- `^uint64(0)`.
abbrev pub minus_one : ℕ
minus_one = 2 ^ 64 - 1

unfoldable pub inc_accepted_connection : Metrics → Metrics
inc_accepted_connection m = record m { accepted_connections = add64 m.accepted_connections 1 }

unfoldable pub inc_active_connection : Metrics → Metrics
inc_active_connection m = record m { active_connections = add64 m.active_connections 1 }

unfoldable pub dec_active_connection : Metrics → Metrics
dec_active_connection m = record m { active_connections = add64 m.active_connections minus_one }

unfoldable pub inc_request : Metrics → Metrics
inc_request m = record m { total_requests = add64 m.total_requests 1 }

unfoldable pub inc_waf_block : Metrics → Metrics
inc_waf_block m = record m { waf_blocks = add64 m.waf_blocks 1 }

unfoldable pub inc_parse_reject : Metrics → Metrics
inc_parse_reject m = record m { parse_rejects = add64 m.parse_rejects 1 }

unfoldable pub inc_queue_reject : Metrics → Metrics
inc_queue_reject m = record m { queue_rejects = add64 m.queue_rejects 1 }

unfoldable pub inc_rate_limited : Metrics → Metrics
inc_rate_limited m = record m { rate_limited = add64 m.rate_limited 1 }

-- On a duration in nanoseconds. The loop of `CompareAndSwap` is one step here, as where no other
-- goroutine writes the maximum meanwhile.
unfoldable pub record_request_duration : ℤ → Metrics → Metrics
record_request_duration (negsuc n) m = m
record_request_duration (pos ns) m =
    let micros = ns / 1000 in
    let current = m.max_request_duration in
    record m {
      total_request_duration = add64 m.total_request_duration micros;
      max_request_duration = if leb micros current then current else micros;
    }

unfoldable pub record_response : ℕ → Metrics → Metrics
record_response status m =
    if leb 200 status && ltb status 300
    then record m { responses_2xx = add64 m.responses_2xx 1 }
    else if leb 300 status && ltb status 400
    then record m { responses_3xx = add64 m.responses_3xx 1 }
    else if leb 400 status && ltb status 500
    then record m { responses_4xx = add64 m.responses_4xx 1 }
    else if leb 500 status
    then record m { responses_5xx = add64 m.responses_5xx 1 }
    else m

-- A method on a pointer that may be nil.
abbrev pub on_metrics : (Metrics → Metrics) → Option Metrics → Option Metrics
on_metrics f none = none
on_metrics f (some m) = some (f m)
