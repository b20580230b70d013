-- ===== src/Core/Metrics/Text.antt =====
-- core/metrics.go: a snapshot of the counters, and its text for Prometheus. The numbers of float64 and
-- their text are a parameter.
use multi_threaded_web_serve.Core.Metrics.{Metrics}
use multi_threaded_web_serve.Core.Response.{decimal}
use multi_threaded_web_serve.Base.{
  ℕ, ◌||◌, ◌++◌, Option, none, some, ◌==◌, if◌then◌else◌, Bytes, codes,
}

pub record Milliseconds (F : Type 0) : Type 0 where
  pub zero_ms : F
  -- `float64(micros) / 1000`
  pub of_micros : ℕ → F
  -- `ms / float64(n)`
  pub divided : F → ℕ → F
  -- `%.3f`
  pub fixed : F → Bytes

pub record MetricsSnapshot (F : Type 0) : Type 0 where
  pub accepted_connections : ℕ
  pub active_connections : ℕ
  pub total_requests : ℕ
  pub average_request_duration_ms : F
  pub max_request_duration_ms : F
  pub waf_blocks : ℕ
  pub parse_rejects : ℕ
  pub queue_rejects : ℕ
  pub rate_limited : ℕ
  pub responses_2xx : ℕ
  pub responses_3xx : ℕ
  pub responses_4xx : ℕ
  pub responses_5xx : ℕ

module _ {F : Type 0} (ms : Milliseconds F) where
  unfoldable pub average_duration_ms : ℕ → ℕ → F
  average_duration_ms total_micros total_requests =
      if total_micros == 0 || total_requests == 0
      then ms.zero_ms
      else ms.divided (ms.of_micros total_micros) total_requests

  unfoldable pub snapshot : Option Metrics → MetricsSnapshot F
  unfolding average_duration_ms
  snapshot none = record {
    accepted_connections = 0;
    active_connections = 0;
    total_requests = 0;
    average_request_duration_ms = ms.zero_ms;
    max_request_duration_ms = ms.zero_ms;
    waf_blocks = 0;
    parse_rejects = 0;
    queue_rejects = 0;
    rate_limited = 0;
    responses_2xx = 0;
    responses_3xx = 0;
    responses_4xx = 0;
    responses_5xx = 0;
  }
  snapshot (some m) = record {
    accepted_connections = m.accepted_connections;
    active_connections = m.active_connections;
    total_requests = m.total_requests;
    average_request_duration_ms = average_duration_ms m.total_request_duration m.total_requests;
    max_request_duration_ms = ms.of_micros m.max_request_duration;
    waf_blocks = m.waf_blocks;
    parse_rejects = m.parse_rejects;
    queue_rejects = m.queue_rejects;
    rate_limited = m.rate_limited;
    responses_2xx = m.responses_2xx;
    responses_3xx = m.responses_3xx;
    responses_4xx = m.responses_4xx;
    responses_5xx = m.responses_5xx;
  }

  abbrev lines : Bytes → Bytes → Bytes → Bytes → Bytes
  lines type name help value =
      codes "# HELP "
      ++ name
      ++ codes " "
      ++ help
      ++ codes "\n# TYPE "
      ++ name
      ++ codes " "
      ++ type
      ++ codes "\n"
      ++ name
      ++ codes " "
      ++ value
      ++ codes "\n"

  unfoldable pub write_metric : Bytes → Bytes → ℕ → Bytes
  unfolding decimal
  write_metric name help value = lines (codes "counter") name help (decimal value)

  unfoldable pub write_gauge_uint64 : Bytes → Bytes → ℕ → Bytes
  unfolding decimal
  write_gauge_uint64 name help value = lines (codes "gauge") name help (decimal value)

  unfoldable pub write_gauge_float : Bytes → Bytes → F → Bytes
  write_gauge_float name help value = lines (codes "gauge") name help (ms.fixed value)

  unfoldable pub prometheus : Option Metrics → Bytes
  unfolding snapshot write_metric write_gauge_uint64 write_gauge_float
  prometheus m =
      let s = snapshot m in
      write_metric (codes "mtws_connections_accepted_total")
        (codes "Total TCP connections accepted.") s.accepted_connections
      ++ write_gauge_uint64 (codes "mtws_connections_active")
          (codes "Currently active TCP connections.") s.active_connections
      ++ write_metric (codes "mtws_requests_total") (codes "Total parsed HTTP requests.")
          s.total_requests
      ++ write_gauge_float (codes "mtws_request_duration_average_ms")
          (codes "Average request duration in milliseconds.") s.average_request_duration_ms
      ++ write_gauge_float (codes "mtws_request_duration_max_ms")
          (codes "Maximum request duration in milliseconds.") s.max_request_duration_ms
      ++ write_metric (codes "mtws_waf_blocks_total")
          (codes "Total requests blocked by in-parser WAF rules.") s.waf_blocks
      ++ write_metric (codes "mtws_parse_rejects_total")
          (codes "Total malformed requests rejected by the strict parser.") s.parse_rejects
      ++ write_metric (codes "mtws_queue_rejects_total")
          (codes "Total connections rejected because the worker queue was saturated.")
          s.queue_rejects
      ++ write_metric (codes "mtws_rate_limited_total")
          (codes "Total connections rejected by the token-bucket rate limiter.") s.rate_limited
      ++ write_metric (codes "mtws_responses_2xx_total") (codes "Total 2xx responses.")
          s.responses_2xx
      ++ write_metric (codes "mtws_responses_3xx_total") (codes "Total 3xx responses.")
          s.responses_3xx
      ++ write_metric (codes "mtws_responses_4xx_total") (codes "Total 4xx responses.")
          s.responses_4xx
      ++ write_metric (codes "mtws_responses_5xx_total") (codes "Total 5xx responses.")
          s.responses_5xx
