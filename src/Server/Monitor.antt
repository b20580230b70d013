-- ===== src/Server/Monitor.antt =====
-- cmd/server/main.go: what the monitor shows. The moment, the uptime and the figures of Go's runtime
-- are values of any type; the quotients of float64 are a parameter.
use multi_threaded_web_serve.Core.Metrics.{Metrics}
use multi_threaded_web_serve.Core.Metrics.Text.{MetricsSnapshot, Milliseconds, snapshot}
use multi_threaded_web_serve.Server.Settings.{
  Config, Parsing, default_idle_timeout, default_max_keep_alive, default_queue_timeout,
  default_read_timeout, default_shutdown_timeout, default_static_dir, default_write_timeout,
  job_queue_size, server_address, tls_enabled, worker_pool_size,
}
use multi_threaded_web_serve.Base.{
  ℕ, zero, suc, ◌/◌, Bool, true, [], Option, none, some, Bytes, ℤ, pos, negsuc, if◌then◌else◌, ◌==◌,
}

-- `d.Milliseconds()` of nanoseconds.
unfoldable pub milliseconds : ℤ → ℤ
milliseconds (pos n) = pos (n / 1000000)
milliseconds (negsuc n) = elim (suc n / 1000000) [ zero ↦ pos 0 | suc k ↦ negsuc k ]

pub record ServerView (F : Type 0) : Type 0 where
  pub address : Bytes
  pub static_dir : Bytes
  pub tls_enabled : Bool
  pub rate_limit_enabled : Bool
  pub rate_limit_rate : F
  pub rate_limit_capacity : F
  pub worker_pool_size : ℤ
  pub queue_capacity : ℕ
  pub queue_depth : ℕ
  pub queue_utilization : F
  pub read_timeout_ms : ℤ
  pub write_timeout_ms : ℤ
  pub idle_timeout_ms : ℤ
  pub queue_timeout_ms : ℤ
  pub shutdown_timeout_ms : ℤ

pub record MonitorPayload (F P : Type 0) : Type 0 where
  pub process : P
  pub server : ServerView F
  pub metrics : MetricsSnapshot F

unfoldable pub default_monitor_config : {F : Type 0} → Parsing F → Config F
default_monitor_config p = record {
  server_address = server_address;
  worker_pool_size = worker_pool_size;
  job_queue_size = job_queue_size;
  read_timeout = default_read_timeout;
  write_timeout = default_write_timeout;
  idle_timeout = default_idle_timeout;
  shutdown_timeout = default_shutdown_timeout;
  queue_timeout = default_queue_timeout;
  max_keep_alive = default_max_keep_alive;
  static_dir = default_static_dir;
  tls_cert_file = [];
  tls_key_file = [];
  rate_limit_enabled = true;
  rate_limit_rate = p.default_rate_limit_rate;
  rate_limit_capacity = p.default_rate_limit_capacity;
}

module _ {F : Type 0} (ms : Milliseconds F) (none_used : F) (over : ℕ → ℕ → F) where
  unfoldable pub queue_utilization : ℕ → ℕ → F
  queue_utilization depth capacity = if capacity == 0 then none_used else over depth capacity

  -- The queue is `none` for a nil channel, else its depth and its capacity.
  unfoldable pub build_monitor_payload :
      {P : Type 0} → P → Config F → Metrics → Option (ℕ × ℕ) → MonitorPayload F P
  unfolding snapshot milliseconds queue_utilization
  build_monitor_payload process cfg metrics queue =
      let (depth, capacity) = elim queue as (λ q. ℕ × ℕ) [ none ↦ (0, 0) | some q ↦ q ] in
      record {
        process = process;
        server = record {
          address = cfg.server_address;
          static_dir = cfg.static_dir;
          tls_enabled = tls_enabled cfg;
          rate_limit_enabled = cfg.rate_limit_enabled;
          rate_limit_rate = cfg.rate_limit_rate;
          rate_limit_capacity = cfg.rate_limit_capacity;
          worker_pool_size = cfg.worker_pool_size;
          queue_capacity = capacity;
          queue_depth = depth;
          queue_utilization = queue_utilization depth capacity;
          read_timeout_ms = milliseconds cfg.read_timeout;
          write_timeout_ms = milliseconds cfg.write_timeout;
          idle_timeout_ms = milliseconds cfg.idle_timeout;
          queue_timeout_ms = milliseconds cfg.queue_timeout;
          shutdown_timeout_ms = milliseconds cfg.shutdown_timeout;
        };
        metrics = snapshot ms (some metrics);
      }
