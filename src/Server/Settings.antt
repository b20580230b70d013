-- ===== src/Server/Settings.antt =====
-- config/config.go: the settings, from the environment. A variable that is not set is empty. The
-- numbers of float64, ParseFloat and ParseDuration are parameters; log lines are left out.
pub mod Taken
use multi_threaded_web_serve.Go.Strings.{atoi, lower, trim_space}
use multi_threaded_web_serve.Base.{
  ℕ, ◌*◌, Bool, true, false, not, ◌&&◌, ◌||◌, List, [], ◌∷◌, Option, none, some, map, Bytes, codes,
  is_empty, same, contains, ℤ, pos, not_positive, if◌then◌else◌,
}

-- The tests of float64 that the settings use, with a text's number and a text's duration.
pub record Parsing (F : Type 0) : Type 0 where
  pub parse_float : Bytes → Option F
  pub parse_duration : Bytes → Option ℤ
  -- `x < 0` and `x <= 0`; neither holds of NaN.
  pub below_zero : F → Bool
  pub at_most_zero : F → Bool
  pub default_rate_limit_rate : F
  pub default_rate_limit_capacity : F

abbrev pub millisecond : ℕ
millisecond = 1000000

abbrev pub server_address : Bytes
server_address = codes ":8080"

abbrev pub worker_pool_size : ℤ
worker_pool_size = pos 10

abbrev pub job_queue_size : ℤ
job_queue_size = pos 200

abbrev pub default_read_timeout : ℤ
default_read_timeout = pos (5000 * millisecond)

abbrev pub default_write_timeout : ℤ
default_write_timeout = pos (5000 * millisecond)

abbrev pub default_idle_timeout : ℤ
default_idle_timeout = pos (30000 * millisecond)

abbrev pub default_shutdown_timeout : ℤ
default_shutdown_timeout = pos (10000 * millisecond)

abbrev pub default_queue_timeout : ℤ
default_queue_timeout = pos (250 * millisecond)

abbrev pub default_max_keep_alive : ℤ
default_max_keep_alive = pos 100

abbrev pub default_static_dir : Bytes
default_static_dir = codes "public"

pub record Config (F : Type 0) : Type 0 where
  pub server_address : Bytes
  pub worker_pool_size : ℤ
  pub job_queue_size : ℤ
  pub read_timeout : ℤ
  pub write_timeout : ℤ
  pub idle_timeout : ℤ
  pub shutdown_timeout : ℤ
  pub queue_timeout : ℤ
  pub max_keep_alive : ℤ
  pub static_dir : Bytes
  pub tls_cert_file : Bytes
  pub tls_key_file : Bytes
  pub rate_limit_enabled : Bool
  pub rate_limit_rate : F
  pub rate_limit_capacity : F

module _ {F : Type 0} where
  abbrev pub tls_enabled : Config F → Bool
  tls_enabled c = not (is_empty c.tls_cert_file) && not (is_empty c.tls_key_file)

  -- `!=` of two truth values.
  abbrev pub tls_partially_configured : Config F → Bool
  tls_partially_configured c =
      if is_empty c.tls_cert_file then not (is_empty c.tls_key_file) else is_empty c.tls_key_file

-- An answer of a parser that is positive, or the fallback.
abbrev pub positive_or : ℤ → Option ℤ → ℤ
positive_or fallback none = fallback
positive_or fallback (some n) = if not_positive n then fallback else n

module _ (getenv : Bytes → Bytes) where
  unfoldable pub env_string : Bytes → Bytes → Bytes
  unfolding trim_space
  env_string name fallback =
      let value = trim_space (getenv name) in if is_empty value then fallback else value

  -- `strings.ToLower` is taken on ASCII: no other rune has a lower case in these words.
  unfoldable pub env_bool : Bytes → Bool
  unfolding trim_space contains
  env_bool name =
      contains (trim_space (map lower (getenv name)))
        (codes "1" ∷ codes "true" ∷ codes "yes" ∷ codes "on" ∷ [])

  unfoldable pub env_int : Bytes → ℤ → ℤ
  unfolding trim_space atoi
  env_int name fallback =
      let value = trim_space (getenv name) in
      if is_empty value then fallback else positive_or fallback (atoi value)

  unfoldable pub rate_limit_enabled : Bool
  unfolding env_bool
  rate_limit_enabled =
      not (env_bool (codes "MTWS_RATE_LIMIT_DISABLED"))
      && not (env_bool (codes "MTWS_BENCHMARK_MODE"))

  module _ {F : Type 0} (p : Parsing F) where
    unfoldable pub env_duration : Bytes → ℤ → ℤ
    unfolding trim_space
    env_duration name fallback =
        let value = trim_space (getenv name) in
        if is_empty value then fallback else positive_or fallback (p.parse_duration value)

    abbrev pub not_below : F → Option F → F
    not_below fallback none = fallback
    not_below fallback (some x) = if p.below_zero x then fallback else x

    unfoldable pub env_float : Bytes → F → F
    unfolding trim_space
    env_float name fallback =
        let value = trim_space (getenv name) in
        if is_empty value then fallback else not_below fallback (p.parse_float value)

    unfoldable pub env_positive_float : Bytes → F → F
    unfolding env_float
    env_positive_float name fallback =
        let parsed = env_float name fallback in if p.at_most_zero parsed then fallback else parsed

    unfoldable pub rate_limit_rate : F
    unfolding env_positive_float
    rate_limit_rate = env_positive_float (codes "MTWS_RATE_LIMIT_RATE") p.default_rate_limit_rate

    unfoldable pub rate_limit_capacity : F
    unfolding env_positive_float
    rate_limit_capacity =
        env_positive_float (codes "MTWS_RATE_LIMIT_CAPACITY") p.default_rate_limit_capacity

    unfoldable pub load : Config F
    unfolding env_string env_int env_duration rate_limit_rate rate_limit_capacity rate_limit_enabled
        trim_space
    load = record {
      server_address = env_string (codes "MTWS_ADDR") server_address;
      worker_pool_size = env_int (codes "MTWS_WORKERS") worker_pool_size;
      job_queue_size = env_int (codes "MTWS_JOB_QUEUE_SIZE") job_queue_size;
      read_timeout = env_duration (codes "MTWS_READ_TIMEOUT") default_read_timeout;
      write_timeout = env_duration (codes "MTWS_WRITE_TIMEOUT") default_write_timeout;
      idle_timeout = env_duration (codes "MTWS_IDLE_TIMEOUT") default_idle_timeout;
      shutdown_timeout = env_duration (codes "MTWS_SHUTDOWN_TIMEOUT") default_shutdown_timeout;
      queue_timeout = env_duration (codes "MTWS_QUEUE_TIMEOUT") default_queue_timeout;
      max_keep_alive = env_int (codes "MTWS_MAX_KEEPALIVE_REQUESTS") default_max_keep_alive;
      static_dir = env_string (codes "MTWS_STATIC_DIR") default_static_dir;
      tls_cert_file = trim_space (getenv (codes "MTWS_TLS_CERT_FILE"));
      tls_key_file = trim_space (getenv (codes "MTWS_TLS_KEY_FILE"));
      rate_limit_enabled = rate_limit_enabled;
      rate_limit_rate = rate_limit_rate;
      rate_limit_capacity = rate_limit_capacity;
    }
