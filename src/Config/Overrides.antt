-- ===== src/Config/Overrides.antt =====
-- The defaults of `Load` and what the environment overrides (internal/config/config.go).
-- `time.ParseDuration` is a parameter; `strconv.Atoi` is `parse_int`, since an `int` has 64 bits.
use chronometrics.Common.{zero, Option, none, some, [], ◌∷◌, Text, txt}
use chronometrics.Common.Int.{ℤ, pos, div_ℤ, scale}
use chronometrics.Common.Numerals.{parse_int}
use chronometrics.Config.Types.{
  ServerConfig, BufferConfig, ClickHouseConfig, ValidationConfig, Config,
}
use chronometrics.Config.Environment.{Environment, lookup_env, env_any, or_text}

unfoldable pub defaults : Config
defaults = record {
  buffer_strategy = txt "memory";
  server = record {
    port = pos 8080;
    read_timeout = pos 5000000000;
    write_timeout = pos 10000000000;
    idle_timeout = pos 60000000000;
    body_limit = pos 1048576;
    shutdown_timeout = pos 10000000000;
  };
  buffer = record {
    capacity = pos 1000;
    flush_interval = pos 100;
    flush_batch_size = pos 1000;
    flush_retries = pos 3;
    flush_timeout_ms = pos 10000;
    flush_interval_duration = pos 100000000;
    flush_timeout = pos 10000000000;
  };
  click_house = record {
    dsn = [];
    addr = txt "localhost:9000";
    database = txt "default";
    username = txt "default";
    password = [];
    query_timeout = pos 30000000000;
    max_open_conns = pos 10;
    max_idle_conns = pos 5;
    conn_max_lifetime = pos 3600000000000;
    max_retries = pos 3;
    retry_base_delay = pos 500000000;
    retry_max_delay = pos 10000000000;
  };
  validation = record {
    max_future_duration = pos 86400000000000;
    max_past_duration = pos 31536000000000000;
    max_future_seconds = pos 86400;
    max_past_seconds = pos 31536000;
  };
}

abbrev pub number_or : Option ℤ → ℤ → ℤ
number_or none d = d
number_or (some n) d = n

-- An assignment under `if v, ok := envAny(key); ok` and `if n, err := ...; err == nil`: the field
-- keeps its value where the variable is empty or no number.
abbrev pub int_or : Text → ℤ → ℤ
int_or [] d = d
int_or (b ∷ s) d = number_or (parse_int (b ∷ s)) d

abbrev pub variable : Text → Environment → Text
variable key env = env_any (key ∷ []) env

abbrev zero_or : ℤ → ℤ → ℤ
zero_or d (pos zero) = d
zero_or d n = n

module _ (parse_duration : Text → Option ℤ) (env : Environment) where
  abbrev pub duration_or : Text → ℤ → ℤ
  duration_or [] d = d
  duration_or (b ∷ s) d = number_or (parse_duration (b ∷ s)) d

  unfoldable pub override_strategy : Text → Text
  override_strategy strategy =
      let strategy = or_text (variable (txt "CHRONOMETRICS_BUFFER_STRATEGY") env) strategy in
      or_text (lookup_env (txt "BUFFER_STRATEGY") env) strategy

  unfoldable pub override_server : ServerConfig → ServerConfig
  override_server s =
      let port = int_or (variable (txt "CHRONOMETRICS_SERVER_PORT") env) s.port in
      record s {
        port = int_or (lookup_env (txt "SERVER_PORT") env) port;
        read_timeout =
            duration_or (variable (txt "CHRONOMETRICS_SERVER_READ_TIMEOUT") env) s.read_timeout;
        write_timeout =
            duration_or (variable (txt "CHRONOMETRICS_SERVER_WRITE_TIMEOUT") env) s.write_timeout;
        idle_timeout =
            duration_or (variable (txt "CHRONOMETRICS_SERVER_IDLE_TIMEOUT") env) s.idle_timeout;
        body_limit = int_or (variable (txt "CHRONOMETRICS_SERVER_BODY_LIMIT") env) s.body_limit;
        shutdown_timeout =
            duration_or (variable (txt "CHRONOMETRICS_SERVER_SHUTDOWN_TIMEOUT") env)
              s.shutdown_timeout;
      }

  -- A duration ("100ms") and its milliseconds, or else a number of milliseconds ("100") and its
  -- duration, or else the values before.
  abbrev millis_or : Option ℤ → Option ℤ → ℤ × ℤ → ℤ × ℤ
  millis_or (some d) n before = (d, div_ℤ d 1000000)
  millis_or none (some n) before = (scale n 1000000, n)
  millis_or none none before = before

  abbrev pub interval_or : Text → ℤ × ℤ → ℤ × ℤ
  interval_or [] before = before
  interval_or (b ∷ s) before = millis_or (parse_duration (b ∷ s)) (parse_int (b ∷ s)) before

  unfoldable pub override_buffer : BufferConfig → BufferConfig
  override_buffer b =
      let capacity = int_or (variable (txt "CHRONOMETRICS_BUFFER_CAPACITY") env) b.capacity in
      let (interval, interval_ms) =
        interval_or (variable (txt "CHRONOMETRICS_BUFFER_FLUSH_INTERVAL") env)
          (b.flush_interval_duration, b.flush_interval) in
      let (timeout, timeout_ms) =
        interval_or (variable (txt "CHRONOMETRICS_BUFFER_FLUSH_TIMEOUT") env)
          (b.flush_timeout, b.flush_timeout_ms) in
      record {
        capacity = int_or (lookup_env (txt "BUFFER_CAPACITY") env) capacity;
        flush_interval = interval_ms;
        flush_batch_size =
            int_or (variable (txt "CHRONOMETRICS_BUFFER_FLUSH_BATCH_SIZE") env) b.flush_batch_size;
        flush_retries =
            int_or (variable (txt "CHRONOMETRICS_BUFFER_FLUSH_RETRIES") env) b.flush_retries;
        flush_timeout_ms = timeout_ms;
        flush_interval_duration = interval;
        flush_timeout = timeout;
      }

  unfoldable pub override_click_house : ClickHouseConfig → ClickHouseConfig
  override_click_house c = record c {
    addr = or_text (variable (txt "CHRONOMETRICS_CLICKHOUSE_ADDR") env) c.addr;
    database = or_text (variable (txt "CHRONOMETRICS_CLICKHOUSE_DATABASE") env) c.database;
    username = or_text (variable (txt "CHRONOMETRICS_CLICKHOUSE_USERNAME") env) c.username;
    password = or_text (variable (txt "CHRONOMETRICS_CLICKHOUSE_PASSWORD") env) c.password;
    query_timeout =
        duration_or (variable (txt "CHRONOMETRICS_CLICKHOUSE_QUERY_TIMEOUT") env) c.query_timeout;
    max_open_conns =
        int_or (variable (txt "CHRONOMETRICS_CLICKHOUSE_MAX_OPEN_CONNS") env) c.max_open_conns;
    max_idle_conns =
        int_or (variable (txt "CHRONOMETRICS_CLICKHOUSE_MAX_IDLE_CONNS") env) c.max_idle_conns;
    conn_max_lifetime =
        duration_or (variable (txt "CHRONOMETRICS_CLICKHOUSE_CONN_MAX_LIFETIME") env)
          c.conn_max_lifetime;
    max_retries = int_or (variable (txt "CHRONOMETRICS_CLICKHOUSE_MAX_RETRIES") env) c.max_retries;
    retry_base_delay =
        duration_or (variable (txt "CHRONOMETRICS_CLICKHOUSE_RETRY_BASE_DELAY") env)
          c.retry_base_delay;
    retry_max_delay =
        duration_or (variable (txt "CHRONOMETRICS_CLICKHOUSE_RETRY_MAX_DELAY") env)
          c.retry_max_delay;
  }

  -- A window and its seconds.
  abbrev window_of : Option ℤ → ℤ × ℤ → ℤ × ℤ
  window_of none before = before
  window_of (some d) before = (d, div_ℤ d 1000000000)

  abbrev window_or : Text → ℤ × ℤ → ℤ × ℤ
  window_or [] before = before
  window_or (b ∷ s) before = window_of (parse_duration (b ∷ s)) before

  -- The seconds are filled in where they are 0.
  unfoldable pub override_validation : ValidationConfig → ValidationConfig
  override_validation v =
      let (future, future_s) =
        window_or (variable (txt "CHRONOMETRICS_VALIDATION_MAX_FUTURE") env)
          (v.max_future_duration, v.max_future_seconds) in
      let (past, past_s) =
        window_or (variable (txt "CHRONOMETRICS_VALIDATION_MAX_PAST") env)
          (v.max_past_duration, v.max_past_seconds) in
      record {
        max_future_duration = future;
        max_past_duration = past;
        max_future_seconds = zero_or (div_ℤ future 1000000000) future_s;
        max_past_seconds = zero_or (div_ℤ past 1000000000) past_s;
      }

  unfoldable pub overridden : Config → Config
  unfolding override_strategy override_server override_buffer override_click_house
      override_validation
  overridden cfg = record {
    buffer_strategy = override_strategy cfg.buffer_strategy;
    server = override_server cfg.server;
    buffer = override_buffer cfg.buffer;
    click_house = override_click_house cfg.click_house;
    validation = override_validation cfg.validation;
  }
