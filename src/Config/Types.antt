-- ===== src/Config/Types.antt =====
-- The configuration's types (internal/config/config.go). Every `int`, `int64` and
-- `time.Duration`, the last in nanoseconds, is a ℤ.
use chronometrics.Common.{Text}
use chronometrics.Common.Int.{ℤ}

pub record ServerConfig : Type 0 where
  pub port : ℤ
  pub read_timeout : ℤ
  pub write_timeout : ℤ
  pub idle_timeout : ℤ
  pub body_limit : ℤ
  pub shutdown_timeout : ℤ

pub record BufferConfig : Type 0 where
  pub capacity : ℤ
  pub flush_interval : ℤ  -- milliseconds
  pub flush_batch_size : ℤ
  pub flush_retries : ℤ
  pub flush_timeout_ms : ℤ
  pub flush_interval_duration : ℤ
  pub flush_timeout : ℤ

pub record ClickHouseConfig : Type 0 where
  pub dsn : Text
  pub addr : Text
  pub database : Text
  pub username : Text
  pub password : Text
  pub query_timeout : ℤ
  pub max_open_conns : ℤ
  pub max_idle_conns : ℤ
  pub conn_max_lifetime : ℤ
  pub max_retries : ℤ
  pub retry_base_delay : ℤ
  pub retry_max_delay : ℤ

pub record ValidationConfig : Type 0 where
  pub max_future_duration : ℤ
  pub max_past_duration : ℤ
  pub max_future_seconds : ℤ
  pub max_past_seconds : ℤ

pub record Config : Type 0 where
  pub buffer_strategy : Text
  pub server : ServerConfig
  pub buffer : BufferConfig
  pub click_house : ClickHouseConfig
  pub validation : ValidationConfig
