-- ===== src/App/Infrastructure.antt =====
-- internal/app/infrastructure.go, compose.go and health.go: what `Build` puts together.
use chronometrics.Common.{
  suc, true, ◌||◌, Option, List, [], ◌∷◌, ◌++◌, if◌then◌else◌, Text, txt, text_eq,
}
use chronometrics.Common.Int.{ℤ, pos, negsuc}
use chronometrics.Common.Numerals.{decimal}
use chronometrics.Errors.{Error, other}
use chronometrics.Domain.Json.{Result, ok, err}
use chronometrics.Config.Types.{ClickHouseConfig}
use chronometrics.Config.Types
use chronometrics.Buffer.{Buffer, new, start}
use chronometrics.Ingest.{UseCase}
use chronometrics.Handler.Http.{HealthStatus}
use chronometrics.Handler.Http
use chronometrics.Handler.Limiter.{LimiterRegistry, new_limiter_registry}
use chronometrics.Repository
use chronometrics.Repository.Health.{repository_health}

-- The configuration that `connectRepository` passes on.
unfoldable pub repository_config : ClickHouseConfig → Repository.Config
repository_config c = record {
  query_timeout = c.query_timeout;
  max_open_conns = c.max_open_conns;
  max_idle_conns = c.max_idle_conns;
  conn_max_lifetime = c.conn_max_lifetime;
  max_retries = c.max_retries;
  retry_base_delay = c.retry_base_delay;
  retry_max_delay = c.retry_max_delay;
}

-- The options that it opens the connection with, before `Connect` adds the pool.
pub record OpenOptions : Type 0 where
  pub addr : List Text
  pub database : Text
  pub username : Text
  pub password : Text

unfoldable pub open_options : ClickHouseConfig → OpenOptions
open_options c = record {
  addr = c.addr ∷ [];
  database = c.database;
  username = c.username;
  password = c.password;
}

unfoldable pub start_buffer : Types.Config → Result Buffer
start_buffer cfg =
    if text_eq cfg.buffer_strategy (txt "memory") || text_eq cfg.buffer_strategy []
    then ok (start cfg.buffer true (new cfg.buffer))
    else err (other (txt "unsupported buffer strategy: " ++ cfg.buffer_strategy))

-- What the routes of the handler that `compose` makes stand on.
pub record Service : Type 0 where
  pub use_case : UseCase
  pub limiters : LimiterRegistry
  pub server : Http.ServerConfig
  pub strategy : Text  -- the health checker's

unfoldable pub compose : Types.Config → Service
compose cfg = record {
  use_case = record {
    max_future = cfg.validation.max_future_duration;
    max_past = cfg.validation.max_past_duration;
  };
  limiters =
      new_limiter_registry
        (record { ingest = pos 25000; bulk = pos 500; metrics = pos 100; health = pos 60 });
  server = record { max_body_bytes = pos 1048576; max_bulk_events = pos 0 };
  strategy = cfg.buffer_strategy;
}

-- `healthChecker.Health`, on what the ping gives and the seconds since the start.
unfoldable pub health_status : Text → ℤ → Option Error → HealthStatus
unfolding repository_health
health_status strategy seconds ping = record (repository_health ping) {
  buffer_strategy = strategy;
  uptime_seconds = seconds;
}

-- The verb `%d`.
abbrev decimal_ℤ : ℤ → Text
decimal_ℤ (pos n) = decimal n
decimal_ℤ (negsuc n) = txt "-" ++ decimal (suc n)

unfoldable pub address : Types.Config → Text
address cfg = txt ":" ++ decimal_ℤ cfg.server.port
