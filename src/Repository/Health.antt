-- ===== src/Repository/Health.antt =====
-- internal/repository/repository.go: `Health`, on what the ping gives.
use chronometrics.Common.{Option, none, some, [], txt}
use chronometrics.Common.Int.{pos}
use chronometrics.Errors.{Error}
use chronometrics.Handler.Http.{HealthStatus}

unfoldable pub repository_health : Option Error → HealthStatus
repository_health none = record {
  status = txt "healthy";
  buffer_strategy = [];
  uptime_seconds = pos 0;
  click_house = txt "connected";
}
repository_health (some e) = record {
  status = txt "degraded";
  buffer_strategy = [];
  uptime_seconds = pos 0;
  click_house = txt "disconnected";
}
