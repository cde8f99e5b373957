-- ===== src/Handler/Metrics.antt =====
-- internal/handler/handler.go: GET /metrics and GET /health.
pub mod Answers
pub mod Admits
use chronometrics.Common.{
  ℕ, suc, Bool, true, false, Option, none, some, List, [], ◌∷◌, Text, txt, if◌then◌else◌,
}
use chronometrics.Common.Int.{ℤ}
use chronometrics.Common.Numerals.{parse_int}
use chronometrics.Errors.{Error, is, err_query_timeout, is_validation_error, error_text}
use chronometrics.Domain.Json.{Platform, Result, ok, err}
use chronometrics.Domain.Event.{normalize_timestamp}
use chronometrics.Domain.Query.{QueryParams, MetricResult, validate_query_params}
use chronometrics.Handler.Http.{
  Request, Response, HealthStatus, validation_error, internal_error, query_timeout, metric_response,
  health_response, write_json, write_error, not_allowed, is_get,
}

abbrev time_value : Option ℤ → ℕ
time_value none = 0
time_value (some v) = normalize_timestamp v

-- A time parameter: 0 where it is missing or no number.
unfoldable pub parse_time : Text → ℕ
parse_time [] = 0
parse_time (b ∷ s) = time_value (parse_int (b ∷ s))

unfoldable pub query_params : Request → QueryParams
query_params r = record {
  event_name = r.event_name;
  from = parse_time r.from;
  to = parse_time r.to;
  group_by = r.group_by;
}

-- `MetricsQuerier.Query` is the parameter.
module _ (p : Platform) (query : QueryParams → Result MetricResult) where
  abbrev pub query_answer : Result MetricResult → Response
  query_answer (ok res) = write_json 200 (metric_response res)
  query_answer (err e) =
      if is err_query_timeout e
      then write_error 504 query_timeout (txt "query timed out")
      else write_error 500 internal_error (txt "internal error")

  abbrev pub validated : Option Error → QueryParams → Response
  validated none q = query_answer (query q)
  validated (some e) q =
      if is_validation_error e
      then write_error 400 validation_error (error_text e)
      else write_error 500 internal_error (txt "internal error")

  unfoldable pub handle_metrics : Request → Response
  handle_metrics r =
      if is_get r
      then validated (validate_query_params p (query_params r)) (query_params r)
      else not_allowed (txt "GET")

abbrev pub healthy : HealthStatus
healthy = record {
  status = txt "healthy";
  buffer_strategy = [];
  uptime_seconds = ℤ.pos 0;
  click_house = [];
}

abbrev pub health_of : Option HealthStatus → HealthStatus
health_of none = healthy
health_of (some h) = h

-- `none` is a handler without a `HealthChecker`.
unfoldable pub handle_health : Option HealthStatus → Request → Response
handle_health checker r =
    if is_get r
    then write_json 200 (health_response (health_of checker))
    else not_allowed (txt "GET")
