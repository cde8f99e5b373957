-- ===== src/Handler/Metrics/Admits.antt =====
-- GET /metrics and GET /health report no accepted events (internal/handler/handler.go).
use chronometrics.Common.{◌≡◌, refl, inl, inr, Bool-cases, Option, none, some, arith}
use chronometrics.Errors.{Error}
use chronometrics.Domain.Json.{Platform, Result, ok, err}
use chronometrics.Domain.Query.{QueryParams, MetricResult, validate_query_params}
use chronometrics.Handler.Http.{Request, HealthStatus, is_get}
use chronometrics.Handler.Admission.{reported}
use chronometrics.Handler.Metrics.{
  query_params, query_answer, validated, handle_metrics, handle_health,
}

module _ (p : Platform) (query : QueryParams → Result MetricResult) where
  query_answer_reports : (x : Result MetricResult) → reported (query_answer p query x) ≡ 0
  query_answer_reports (ok res) = refl
  query_answer_reports (err e) = ground arith

  validated_reports : (x : Option Error) (q : QueryParams) → reported (validated p query x q) ≡ 0
  validated_reports none q = query_answer_reports (query q)
  validated_reports (some e) q = ground arith

  pub handle_metrics_reports : (r : Request) → reported (handle_metrics p query r) ≡ 0
  unfolding handle_metrics
  handle_metrics_reports r = elim (Bool-cases (is_get r)) [
    | inl get ↦
        rw get (validated_reports (validate_query_params p (query_params r)) (query_params r))
    | inr other ↦ rw other refl
  ]

pub handle_health_reports :
    (checker : Option HealthStatus) (r : Request) → reported (handle_health checker r) ≡ 0
unfolding handle_health
handle_health_reports checker r = ground arith
