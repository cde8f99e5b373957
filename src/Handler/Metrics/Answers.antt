-- ===== src/Handler/Metrics/Answers.antt =====
-- The answers of GET /metrics (internal/handler/handler.go).
use chronometrics.Common.{◌≡◌, refl, ◌⊎◌, inl, inr, true, arith, if◌then◌else◌, Option-cases}
use chronometrics.Errors.{Error, is, err_query_timeout}
use chronometrics.Errors.Laws.{finish_validation-kind}
use chronometrics.Domain.Json.{Platform, Result, Result-cases, ok, err}
use chronometrics.Domain.Query.{QueryParams, MetricResult, validate_query_params, collect_query}
use chronometrics.Domain.Query.Accepted.{IsQuery, validate_query_params-eq-none}
use chronometrics.Handler.Http.{Request, metric_response, write_json, is_get}
use chronometrics.Handler.Metrics.{query_params, handle_metrics}

module _ (p : Platform) (query : QueryParams → Result MetricResult) (r : Request) where
  -- On a GET request: with parameters that do not make a query the status is 400, and with others
  -- it is 200 with the querier's result, or 504 or 500 as the querier's error is a timeout or not.
  pub handle_metrics_status :
      is_get r ≡ true
      → (IsQuery (query_params r)
          × (((res : MetricResult) × (query (query_params r) ≡ ok res)
                × (handle_metrics p query r ≡ write_json 200 (metric_response res)))
              ⊎ ((e : Error) × (query (query_params r) ≡ err e)
                  × ((handle_metrics p query r).status
                      ≡ (if is err_query_timeout e then 504 else 500)))))
        ⊎ (¬ IsQuery (query_params r) × ((handle_metrics p query r).status ≡ 400))
  unfolding handle_metrics validate_query_params
  handle_metrics_status get = elim (Option-cases (validate_query_params p (query_params r))) [
    | inl v ↦ inl (
      (validate_query_params-eq-none p (query_params r)).0 v,
      elim (Result-cases (query (query_params r))) [
        | inl (res, q) ↦ inl (res, q, rw (get, v, q) refl)
        | inr (e, q) ↦ inr (e, q, rw (get, v, q) (ground arith))
      ],
    )
    | inr (x, v) ↦ inr (
      (λ q. absurd (ground (arith, (validate_query_params-eq-none p (query_params r)).1 q))),
      rw (get, v, finish_validation-kind (collect_query p (query_params r)) x v) refl,
    )
  ]
