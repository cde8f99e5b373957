-- ===== src/Handler/Contract/Conforms.antt =====
-- The answers of the service against openapi.yaml (internal/handler).
use chronometrics.Common.{
  ◌≡◌, ◌⊎◌, refl, inl, inr, Bool, true, false, Bool-cases, Option, none, some, Option-cases, List,
  [], ◌∷◌, arith, Text, txt, ltb, length,
}
use chronometrics.Common.Int.{ℤ, pos, ltb_ℤ}
use chronometrics.Errors.{Error}
use chronometrics.Domain.Json.{Platform, Result, ok, err}
use chronometrics.Domain.Event.{RawEvent}
use chronometrics.Domain.Query.{QueryParams, MetricResult, validate_query_params}
use chronometrics.Handler.Http.{
  BodyRead, read, read_failed, Request, Response, Counters, Ingester, Decoder, ServerConfig,
  HealthStatus, BulkResponse, write_error, payload_too_large, is_post, is_json, is_get,
}
use chronometrics.Handler.Single
use chronometrics.Handler.Single.{ingest_failed, handle_ingest}
use chronometrics.Handler.Bulk.{
  max_bulk, empty_response, bulk_loop, bulk_answer, bulk_events, bulk_decoded, bulk_body,
  handle_bulk,
}
use chronometrics.Handler.Metrics.{
  query_params, query_answer, validated, handle_metrics, health_of, handle_health,
}
use chronometrics.Handler.Limiter.{with_limiter}
use chronometrics.Handler.Middleware.{body_limit, limit_body, with_middleware}
use chronometrics.Handler.Router.{
  Site, Handler, Route, events, bulk, metrics, health, prometheus, find_route, patterns,
  limited_answer, through_limiter, ingest_route, bulk_route, route_to, serve,
}
use chronometrics.Repository.Health.{repository_health}
use chronometrics.App.Infrastructure.{health_status}
use chronometrics.Handler.Contract.{is_health, conforms, has_method}

-- The answers of POST /events, and those to its body.
module _ {S : Type 0} (decoder : Decoder) (ingester : Ingester S) (m : Bool) where
  answer-conforms :
      (x : S × Option Error) (c : Counters)
      → conforms events true (Single.answer decoder ingester m x c).2 ≡ true
  unfolding ingest_failed
  answer-conforms (s, none) c = refl
  answer-conforms (s, some e) c = ground arith

  single_body_conforms :
      (body : BodyRead) (s : S) (c : Counters)
      → conforms events true (Single.with_body decoder ingester m body s c).2 ≡ true
  single_body_conforms (read_failed e) s c = ground arith
  single_body_conforms (read t) s c = elim (Option-cases (decoder.decode_event t)) [
    | inl d ↦ rw (d, Single.decoded) refl
    | inr (raw, d) ↦ rw (d, Single.decoded) (answer-conforms (ingester.ingest 0 raw s) c)
  ]

  pub handle_ingest-conforms :
      (r : Request) (s : S) (c : Counters)
      → conforms events (is_post r) (handle_ingest decoder ingester m r s c).2 ≡ true
  unfolding handle_ingest
  handle_ingest-conforms r s c = elim (Bool-cases (is_post r)) [
    | inr other ↦ rw other refl
    | inl post ↦ elim (Bool-cases (is_json r)) [
      | inl json ↦ rw (post, json) (single_body_conforms r.body s c)
      | inr text ↦ rw (post, text) refl
    ]
  ]

-- The answers of POST /events/bulk.
module _ {S : Type 0} (ingester : Ingester S) (m : Bool) (cfg : ServerConfig) where
  bulk_answer-conforms :
      (resp : BulkResponse) → conforms bulk true (bulk_answer ingester m resp) ≡ true
  unfolding bulk_answer
  bulk_answer-conforms resp = ground arith

  bulk_events-conforms :
      (evs : List RawEvent) (s : S) (c : Counters)
      → conforms bulk true (bulk_events ingester m cfg evs s c).2 ≡ true
  unfolding bulk_events
  bulk_events-conforms [] s c = refl
  bulk_events-conforms (ev ∷ evs) s c =
      elim (Bool-cases (ltb (max_bulk cfg.max_bulk_events) (length (ev ∷ evs)))) [
        | inl many ↦ rw many refl
        | inr few ↦
            rw few (bulk_answer-conforms (bulk_loop ingester m 0 (ev ∷ evs) s c empty_response).2)
      ]

  bulk_body-conforms :
      (decoder : Decoder) (body : BodyRead) (s : S) (c : Counters)
      → conforms bulk true (bulk_body ingester m decoder cfg body s c).2 ≡ true
  bulk_body-conforms decoder (read_failed e) s c = ground arith
  bulk_body-conforms decoder (read t) s c = elim (Option-cases (decoder.decode_bulk t)) [
    | inl d ↦ rw (d, bulk_decoded) refl
    | inr (evs, d) ↦ rw (d, bulk_decoded) (bulk_events-conforms evs s c)
  ]

  handle_bulk-conforms :
      (decoder : Decoder) (r : Request) (s : S) (c : Counters)
      → conforms bulk (is_post r) (handle_bulk ingester m decoder cfg r s c).2 ≡ true
  unfolding handle_bulk
  handle_bulk-conforms decoder r s c = elim (Bool-cases (is_post r)) [
    | inr other ↦ rw other refl
    | inl post ↦ elim (Bool-cases (is_json r)) [
      | inl json ↦ rw (post, json) (bulk_body-conforms decoder r.body s c)
      | inr text ↦ rw (post, text) refl
    ]
  ]

-- The answers of GET /metrics and GET /health.
module _ (p : Platform) (query : QueryParams → Result MetricResult) where
  query_answer-conforms :
      (x : Result MetricResult) → conforms metrics true (query_answer p query x) ≡ true
  query_answer-conforms (ok res) = refl
  query_answer-conforms (err e) = ground arith

  validated-conforms :
      (x : Option Error) (q : QueryParams) → conforms metrics true (validated p query x q) ≡ true
  validated-conforms none q = query_answer-conforms (query q)
  validated-conforms (some e) q = ground arith

  handle_metrics-conforms :
      (r : Request) → conforms metrics (is_get r) (handle_metrics p query r) ≡ true
  unfolding handle_metrics
  handle_metrics-conforms r = elim (Bool-cases (is_get r)) [
    | inl get ↦
        rw get (validated-conforms (validate_query_params p (query_params r)) (query_params r))
    | inr other ↦ rw other refl
  ]

-- The health of a handler without a checker, or with the one that `compose` gives it, at some time
-- and for some result of the ping.
abbrev pub IsServiceHealth : Option HealthStatus → Type 0
IsServiceHealth checker =
    (checker ≡ none)
    ⊎ ((strategy : Text) × ((seconds : ℤ) × ((ping : Option Error) × (checker
              ≡ some (health_status strategy seconds ping)))))

health_of-listed :
    (checker : Option HealthStatus)
    → IsServiceHealth checker
    → is_health (health_of checker).status ≡ true
unfolding health_status repository_health
health_of-listed checker (inl e) = rw e refl
health_of-listed checker (inr (strategy, (seconds, (none, e)))) = rw e refl
health_of-listed checker (inr (strategy, (seconds, (some x, e)))) = rw e refl

handle_health-conforms :
    (checker : Option HealthStatus) (r : Request)
    → IsServiceHealth checker
    → conforms health (is_get r) (handle_health checker r) ≡ true
unfolding handle_health
handle_health-conforms checker r service = elim (Bool-cases (is_get r)) [
  | inl get ↦ rw (get, health_of-listed checker service) refl
  | inr other ↦ rw other refl
]

-- The routes of the API.
abbrev pub is_documented : Route → Bool
is_documented prometheus = false
is_documented _ = true

too_long_conforms :
    (route : Route) (right : Bool)
    → is_documented route ≡ true
    → conforms route right (write_error 413 payload_too_large (txt "request body too large")) ≡ true
too_long_conforms events right h = refl
too_long_conforms bulk right h = refl
too_long_conforms metrics right h = refl
too_long_conforms health right h = refl
too_long_conforms prometheus right h = absurd (ground arith)

limited_conforms :
    (route : Route) (right : Bool)
    → is_documented route ≡ true
    → conforms route right limited_answer ≡ true
limited_conforms events right h = refl
limited_conforms bulk right h = refl
limited_conforms metrics right h = refl
limited_conforms health right h = refl
limited_conforms prometheus right h = absurd (ground arith)

module _ {S : Type 0} (h : Handler S) where
  limiter_conforms :
      (route : Route) (right : Bool) (name : Text) (next : Site S → Site S × Response)
      (site : Site S)
      → is_documented route ≡ true
      → ((site' : Site S) → conforms route right (next site').1 ≡ true)
      → conforms route right (through_limiter h name next site).1 ≡ true
  limiter_conforms route right name next site d good =
      elim (Bool-cases (with_limiter name site.limiters).1) [
        | inl passes ↦
            rw passes (good (record site { limiters = (with_limiter name site.limiters).0 }))
        | inr full ↦ rw full (limited_conforms route right d)
      ]

  route_to-conforms :
      (route : Route) (path : Text) (r : Request) (site : Site S)
      → IsServiceHealth h.checker
      → is_documented route ≡ true
      → conforms route (has_method route r) (route_to h (some route) path r site).1 ≡ true
  route_to-conforms events path r site service d =
      limiter_conforms events (is_post r) (txt "ingest") (ingest_route h r) site d
        (λ s. handle_ingest-conforms h.decoder h.ingester h.metrics r s.inner s.counters)
  route_to-conforms bulk path r site service d =
      limiter_conforms bulk (is_post r) (txt "bulk") (bulk_route h r) site d
        (λ s. handle_bulk-conforms h.ingester h.metrics h.cfg h.decoder r s.inner s.counters)
  route_to-conforms metrics path r site service d =
      limiter_conforms metrics (is_get r) (txt "metrics")
        (λ s. (s, handle_metrics h.platform h.querier r)) site d
        (λ s. handle_metrics-conforms h.platform h.querier r)
  route_to-conforms health path r site service d =
      limiter_conforms health (is_get r) (txt "health") (λ s. (s, handle_health h.checker r)) site d
        (λ s. handle_health-conforms h.checker r service)
  route_to-conforms prometheus path r site service d = absurd (ground arith)

  -- On a path that openapi.yaml documents, whatever the request and the state, for a handler without
  -- a health checker or with the service's, whatever the ping gives: the response has one of the
  -- statuses that the document lists for the path with a body of the kind listed for it, with a code
  -- of an error or a status of the health that the schema lists;
  -- or it is one of those beyond the document, all of the schema of errors: 500 on /events, 405 and
  -- 413 on the two GET paths, or 429 with the code of the rate limiter, which the schema does not
  -- list. A response with status 503 has the header Retry-After, and a status below 300 answers only
  -- the method of the path.
  pub serve-conforms :
      (id path : Text) (route : Route) (r : Request) (site : Site S)
      → IsServiceHealth h.checker
      → find_route path (patterns h.metrics) ≡ some route
      → is_documented route ≡ true
      → conforms route (has_method route r) (serve h id path r site).1 ≡ true
  unfolding serve with_middleware limit_body
  serve-conforms id path route r site service found d =
      elim (Bool-cases (ltb_ℤ (pos (body_limit h.cfg.max_body_bytes)) r.content_length)) [
        | inl long ↦ rw long (too_long_conforms route (has_method route r) d)
        | inr fits ↦
            rw (fits, found)
              (route_to-conforms route path (limit_body h.cfg.max_body_bytes r) site service d)
      ]
