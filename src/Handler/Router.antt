-- ===== src/Handler/Router.antt =====
-- internal/handler/handler.go: the routes that `New` registers and `Router`. The choice of a route
-- by `http.ServeMux` is by the path, as for patterns without a wildcard; its answer to any other
-- path and the Prometheus handler are parameters.
pub mod Admits
pub mod Counts
use chronometrics.Common.{
  ℕ, Bool, true, false, Option, none, some, List, [], ◌∷◌, Text, txt, text_eq, if◌then◌else◌,
}
use chronometrics.Domain.Json.{Platform, Result}
use chronometrics.Domain.Query.{QueryParams, MetricResult}
use chronometrics.Handler.Http.{
  Request, Response, Counters, ServerConfig, Ingester, Decoder, HealthStatus, rate_limited,
  write_error,
}
use chronometrics.Handler.Limiter.{LimiterRegistry, with_limiter}
use chronometrics.Handler.Single.{handle_ingest}
use chronometrics.Handler.Bulk.{handle_bulk}
use chronometrics.Handler.Metrics.{handle_metrics, handle_health}
use chronometrics.Handler.Middleware.{with_middleware}

-- What changes from one request to the next.
pub record Site (S : Type 0) : Type 0 where
  pub inner : S
  pub counters : Counters
  pub limiters : LimiterRegistry

-- What the handler was made with, and what the libraries answer.
pub record Handler (S : Type 0) : Type 0 where
  pub ingester : Ingester S
  pub querier : QueryParams → Result MetricResult
  pub checker : Option HealthStatus
  pub cfg : ServerConfig
  pub metrics : Bool
  pub platform : Platform
  pub decoder : Decoder
  pub prometheus : Request → Response
  pub unmatched : Text → Request → Response

pub data Route : Type 0 where
  events bulk metrics health prometheus : Route

-- The patterns that `New` registers.
abbrev pub patterns : Bool → List (Text × Route)
patterns with_metrics =
    (txt "/events", events)
    ∷ (txt "/events/bulk", bulk)
    ∷ (txt "/metrics", metrics)
    ∷ (txt "/health", health)
    ∷ (if with_metrics then (txt "/prometheus", prometheus) ∷ [] else [])

unfoldable pub find_route : Text → List (Text × Route) → Option Route
find_route path [] = none
find_route path ((pattern', route) ∷ rest) =
    if text_eq path pattern' then some route else find_route path rest

abbrev pub limited_answer : Response
limited_answer = write_error 429 rate_limited (txt "rate limit exceeded")

module _ {S : Type 0} (h : Handler S) where
  -- `withLimiter` around a handler.
  abbrev pub through_limiter : Text → (Site S → Site S × Response) → Site S → Site S × Response
  through_limiter name next site =
      let (limiters, passes) = with_limiter name site.limiters in
      let site' = record site { limiters = limiters } in
      if passes then next site' else (site', limited_answer)

  abbrev pub put_back : Site S → S × Counters × Response → Site S × Response
  put_back site (s, c, resp) = (record site { inner = s; counters = c }, resp)

  abbrev pub ingest_route : Request → Site S → Site S × Response
  ingest_route r site =
      put_back site (handle_ingest h.decoder h.ingester h.metrics r site.inner site.counters)

  abbrev pub bulk_route : Request → Site S → Site S × Response
  bulk_route r site =
      put_back site (handle_bulk h.ingester h.metrics h.decoder h.cfg r site.inner site.counters)

  abbrev pub route_to : Option Route → Text → Request → Site S → Site S × Response
  route_to (some events) path r site = through_limiter (txt "ingest") (ingest_route r) site
  route_to (some bulk) path r site = through_limiter (txt "bulk") (bulk_route r) site
  route_to (some metrics) path r site =
      through_limiter (txt "metrics") (λ site'. (site', handle_metrics h.platform h.querier r)) site
  route_to (some health) path r site =
      through_limiter (txt "health") (λ site'. (site', handle_health h.checker r)) site
  route_to (some prometheus) path r site = (site, h.prometheus r)
  route_to none path r site = (site, h.unmatched path r)

  abbrev answered : Site S × Response → Site S × Option Response
  answered (site, resp) = (site, some resp)

  -- The mux, as the handler behind the middleware.
  abbrev pub mux : Text → Request → Site S → Site S × Option Response
  mux path r site = answered (route_to (find_route path (patterns h.metrics)) path r site)

  -- `Router`, on a request to a path, with the identifier that the middleware gives it.
  unfoldable pub serve : Text → Text → Request → Site S → Site S × Response
  unfolding with_limiter handle_ingest handle_bulk handle_metrics handle_health find_route
      with_middleware
  serve id path r site = with_middleware h.cfg.max_body_bytes (mux path) id r site
