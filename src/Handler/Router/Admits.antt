-- ===== src/Handler/Router/Admits.antt =====
-- What a request does to the buffer, by whatever route it comes (internal/handler/handler.go).
use chronometrics.Common.{ℕ, ◌≡◌, refl, inl, inr, Bool, Bool-cases, Option, none, some, Text, txt}
use chronometrics.Common.Int.{pos, ltb_ℤ}
use chronometrics.Buffer.{Buffer}
use chronometrics.Ingest.{UseCase}
use chronometrics.Handler.Http.{Request, Response}
use chronometrics.Handler.Adapter.{use_case_adapter}
use chronometrics.Handler.Admission.{reported, Admits, Admits-none}
use chronometrics.Handler.Single.Admits.{handle_ingest-Admits}
use chronometrics.Handler.Bulk.Admits.{handle_bulk-Admits}
use chronometrics.Handler.Metrics.Admits.{handle_metrics_reports, handle_health_reports}
use chronometrics.Handler.Metrics.{handle_metrics, handle_health}
use chronometrics.Handler.Limiter.{with_limiter}
use chronometrics.Handler.Middleware.{body_limit, limit_body, with_middleware}
use chronometrics.Handler.Router.{
  Site, Handler, Route, events, bulk, metrics, health, prometheus, find_route, patterns,
  through_limiter, ingest_route, bulk_route, route_to, serve,
}

-- A handler over the in-memory buffer.
abbrev pub over_buffer : UseCase → (ℕ → ℕ) → (ℕ → Bool) → Handler Buffer → Handler Buffer
over_buffer uc now cancelled h = record h {
  ingester = use_case_adapter h.platform uc now cancelled;
}

-- The answers of the libraries report no accepted events.
abbrev pub PlainAnswers : {S : Type 0} → Handler S → Type 0
PlainAnswers h =
    ((r : Request) → reported (h.prometheus r) ≡ 0)
    × ((path : Text) (r : Request) → reported (h.unmatched path r) ≡ 0)

module _ (h : Handler Buffer) (uc : UseCase) (now : ℕ → ℕ) (cancelled : ℕ → Bool) where
  abbrev Fair : Site Buffer → Site Buffer × Response → Type 0
  Fair site x = Admits (reported x.1) site.inner x.0.inner

  limit-Fair :
      (name : Text) (next : Site Buffer → Site Buffer × Response) (site : Site Buffer)
      → ((site' : Site Buffer) → Fair site' (next site'))
      → Fair site (through_limiter h name next site)
  limit-Fair name next site fair = elim (Bool-cases (with_limiter name site.limiters).1) [
    | inl passes ↦ rw passes (fair (record site { limiters = (with_limiter name site.limiters).0 }))
    | inr full ↦ rw full (Admits-none _ site.inner refl)
  ]

  route_to-Fair :
      PlainAnswers h
      → (route : Option Route) (path : Text) (r : Request) (site : Site Buffer)
      → Fair site (route_to (over_buffer uc now cancelled h) route path r site)
  route_to-Fair plain (some events) path r site =
      limit-Fair (txt "ingest") (ingest_route (over_buffer uc now cancelled h) r) site (λ s.
        handle_ingest-Admits h.decoder h.platform uc now cancelled h.metrics r s.inner s.counters)
  route_to-Fair plain (some bulk) path r site =
      limit-Fair (txt "bulk") (bulk_route (over_buffer uc now cancelled h) r) site (λ s.
        handle_bulk-Admits h.platform uc now cancelled h.metrics h.decoder h.cfg r s.inner
          s.counters)
  route_to-Fair plain (some metrics) path r site =
      limit-Fair (txt "metrics") (λ s. (s, handle_metrics h.platform h.querier r)) site
        (λ s. Admits-none _ s.inner (handle_metrics_reports h.platform h.querier r))
  route_to-Fair plain (some health) path r site =
      limit-Fair (txt "health") (λ s. (s, handle_health h.checker r)) site
        (λ s. Admits-none _ s.inner (handle_health_reports h.checker r))
  route_to-Fair plain (some prometheus) path r site = Admits-none _ site.inner (plain.0 r)
  route_to-Fair plain none path r site = Admits-none _ site.inner (plain.1 path r)

  -- Whatever the request and its path, through the middleware, the mux, the rate limiter of the
  -- route, the handler and the use case to the in-memory buffer: exactly as many events as the
  -- response reports as accepted were added at the end of the channel, which they do not take above
  -- its capacity, and nothing else of the buffer has changed. A response reports one event where it says {"status": "accepted"}, those
  -- counted as accepted where it is a bulk result, and none otherwise; the handlers of libraries
  -- report none.
  pub serve-Admits :
      PlainAnswers h
      → (id path : Text) (r : Request) (site : Site Buffer)
      → let x = serve (over_buffer uc now cancelled h) id path r site in
        Admits (reported x.1) site.inner x.0.inner
  unfolding serve with_middleware limit_body
  serve-Admits plain id path r site =
      elim (Bool-cases (ltb_ℤ (pos (body_limit h.cfg.max_body_bytes)) r.content_length)) [
        | inl long ↦ rw long (Admits-none _ site.inner refl)
        | inr fits ↦ rw fits (
            route_to-Fair plain (find_route path (patterns h.metrics)) path
              (limit_body h.cfg.max_body_bytes r) site)
      ]
