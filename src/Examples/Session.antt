-- ===== src/Examples/Session.antt =====
-- Several requests to the service, at concrete inputs.
use chronometrics.Common.{
  ◌+◌, ◌*◌, ◌≤◌, ◌≡◌, ◌≢◌, ◌⊎◌, inr, refl, true, false, some, List, [], ◌∷◌, length, Text, txt,
}
use chronometrics.Common.Int.{pos}
use chronometrics.Common.Numerals.{decimal}
use chronometrics.Errors.{sentinel, err_query_timeout}
use chronometrics.Handler.Http.{Request}
use chronometrics.App.Infrastructure.{health_status}
use chronometrics.Handler.Contract.{conforms, has_method}
use chronometrics.Handler.Contract.Conforms.{serve-conforms}
use chronometrics.Handler.Limiter.{RateLimiterConfig, new_limiter_registry, reset, find_limiter}
use chronometrics.Handler.Limiter.Seconds.{run_seconds, within, limit_over_time}
use chronometrics.Handler.Limiter.Window.{passes}
use chronometrics.Handler.Middleware.Recorder.{header, content, recorded, received, recorded_status}
use chronometrics.Handler.Router.{Site, Handler, health, find_route, patterns, serve}
use chronometrics.Handler.Router.Counts.{ingested, metered}
use chronometrics.Handler.Session.{Visit, serve_all}
use chronometrics.Handler.Session.Rate.{accepted_per_tick}
use chronometrics.Handler.Bulk.{max_bulk}
use chronometrics.Buffer.{Buffer}
use chronometrics.Handler.Session.Counted.{counted, answered_with, requests_counted}
use chronometrics.Handler.Session.Truthful.{all_reported, events_counted}
use chronometrics.Examples.Router.{handler, handler-PlainAnswers, site, event_request, bulk_request}

-- GET /health of the service, while the ping fails.
abbrev checked_handler : Handler Buffer
checked_handler = record handler {
  checker = some (health_status (txt "memory") (pos 5) (some (sentinel err_query_timeout)));
}

abbrev health_request : Request
health_request = record event_request { method = txt "GET" }

to_health : find_route (txt "/health") (patterns checked_handler.metrics) ≡ some health
unfolding find_route
to_health = refl

serve-conforms_example :
    conforms health
      (has_method health health_request)
      (serve checked_handler (txt "id") (txt "/health") health_request site).1
    ≡ true
serve-conforms_example =
    serve-conforms checked_handler (txt "id") (txt "/health") health health_request site
      (inr (txt "memory", (pos 5, (some (sentinel err_query_timeout), refl)))) to_health refl

-- A single event and a bulk of three, to a buffer with room for two.
abbrev visits : List Visit
visits =
    record { id = txt "a"; path = txt "/events"; request = event_request }
    ∷ record { id = txt "b"; path = txt "/events/bulk"; request = bulk_request }
    ∷ []

requests_counted_example :
    let x = serve_all handler visits site in
    counted (txt "POST" ∷ txt "/events" ∷ decimal 202 ∷ []) x.2
    ≡ answered_with (txt "POST") (txt "/events") 202 visits x.1
requests_counted_example =
    requests_counted handler visits site (txt "POST") (txt "/events") 202 refl

events_counted_example :
    let x = serve_all (metered handler) visits site in
    ingested x.0.counters ≡ ingested site.counters + all_reported x.1
events_counted_example = events_counted handler visits site handler-PlainAnswers

-- Three requests in the first second and two in the next, where two may pass.
abbrev limits : RateLimiterConfig
limits = record { ingest = pos 2; bulk = pos 1; metrics = pos 1; health = pos 1 }

abbrev seconds : List (List Text)
seconds =
    (txt "ingest" ∷ txt "bulk" ∷ txt "ingest" ∷ txt "ingest" ∷ [])
    ∷ (txt "ingest" ∷ txt "ingest" ∷ [])
    ∷ []

has_limit :
    find_limiter (txt "ingest") (new_limiter_registry limits)
    ≡ some (record { count = 0; limit = pos 2 })
unfolding find_limiter new_limiter_registry
has_limit = refl

limit_over_time_example :
    let n = passes (txt "ingest") (run_seconds seconds (new_limiter_registry limits)).1 in
    (n ≡ within (txt "ingest") 2 seconds) × (n ≤ 2 * length seconds)
limit_over_time_example =
    limit_over_time limits seconds (txt "ingest") (record { count = 0; limit = pos 2 }) 2 has_limit
      refl

-- A panic after the status 202 and a part of the body.
recorded_status_example :
    let rec = recorded (header 202 ∷ content ∷ []) true in
    (rec.status ≡ received rec.sent)
    ⊎ ((true ≡ true)
        × (header 202 ∷ content ∷ [] ≢ [])
        × (rec.status ≡ 500)
        × (rec.sent ≡ (recorded (header 202 ∷ content ∷ []) false).sent))
recorded_status_example = recorded_status (header 202 ∷ content ∷ []) true refl

-- After a tick, with the limits of the service.
abbrev service_limits : RateLimiterConfig
service_limits = record { ingest = pos 25000; bulk = pos 500; metrics = pos 100; health = pos 60 }

abbrev ticked_site : Site Buffer
ticked_site = record site { limiters = reset (new_limiter_registry service_limits) }

has_ingest :
    find_limiter (txt "ingest") (new_limiter_registry service_limits)
    ≡ some (record { count = 0; limit = pos 25000 })
unfolding find_limiter new_limiter_registry
has_ingest = refl

has_bulk :
    find_limiter (txt "bulk") (new_limiter_registry service_limits)
    ≡ some (record { count = 0; limit = pos 500 })
unfolding find_limiter new_limiter_registry
has_bulk = refl

accepted_per_tick_example :
    all_reported (serve_all handler visits ticked_site).1
    ≤ 25000 + 500 * max_bulk handler.cfg.max_bulk_events
accepted_per_tick_example =
    accepted_per_tick handler 25000 500 handler-PlainAnswers visits ticked_site
      (new_limiter_registry service_limits) (record { count = 0; limit = pos 25000 })
      (record { count = 0; limit = pos 500 }) refl has_ingest has_bulk refl refl
