-- ===== src/Handler/Contract.antt =====
-- The API that openapi.yaml documents: for each path and status the schema of the body. Independent
-- of the handlers; the answers beyond it are listed on their own.
pub mod Conforms
use chronometrics.Common.{
  ℕ, Bool, true, false, ◌&&◌, ◌||◌, not, List, [], ◌∷◌, ◌++◌, ltb, ◌==◌, Text, txt, text_eq,
}
use chronometrics.Handler.Http.{
  Request, Code, method_not_allowed, unsupported_media_type, payload_too_large, read_error,
  validation_error, publish_failed, internal_error, query_timeout, rate_limited, Body,
  error_response, status_accepted, bulk_response, metric_response, health_response, Header, allow,
  retry_after, request_id, Response,
}
use chronometrics.Handler.Router.{Route, events, bulk, metrics, health, prometheus}

-- The schemas of components/schemas that responses refer to.
pub data Schema : Type 0 where
  accepted_schema bulk_schema metric_schema health_schema error_schema : Schema

-- The values of `code` that the schema ErrorResponse lists.
abbrev is_listed : Code → Bool
is_listed validation_error = true
is_listed publish_failed = true
is_listed payload_too_large = true
is_listed query_timeout = true
is_listed internal_error = true
is_listed read_error = true
is_listed method_not_allowed = true
is_listed unsupported_media_type = true
is_listed rate_limited = false

-- The values of `status` that the schema HealthResponse lists.
abbrev pub is_health : Text → Bool
is_health status =
    text_eq status (txt "healthy") || text_eq status (txt "degraded") || text_eq status (txt "down")

-- A body of a schema, with a listed value where the schema lists the values of a property.
abbrev pub fits : Schema → Body → Bool
fits accepted_schema status_accepted = true
fits bulk_schema (bulk_response r) = true
fits metric_schema (metric_response r) = true
fits health_schema (health_response h) = is_health h.status
fits error_schema (error_response code msg) = is_listed code
fits _ _ = false

-- The responses of the operation that each path has.
abbrev pub documented : Route → List (ℕ × Schema)
documented events =
    (202, accepted_schema)
    ∷ (400, error_schema)
    ∷ (405, error_schema)
    ∷ (413, error_schema)
    ∷ (415, error_schema)
    ∷ (503, error_schema)
    ∷ []
documented bulk =
    (202, bulk_schema)
    ∷ (400, error_schema)
    ∷ (405, error_schema)
    ∷ (413, error_schema)
    ∷ (415, error_schema)
    ∷ (503, error_schema)
    ∷ []
documented metrics =
    (200, metric_schema) ∷ (400, error_schema) ∷ (500, error_schema) ∷ (504, error_schema) ∷ []
documented health = (200, health_schema) ∷ []
documented prometheus = []

-- The only method of the path.
abbrev pub method_of : Route → Text
method_of events = txt "POST"
method_of bulk = txt "POST"
method_of _ = txt "GET"

abbrev pub is_in : List (ℕ × Schema) → ℕ → Body → Bool
is_in [] status body = false
is_in ((listed, schema) ∷ rest) status body =
    ((listed == status) && fits schema body) || is_in rest status body

-- What the service also answers: 500 where a single event fails for another reason, and 405 and 413
-- to a GET path.
abbrev pub beyond : Route → List (ℕ × Schema)
beyond events = (500, error_schema) ∷ []
beyond metrics = (405, error_schema) ∷ (413, error_schema) ∷ []
beyond health = (405, error_schema) ∷ (413, error_schema) ∷ []
beyond _ = []

abbrev has_retry_after : List Header → Bool
has_retry_after [] = false
has_retry_after (retry_after s ∷ hs) = true
has_retry_after (h ∷ hs) = has_retry_after hs

abbrev is_rate_limited : Response → Bool
is_rate_limited resp = (resp.status == 429) && is_limited_body resp.body
  where
    is_limited_body : Body → Bool
    is_limited_body (error_response rate_limited msg) = true
    is_limited_body _ = false

-- A response to a request on a route: one that is documented, or one of those beyond, or the one of
-- the rate limiter; a 503 says when to retry; a success is only for the method of the route, which
-- the flag says that the request has.
abbrev pub conforms : Route → Bool → Response → Bool
conforms route right resp =
    (is_in (documented route) resp.status resp.body
      || (is_in (beyond route) resp.status resp.body || is_rate_limited resp))
    && ((not (resp.status == 503) || has_retry_after resp.headers)
        && (not (ltb resp.status 300) || right))

abbrev pub has_method : Route → Request → Bool
has_method route r = text_eq r.method (method_of route)
