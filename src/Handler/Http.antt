-- ===== src/Handler/Http.antt =====
-- Requests, responses and what the handlers share (internal/handler/types.go, response.go).
use chronometrics.Common.{
  ℕ, Bool, Option, List, [], ◌∷◌, Text, txt, text_eq, has_prefix, if◌then◌else◌,
}
use chronometrics.Common.Int.{ℤ}
use chronometrics.Errors.{Error, is_max_bytes_error}
use chronometrics.Domain.Event.{RawEvent}
use chronometrics.Domain.Query.{MetricResult}

-- What `io.ReadAll(r.Body)` gives.
pub data BodyRead : Type 0 where
  read : Text → BodyRead
  read_failed : Error → BodyRead

pub record Request : Type 0 where
  pub method : Text
  pub content_type : Text
  pub content_length : ℤ
  pub body : BodyRead
  pub event_name : Text  -- the query parameters
  pub from : Text
  pub to : Text
  pub group_by : Text

pub data Code : Type 0 where
  method_not_allowed : Code
  unsupported_media_type : Code
  payload_too_large : Code
  read_error : Code
  validation_error : Code
  publish_failed : Code
  internal_error : Code
  query_timeout : Code
  rate_limited : Code

-- One entry of the errors of a bulk response.
pub record BulkItemError : Type 0 where
  pub index : ℕ
  pub error : Text
  pub code : Code

pub record BulkResponse : Type 0 where
  pub accepted : ℕ
  pub rejected : ℕ
  pub errors : List BulkItemError

pub record HealthStatus : Type 0 where
  pub status : Text
  pub buffer_strategy : Text
  pub uptime_seconds : ℤ
  pub click_house : Text

-- What is encoded as JSON: an `ErrorResponse`, {"status": "accepted"}, or one of the results.
pub data Body : Type 0 where
  error_response : Code → Text → Body
  status_accepted : Body
  bulk_response : BulkResponse → Body
  metric_response : MetricResult → Body
  health_response : HealthStatus → Body

pub data Header : Type 0 where
  allow : Text → Header
  retry_after : Text → Header
  request_id : Text → Header

pub record Response : Type 0 where
  pub status : ℕ
  pub headers : List Header
  pub body : Body

abbrev pub write_json : ℕ → Body → Response
write_json status body = record { status = status; headers = []; body = body }

abbrev pub write_error : ℕ → Code → Text → Response
write_error status code msg = write_json status (error_response code msg)

abbrev pub with_header : Header → Response → Response
with_header h r = record r { headers = h ∷ r.headers }

abbrev pub not_allowed : Text → Response
not_allowed m =
    with_header (allow m) (write_error 405 method_not_allowed (txt "method not allowed"))

-- The counters that the handlers increment; they stay as they are where no metrics are given.
pub record Counters : Type 0 where
  pub ingested_single : ℕ
  pub ingested_bulk : ℕ
  pub errors_validation : ℕ
  pub errors_publish : ℕ
  pub errors_internal : ℕ

pub record ServerConfig : Type 0 where
  pub max_body_bytes : ℤ
  pub max_bulk_events : ℤ

-- `Ingester`, over the state behind it, in the context of one request. Each call has its number in
-- the request, from 0 on: the clock and the context are read anew at each.
pub record Ingester (S : Type 0) : Type 0 where
  pub ingest : ℕ → RawEvent → S → S × Option Error

-- `json.Unmarshal` into a `RawEvent` and into a `BulkRequest`; `none` is an error.
pub record Decoder : Type 0 where
  pub decode_event : Text → Option RawEvent
  pub decode_bulk : Text → Option (List RawEvent)

-- The answer to a body that cannot be read.
abbrev pub body_error : Error → Response
body_error e =
    if is_max_bytes_error e
    then write_error 413 payload_too_large (txt "request body too large")
    else write_error 400 read_error (txt "failed to read request body")

abbrev pub media_error : Response
media_error = write_error 415 unsupported_media_type (txt "content-type must be application/json")

abbrev pub is_post : Request → Bool
is_post r = text_eq r.method (txt "POST")

abbrev pub is_get : Request → Bool
is_get r = text_eq r.method (txt "GET")

abbrev pub is_json : Request → Bool
is_json r = has_prefix (txt "application/json") r.content_type
