-- ===== src/Observability.antt =====
-- internal/observability/metrics.go: the metrics that `New` makes and registers. The metrics library
-- is no code of the repository: what is modelled is what the code asks of it, a list of calls.
use chronometrics.Common.{ℕ, List, [], ◌∷◌, Text, txt}

-- The fields of `Metrics`.
pub data Metric : Type 0 where
  http_requests_total http_request_duration : Metric
  events_ingested_total ingest_errors_total : Metric
  buffer_flushes_total buffer_depth : Metric
  db_insert_duration db_query_duration : Metric

pub data Kind : Type 0 where
  counter_vec histogram_vec gauge : Kind

-- The options that a metric is made with, without the help text and the buckets.
pub record Options : Type 0 where
  pub name : Text
  pub kind : Kind
  pub labels : List Text

abbrev made : Text → Kind → List Text → Options
made name kind labels = record { name = name; kind = kind; labels = labels }

-- `New`, up to the registration.
unfoldable pub options : Metric → Options
options http_requests_total =
    made (txt "chronometrics_http_requests_total") counter_vec
      (txt "method" ∷ txt "path" ∷ txt "status" ∷ [])
options http_request_duration =
    made (txt "chronometrics_http_request_duration_seconds") histogram_vec
      (txt "method" ∷ txt "path" ∷ [])
options events_ingested_total =
    made (txt "chronometrics_events_ingested_total") counter_vec (txt "type" ∷ [])
options ingest_errors_total =
    made (txt "chronometrics_ingest_errors_total") counter_vec (txt "reason" ∷ [])
options buffer_flushes_total =
    made (txt "chronometrics_buffer_flushes_total") counter_vec (txt "result" ∷ [])
options buffer_depth = made (txt "chronometrics_buffer_depth") gauge []
options db_insert_duration =
    made (txt "chronometrics_db_insert_duration_seconds") histogram_vec (txt "result" ∷ [])
options db_query_duration =
    made (txt "chronometrics_db_query_duration_seconds") histogram_vec (txt "result" ∷ [])

-- What `MustRegister` is given, in its order.
unfoldable pub registered : List Metric
registered =
    http_requests_total ∷ http_request_duration ∷ events_ingested_total ∷ ingest_errors_total
    ∷ buffer_flushes_total ∷ buffer_depth ∷ db_insert_duration ∷ db_query_duration ∷ []

-- One call on a metric: `WithLabelValues(...).Inc()`, `WithLabelValues(...).Observe(seconds)`, whose
-- number is left out, and `Set`.
pub data Call : Type 0 where
  inc : Metric → List Text → Call
  observe : Metric → List Text → Call
  set : Metric → ℕ → Call

-- The label of a result.
abbrev pub success : Text
success = txt "success"

abbrev pub error' : Text
error' = txt "error"
