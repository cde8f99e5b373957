-- ===== src/Examples/Handler.antt =====
-- The theorems on the use case, the handlers and the rate limiters at concrete requests.
use chronometrics.Common.{
  ℕ, subst, ◌+◌, ◌≤◌, ◌<◌, ◌≡◌, ◌≢◌, ◌⊎◌, inl, inr, refl, Bool, true, false, Option, none, some,
  List, [], ◌∷◌, ◌++◌, length, min, arith, Text, txt, if◌then◌else◌,
}
use chronometrics.Common.Int.{pos, IsInt64}
use mathlib.Core.Option.{some_inj}
use chronometrics.Errors.{
  err_publish_failed, wrapped, Error, is, is_validation_error, is_publish_failed, err_query_timeout,
  sentinel,
}
use chronometrics.Domain.Json.{Result, ok, err}
use chronometrics.Domain.Event.{RawEvent, Event}
use chronometrics.Domain.Event.Window.{IsAcceptable}
use chronometrics.Domain.Payload.{to_event}
use chronometrics.Domain.Query.{QueryParams, MetricResult}
use chronometrics.Domain.Query.Accepted.{IsQuery}
use chronometrics.Buffer.{Buffer, new}
use chronometrics.Ingest.{publish_failure, buffer_publisher, ingest}
use chronometrics.Ingest.Gate.{ingest_rejects}
use chronometrics.Handler.Http.{
  Request, BodyRead, read, Counters, Decoder, write_json, metric_response,
}
use chronometrics.Handler.Middleware.{with_middleware, limit_body}
use chronometrics.Handler.Middleware.Bounded.{route, accepted_body}
use chronometrics.Common.Int.{ltb_ℤ}
use chronometrics.Handler.Adapter.{use_case_adapter}
use chronometrics.Handler.Single.{handle_ingest}
use chronometrics.Handler.Single.Accepted.{windows, accepted_event}
use chronometrics.Handler.Bulk.{bulk_loop, empty_response}
use chronometrics.Handler.Bulk.Accounts.{IndexedIn, bulk_accounts}
use chronometrics.Handler.Metrics.{query_params, handle_metrics}
use chronometrics.Handler.Metrics.Answers.{handle_metrics_status}
use chronometrics.Examples.{platform, clock, ahead, back, raw_event, some_event, buffer_config}

abbrev buffer : Buffer
buffer = new buffer_config

abbrev full : Buffer
full = record buffer { ch = some_event ∷ some_event ∷ [] }

abbrev no_counts : Counters
no_counts = record {
  ingested_single = 0;
  ingested_bulk = 0;
  errors_validation = 0;
  errors_publish = 0;
  errors_internal = 0;
}

abbrev decoder : Decoder
decoder = record { decode_event = λ t. some raw_event; decode_bulk = λ t. some (raw_event ∷ []) }

abbrev post : BodyRead → Request
post body = record {
  method = txt "POST";
  content_type = txt "application/json";
  content_length = pos 2;
  body = body;
  event_name = [];
  from = [];
  to = [];
  group_by = [];
}

abbrev at_capacity : Error
at_capacity = wrapped (txt "buffer at capacity (2)") (sentinel err_publish_failed)

full_error :
    (ingest platform buffer_publisher (windows ahead back) clock false (some raw_event) full).1
    ≡ some (publish_failure at_capacity)
unfolding ingest chronometrics.Domain.Event.validate chronometrics.Errors.append_if
    chronometrics.Domain.Event.normalize_timestamp chronometrics.Common.is_blank to_event
    chronometrics.Buffer.publish new chronometrics.Common.Numerals.decimal is_validation_error is
    chronometrics.Errors.same_sentinel
full_error = refl

ingest_rejects_example :
    let x = publish_failure at_capacity in
    ((ingest platform buffer_publisher (windows ahead back) clock false (some raw_event) full).0
      ≡ full)
    × (((is_validation_error x ≡ true) × (is_publish_failed x ≡ false))
        ⊎ (to_event platform raw_event ≡ err x)
        ⊎ ((is_publish_failed x ≡ true)
            × (is_validation_error x ≡ false)
            × ((false ≡ true) ⊎ (full.capacity ≤ length full.ch))))
ingest_rejects_example =
    ingest_rejects platform (windows ahead back) clock false raw_event full
      (publish_failure at_capacity) full_error

is_202 :
    (handle_ingest decoder
      (use_case_adapter platform (windows ahead back) (λ i. clock) (λ i. false))
      true
      (post (read (txt "{}")))
      buffer
      no_counts).2.status
    ≡ 202
unfolding handle_ingest ingest chronometrics.Domain.Event.validate chronometrics.Errors.append_if
    chronometrics.Domain.Event.normalize_timestamp chronometrics.Common.is_blank to_event
    chronometrics.Buffer.publish new
is_202 = refl

decoded_IsInt64 :
    (t : Text) (raw : RawEvent) → decoder.decode_event t ≡ some raw → IsInt64 raw.timestamp
decoded_IsInt64 t raw e = subst (λ (x : RawEvent). IsInt64 x.timestamp) (some_inj.0 e) (omega arith)

accepted_event_example :
    (t : Text) × (raw : RawEvent) × (ev : Event) × (read (txt "{}") ≡ read t)
    × (decoder.decode_event t ≡ some raw)
    × IsAcceptable clock raw ahead back
    × (to_event platform raw ≡ ok ev)
    × (length buffer.ch < buffer.capacity)
    × ((handle_ingest decoder
          (use_case_adapter platform (windows ahead back) (λ i. clock) (λ i. false))
          true
          (post (read (txt "{}")))
          buffer
          no_counts).0
        ≡ record buffer { ch = buffer.ch ++ ev ∷ [] })
accepted_event_example =
    accepted_event platform decoder true ahead back (λ i. clock) (λ i. false)
      (post (read (txt "{}"))) buffer no_counts (omega arith) (omega arith) (omega arith)
      decoded_IsInt64 is_202

abbrev requested : List RawEvent
requested = raw_event ∷ record raw_event { user_id = [] } ∷ []

bulk_accounts_example :
    let resp =
      (bulk_loop
        (use_case_adapter platform (windows ahead back) (λ i. clock) (λ i. false))
        true
        0
        requested
        buffer
        no_counts
        empty_response).2 in
    (resp.accepted + resp.rejected ≡ 2)
    × (length resp.errors ≡ resp.rejected)
    × IndexedIn 0 2 resp.errors
bulk_accounts_example =
    bulk_accounts (use_case_adapter platform (windows ahead back) (λ i. clock) (λ i. false)) true
      requested buffer no_counts

abbrev result : MetricResult
result = record {
  event_name = txt "signup";
  from = 1;
  to = 2;
  group_by = [];
  total_count = 3;
  unique_count = 2;
  groups = [];
}

abbrev answer : QueryParams → Result MetricResult
answer q = ok result

abbrev get : Request
get = record (post (read [])) {
  method = txt "GET";
  event_name = txt "signup";
  from = txt "1700000000";
  to = txt "1700000001";
}

handle_metrics_status_example :
    (IsQuery (query_params get)
      × (((res : MetricResult) × (answer (query_params get) ≡ ok res)
            × (handle_metrics platform answer get ≡ write_json 200 (metric_response res)))
          ⊎ ((e : Error) × (answer (query_params get) ≡ err e)
              × ((handle_metrics platform answer get).status
                  ≡ (if is err_query_timeout e then 504 else 500)))))
    ⊎ (¬ IsQuery (query_params get) × ((handle_metrics platform answer get).status ≡ 400))
handle_metrics_status_example = handle_metrics_status platform answer get refl

through_202 :
    (with_middleware
      (pos 100)
      (route decoder
        (use_case_adapter platform (windows ahead back) (λ i. clock) (λ i. false))
        true)
      (txt "id")
      (post (read (txt "{}")))
      (buffer, no_counts)).1.status
    ≡ 202
unfolding with_middleware limit_body handle_ingest ingest chronometrics.Domain.Event.validate
    chronometrics.Errors.append_if chronometrics.Domain.Event.normalize_timestamp
    chronometrics.Common.is_blank to_event chronometrics.Buffer.publish new
through_202 = refl

accepted_body_example :
    (t : Text) × (raw : RawEvent) × (read (txt "{}") ≡ read t)
    × (length t ≤ 100)
    × (decoder.decode_event t ≡ some raw)
    × ((ingest platform buffer_publisher (windows ahead back) clock false (some raw) buffer).1
        ≡ none)
    × (ltb_ℤ (pos 100) (pos 2) ≡ false)
accepted_body_example =
    accepted_body decoder (use_case_adapter platform (windows ahead back) (λ i. clock) (λ i. false))
      true (pos 100) (txt "id") (post (read (txt "{}"))) buffer no_counts through_202
