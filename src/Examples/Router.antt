-- ===== src/Examples/Router.antt =====
-- A request through the whole service.
use chronometrics.Common.{refl, true, false, none, some, [], ◌∷◌, txt}
use chronometrics.Common.Int.{pos}
use chronometrics.Errors.{sentinel, err_query_timeout}
use chronometrics.Domain.Json.{err}
use chronometrics.Buffer.{Buffer, new}
use chronometrics.Handler.Http.{Request, read, Counters, write_error, internal_error}
use chronometrics.Handler.Single.Accepted.{windows}
use chronometrics.Handler.Admission.{reported, Admits}
use chronometrics.Handler.Router.{Site, Handler, serve}
use chronometrics.Handler.Router.Admits.{over_buffer, PlainAnswers, serve-Admits}
use chronometrics.Handler.Adapter.{use_case_adapter}
use chronometrics.Handler.Limiter.{new_limiter_registry}
use chronometrics.Examples.{platform, clock, ahead, back, raw_event, buffer_config}

abbrev pub no_counts : Counters
no_counts = record {
  ingested_single = 0;
  ingested_bulk = 0;
  errors_validation = 0;
  errors_publish = 0;
  errors_internal = 0;
}

abbrev pub handler : Handler Buffer
handler = record {
  ingester = use_case_adapter platform (windows ahead back) (λ i. clock) (λ i. false);
  querier = λ q. err (sentinel err_query_timeout);
  checker = none;
  cfg = record { max_body_bytes = pos 1048576; max_bulk_events = pos 0 };
  metrics = true;
  platform = platform;
  decoder = record {
    decode_event = λ t. some raw_event;
    decode_bulk = λ t. some (raw_event ∷ raw_event ∷ raw_event ∷ []);
  };
  prometheus = λ r. write_error 200 internal_error [];
  unmatched = λ path r. write_error 404 internal_error [];
}

pub handler-PlainAnswers : PlainAnswers handler
handler-PlainAnswers = ((λ r. refl), (λ path r. refl))

abbrev pub site : Site Buffer
site = record {
  inner = new buffer_config;
  counters = no_counts;
  limiters =
      new_limiter_registry
        (record { ingest = pos 25000; bulk = pos 500; metrics = pos 100; health = pos 60 });
}

abbrev pub event_request : Request
event_request = record {
  method = txt "POST";
  content_type = txt "application/json";
  content_length = pos 2;
  body = read (txt "{}");
  event_name = [];
  from = [];
  to = [];
  group_by = [];
}

-- Three events for a buffer with room for two.
abbrev pub bulk_request : Request
bulk_request = event_request

serve-Admits_example :
    let x =
      serve
        (over_buffer (windows ahead back) (λ i. clock) (λ i. false) handler)
        (txt "id")
        (txt "/events/bulk")
        bulk_request
        site in
    Admits (reported x.1) site.inner x.0.inner
serve-Admits_example =
    serve-Admits handler (windows ahead back) (λ i. clock) (λ i. false) handler-PlainAnswers
      (txt "id") (txt "/events/bulk") bulk_request site
