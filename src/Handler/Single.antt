-- ===== src/Handler/Single.antt =====
-- internal/handler/ingest.go: POST /events.
pub mod Accepted
pub mod Admits
use chronometrics.Common.{ℕ, suc, Bool, true, false, Option, none, some, Text, txt, if◌then◌else◌}
use chronometrics.Errors.{Error, is, err_publish_failed, is_validation_error, error_text}
use chronometrics.Domain.Event.{RawEvent}
use chronometrics.Handler.Http.{
  BodyRead, read, read_failed, Request, validation_error, publish_failed, internal_error, Response,
  status_accepted, retry_after, write_json, write_error, with_header, not_allowed, Counters,
  Ingester, Decoder, body_error, media_error, is_post, is_json,
}

abbrev pub count_single : Bool → Counters → Counters
count_single true c = record c { ingested_single = suc c.ingested_single }
count_single false c = c

abbrev pub count_validation : Bool → Counters → Counters
count_validation true c = record c { errors_validation = suc c.errors_validation }
count_validation false c = c

abbrev pub count_publish : Bool → Counters → Counters
count_publish true c = record c { errors_publish = suc c.errors_publish }
count_publish false c = c

abbrev pub count_internal : Bool → Counters → Counters
count_internal true c = record c { errors_internal = suc c.errors_internal }
count_internal false c = c

-- The answer to an error of the use case, and the counter of its kind.
unfoldable pub ingest_failed : Bool → Error → Counters → Counters × Response
ingest_failed metrics e c =
    if is_validation_error e
    then (count_validation metrics c, write_error 400 validation_error (error_text e))
    else if is err_publish_failed e
    then (
      count_publish metrics c,
      with_header (retry_after (txt "1"))
          (write_error 503 publish_failed (txt "service overloaded, retry later")),
    )
    else (count_internal metrics c, write_error 500 internal_error (txt "internal error"))

module _ {S : Type 0} (decoder : Decoder) (ingester : Ingester S) (metrics : Bool) where
  abbrev pub answer : S × Option Error → Counters → S × Counters × Response
  answer (s, none) c = (s, count_single metrics c, write_json 202 status_accepted)
  answer (s, some e) c = let (c', r) = ingest_failed metrics e c in (s, c', r)

  abbrev pub decoded : Option RawEvent → S → Counters → S × Counters × Response
  decoded none s c = (s, c, write_error 400 validation_error (txt "invalid JSON"))
  decoded (some ev) s c = answer (ingester.ingest 0 ev s) c

  abbrev pub with_body : BodyRead → S → Counters → S × Counters × Response
  with_body (read_failed e) s c = (s, c, body_error e)
  with_body (read body) s c = decoded (decoder.decode_event body) s c

  unfoldable pub handle_ingest : Request → S → Counters → S × Counters × Response
  unfolding ingest_failed
  handle_ingest r s c =
      if is_post r
      then (if is_json r then with_body r.body s c else (s, c, media_error))
      else (s, c, not_allowed (txt "POST"))
