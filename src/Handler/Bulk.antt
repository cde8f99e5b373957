-- ===== src/Handler/Bulk.antt =====
-- internal/handler/bulk.go: POST /events/bulk.
pub mod Accounts
pub mod Admits
use chronometrics.Common.{
  ℕ, zero, suc, Bool, true, false, ◌||◌, Option, none, some, List, [], ◌∷◌, ◌++◌, ltb, ◌==◌, length,
  Text, txt, if◌then◌else◌,
}
use chronometrics.Common.Int.{ℤ, pos, negsuc}
use chronometrics.Common.Numerals.{decimal}
use chronometrics.Errors.{Error, is, err_publish_failed, is_validation_error, error_text}
use chronometrics.Domain.Event.{RawEvent}
use chronometrics.Handler.Http.{
  BodyRead, read, read_failed, Request, Code, validation_error, publish_failed, internal_error,
  Response, payload_too_large, BulkItemError, BulkResponse, bulk_response, retry_after, write_json,
  write_error, with_header, not_allowed, Counters, ServerConfig, Ingester, Decoder, body_error,
  media_error, is_post, is_json,
}
use chronometrics.Handler.Single.{count_validation, count_publish, count_internal}

-- `defaultMaxBulkEvents`, where the configuration gives no positive number.
abbrev pub max_bulk : ℤ → ℕ
max_bulk (pos zero) = 1000
max_bulk (pos (suc n)) = suc n
max_bulk (negsuc n) = 1000

abbrev pub count_bulk : Bool → Counters → Counters
count_bulk true c = record c { ingested_bulk = suc c.ingested_bulk }
count_bulk false c = c

-- The entry for an error at an index, and the counter of its kind.
unfoldable pub item_failed : Bool → ℕ → Error → Counters → Counters × BulkItemError
item_failed metrics i e c =
    if is_validation_error e
    then (
      count_validation metrics c,
      record { index = i; error = error_text e; code = validation_error },
    )
    else if is err_publish_failed e
    then (
      count_publish metrics c,
      record { index = i; error = txt "publish failed for item"; code = publish_failed },
    )
    else (
      count_internal metrics c,
      record { index = i; error = txt "internal error for item"; code = internal_error },
    )

abbrev is_publish_code : Code → Bool
is_publish_code publish_failed = true
is_publish_code _ = false

unfoldable pub any_publish_failed : List BulkItemError → Bool
any_publish_failed [] = false
any_publish_failed (e ∷ es) = is_publish_code e.code || any_publish_failed es

unfoldable pub empty_response : BulkResponse
empty_response = record { accepted = 0; rejected = 0; errors = [] }

module _ {S : Type 0} (ingester : Ingester S) (metrics : Bool) where
  -- One round of the loop, on the result of `Ingest`.
  unfoldable pub bulk_item : ℕ → Option Error → Counters → BulkResponse → Counters × BulkResponse
  unfolding item_failed
  bulk_item i none c resp = (count_bulk metrics c, record resp { accepted = suc resp.accepted })
  bulk_item i (some e) c resp =
      let (c', item) = item_failed metrics i e c in
      (c', record resp { rejected = suc resp.rejected; errors = resp.errors ++ item ∷ [] })

  -- The loop, from index `i` on.
  unfoldable pub bulk_loop :
      ℕ → List RawEvent → S → Counters → BulkResponse → S × Counters × BulkResponse
  unfolding bulk_item
  bulk_loop i [] s c resp = (s, c, resp)
  bulk_loop i (ev ∷ evs) s c resp =
      let (s', e) = ingester.ingest i ev s in
      let (c', resp') = bulk_item i e c resp in bulk_loop (suc i) evs s' c' resp'

  -- The answer after the loop.
  unfoldable pub bulk_answer : BulkResponse → Response
  unfolding any_publish_failed
  bulk_answer resp =
      if resp.accepted == 0
      then (if any_publish_failed resp.errors
          then with_header (retry_after (txt "1"))
              (write_error 503 publish_failed (txt "all publishes failed"))
          else write_error 400 validation_error (txt "no valid events"))
      else write_json 202 (bulk_response resp)

  unfoldable pub bulk_events : ServerConfig → List RawEvent → S → Counters → S × Counters × Response
  unfolding bulk_loop bulk_answer empty_response
  bulk_events cfg [] s c = (s, c, write_error 400 validation_error (txt "no events"))
  bulk_events cfg (ev ∷ evs) s c =
      if ltb (max_bulk cfg.max_bulk_events) (length (ev ∷ evs))
      then (
        s,
        c,
        write_error 413 payload_too_large
            (txt "too many events: max " ++ decimal (max_bulk cfg.max_bulk_events)),
      )
      else (let (s', c', resp) = bulk_loop 0 (ev ∷ evs) s c empty_response in
          (s', c', bulk_answer resp))

  abbrev pub bulk_decoded :
      ServerConfig → Option (List RawEvent) → S → Counters → S × Counters × Response
  bulk_decoded cfg none s c = (s, c, write_error 400 validation_error (txt "invalid JSON"))
  bulk_decoded cfg (some evs) s c = bulk_events cfg evs s c

  abbrev pub bulk_body : Decoder → ServerConfig → BodyRead → S → Counters → S × Counters × Response
  bulk_body decoder cfg (read_failed e) s c = (s, c, body_error e)
  bulk_body decoder cfg (read body) s c = bulk_decoded cfg (decoder.decode_bulk body) s c

  unfoldable pub handle_bulk :
      Decoder → ServerConfig → Request → S → Counters → S × Counters × Response
  unfolding bulk_events
  handle_bulk decoder cfg r s c =
      if is_post r
      then (if is_json r then bulk_body decoder cfg r.body s c else (s, c, media_error))
      else (s, c, not_allowed (txt "POST"))
