-- ===== src/Handler/Session/Reports.antt =====
-- How many events one response can report (internal/handler/ingest.go, bulk.go).
use chronometrics.Common.{
  ◌≤◌, ◌≡◌, inl, inr, Bool, true, Bool-cases, Option-cases, List, [], ◌∷◌, ltb, length, arith,
}
use chronometrics.Errors.{Error}
use chronometrics.Domain.Event.{RawEvent}
use chronometrics.Handler.Http.{
  BodyRead, read, read_failed, Body, error_response, status_accepted, bulk_response,
  metric_response, health_response, Request, Response, Counters, ServerConfig, Ingester, Decoder,
  BulkResponse, body_error, is_post, is_json,
}
use chronometrics.Handler.Admission.{reported, reported_by}
use chronometrics.Handler.Bulk.{
  max_bulk, bulk_loop, bulk_answer, bulk_events, bulk_decoded, bulk_body, handle_bulk,
  empty_response,
}
use chronometrics.Handler.Bulk.Accounts.{bulk_accounts}
use chronometrics.Handler.Contract.{conforms}
use chronometrics.Handler.Router.{events}

-- A response on /events reports at most one event.
pub conforms_report :
    (right : Bool) (resp : Response) → conforms events right resp ≡ true → reported resp ≤ 1
conforms_report right resp h = body_report resp.body h
  where
    body_report :
        (body : Body)
        → conforms events right (record resp { body = body }) ≡ true
        → reported_by body ≤ 1
    body_report (error_response code msg) h = omega arith
    body_report status_accepted h = omega arith
    body_report (bulk_response r) h = absurd (ground arith)
    body_report (metric_response r) h = omega arith
    body_report (health_response r) h = omega arith

body_error_reports : (e : Error) → reported (body_error e) ≡ 0
body_error_reports e = ground arith

-- A response on /events/bulk reports at most as many as a request may hold.
module _ {S : Type 0} (ingester : Ingester S) (m : Bool) (cfg : ServerConfig) where
  bulk_answer_report : (r : BulkResponse) → reported (bulk_answer ingester m r) ≤ r.accepted
  unfolding bulk_answer
  bulk_answer_report r = ground arith

  bulk_events_report :
      (evs : List RawEvent) (s : S) (c : Counters)
      → reported (bulk_events ingester m cfg evs s c).2 ≤ max_bulk cfg.max_bulk_events
  unfolding bulk_events
  bulk_events_report [] s c = omega arith
  bulk_events_report (ev ∷ evs) s c =
      elim (Bool-cases (ltb (max_bulk cfg.max_bulk_events) (length (ev ∷ evs)))) [
        | inl many ↦ rw many (omega arith)
        | inr few ↦
            let resp = (bulk_loop ingester m 0 (ev ∷ evs) s c empty_response).2 in
            let short : length (ev ∷ evs) ≤ max_bulk cfg.max_bulk_events = ground arith in
            rw few (
              omega (
                arith,
                short,
                bulk_answer_report resp,
                (bulk_accounts ingester m (ev ∷ evs) s c).0,
              ))
      ]

  bulk_body_report :
      (decoder : Decoder) (body : BodyRead) (s : S) (c : Counters)
      → reported (bulk_body ingester m decoder cfg body s c).2 ≤ max_bulk cfg.max_bulk_events
  bulk_body_report decoder (read_failed e) s c = omega (arith, body_error_reports e)
  bulk_body_report decoder (read t) s c = elim (Option-cases (decoder.decode_bulk t)) [
    | inl d ↦ rw (d, bulk_decoded) (omega arith)
    | inr (evs, d) ↦ rw (d, bulk_decoded) (bulk_events_report evs s c)
  ]

  pub handle_bulk_report :
      (decoder : Decoder) (r : Request) (s : S) (c : Counters)
      → reported (handle_bulk ingester m decoder cfg r s c).2 ≤ max_bulk cfg.max_bulk_events
  unfolding handle_bulk
  handle_bulk_report decoder r s c = elim (Bool-cases (is_post r)) [
    | inr other ↦ rw other (omega arith)
    | inl post ↦ elim (Bool-cases (is_json r)) [
      | inl json ↦ rw (post, json) (bulk_body_report decoder r.body s c)
      | inr text ↦ rw (post, text) (omega arith)
    ]
  ]
