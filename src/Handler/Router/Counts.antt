-- ===== src/Handler/Router/Counts.antt =====
-- The counters of ingested events against the responses (internal/handler/ingest.go, bulk.go and
-- handler.go).
use chronometrics.Common.{
  ℕ, suc, ◌+◌, ◌≡◌, refl, inl, inr, true, Bool-cases, Option, none, some, Option-cases, List, [],
  ◌∷◌, ltb, length, arith, Text, txt,
}
use chronometrics.Common.Int.{pos, ltb_ℤ}
use chronometrics.Errors.{Error}
use chronometrics.Domain.Event.{RawEvent}
use chronometrics.Handler.Http.{
  BodyRead, read, read_failed, Request, Response, Counters, ServerConfig, Ingester, Decoder,
  BulkResponse, body_error, is_post, is_json,
}
use chronometrics.Handler.Admission.{reported}
use chronometrics.Handler.Router.Admits.{PlainAnswers}
use chronometrics.Handler.Single
use chronometrics.Handler.Single.{ingest_failed, handle_ingest}
use chronometrics.Handler.Bulk.{
  max_bulk, bulk_item, bulk_loop, bulk_answer, bulk_events, bulk_decoded, bulk_body, handle_bulk,
  empty_response,
}
use chronometrics.Handler.Metrics.{handle_metrics, handle_health}
use chronometrics.Handler.Metrics.Admits.{handle_metrics_reports, handle_health_reports}
use chronometrics.Handler.Limiter.{with_limiter}
use chronometrics.Handler.Middleware.{body_limit, limit_body, with_middleware}
use chronometrics.Handler.Router.{
  Site, Handler, Route, events, bulk, metrics, health, prometheus, find_route, patterns,
  through_limiter, ingest_route, bulk_route, route_to, serve,
}

-- The events counted as ingested, by both routes.
abbrev pub ingested : Counters → ℕ
ingested c = c.ingested_single + c.ingested_bulk

-- So many more are counted.
abbrev pub Counts : ℕ → Counters → Counters → Type 0
Counts n c c' = ingested c' ≡ ingested c + n

body_error_reports : (e : Error) → reported (body_error e) ≡ 0
body_error_reports e = ground arith

Counts-none : (n : ℕ) (c : Counters) → n ≡ 0 → Counts n c c
Counts-none n c h = omega (arith, h)

module _ {S : Type 0} (decoder : Decoder) (ingester : Ingester S) where
  failed-Counts :
      (e : Error) (c : Counters) → let x = ingest_failed true e c in Counts (reported x.1) c x.0
  unfolding ingest_failed
  failed-Counts e c = ground arith

  answer-Counts :
      (x : S × Option Error) (c : Counters)
      → let y = Single.answer decoder ingester true x c in Counts (reported y.2) c y.1
  answer-Counts (s, none) c = omega arith
  answer-Counts (s, some e) c = failed-Counts e c

  body-Counts :
      (body : BodyRead) (s : S) (c : Counters)
      → let y = Single.with_body decoder ingester true body s c in Counts (reported y.2) c y.1
  body-Counts (read_failed e) s c = Counts-none _ c (body_error_reports e)
  body-Counts (read t) s c = elim (Option-cases (decoder.decode_event t)) [
    | inl d ↦ rw (d, Single.decoded) (omega arith)
    | inr (raw, d) ↦ rw (d, Single.decoded) (answer-Counts (ingester.ingest 0 raw s) c)
  ]

  handle_ingest-Counts :
      (r : Request) (s : S) (c : Counters)
      → let y = handle_ingest decoder ingester true r s c in Counts (reported y.2) c y.1
  unfolding handle_ingest
  handle_ingest-Counts r s c = elim (Bool-cases (is_post r)) [
    | inr other ↦ rw other (omega arith)
    | inl post ↦ elim (Bool-cases (is_json r)) [
      | inl json ↦ rw (post, json) (body-Counts r.body s c)
      | inr text ↦ rw (post, text) (omega arith)
    ]
  ]

module _ {S : Type 0} (ingester : Ingester S) where
  -- The loop counts what it adds to the response.
  bulk_item-Counts :
      (i : ℕ) (e : Option Error) (c : Counters) (r : BulkResponse)
      → let (c', r') = bulk_item ingester true i e c r in
        ingested c' + r.accepted ≡ ingested c + r'.accepted
  unfolding bulk_item
  bulk_item-Counts i none c r = omega arith
  bulk_item-Counts i (some e) c r = ground arith

  bulk_loop-Counts :
      (i : ℕ) (evs : List RawEvent) (s : S) (c : Counters) (r : BulkResponse)
      → let x = bulk_loop ingester true i evs s c r in
        ingested x.1 + r.accepted ≡ ingested c + x.2.accepted
  unfolding bulk_loop
  bulk_loop-Counts i [] s c r = refl
  bulk_loop-Counts i (ev ∷ evs) s c r =
      let (s', e) = ingester.ingest i ev s in
      let (c', r') = bulk_item ingester true i e c r in
      omega (arith, bulk_item-Counts i e c r, bulk_loop-Counts (suc i) evs s' c' r')

  bulk_answer_reports : (r : BulkResponse) → reported (bulk_answer ingester true r) ≡ r.accepted
  unfolding bulk_answer
  bulk_answer_reports r = ground arith

  bulk_events-Counts :
      (cfg : ServerConfig) (evs : List RawEvent) (s : S) (c : Counters)
      → let x = bulk_events ingester true cfg evs s c in Counts (reported x.2) c x.1
  unfolding bulk_events empty_response
  bulk_events-Counts cfg [] s c = omega arith
  bulk_events-Counts cfg (ev ∷ evs) s c =
      elim (Bool-cases (ltb (max_bulk cfg.max_bulk_events) (length (ev ∷ evs)))) [
        | inl many ↦ rw many (omega arith)
        | inr few ↦
            let x = bulk_loop ingester true 0 (ev ∷ evs) s c empty_response in
            rw (few, bulk_answer_reports x.2)
              (omega (arith, bulk_loop-Counts 0 (ev ∷ evs) s c empty_response))
      ]

  bulk_body-Counts :
      (decoder : Decoder) (cfg : ServerConfig) (body : BodyRead) (s : S) (c : Counters)
      → let x = bulk_body ingester true decoder cfg body s c in Counts (reported x.2) c x.1
  bulk_body-Counts decoder cfg (read_failed e) s c = Counts-none _ c (body_error_reports e)
  bulk_body-Counts decoder cfg (read t) s c = elim (Option-cases (decoder.decode_bulk t)) [
    | inl d ↦ rw (d, bulk_decoded) (omega arith)
    | inr (evs, d) ↦ rw (d, bulk_decoded) (bulk_events-Counts cfg evs s c)
  ]

  handle_bulk-Counts :
      (decoder : Decoder) (cfg : ServerConfig) (r : Request) (s : S) (c : Counters)
      → let x = handle_bulk ingester true decoder cfg r s c in Counts (reported x.2) c x.1
  unfolding handle_bulk
  handle_bulk-Counts decoder cfg r s c = elim (Bool-cases (is_post r)) [
    | inr other ↦ rw other (omega arith)
    | inl post ↦ elim (Bool-cases (is_json r)) [
      | inl json ↦ rw (post, json) (bulk_body-Counts decoder cfg r.body s c)
      | inr text ↦ rw (post, text) (omega arith)
    ]
  ]

module _ {S : Type 0} (h : Handler S) where
  -- The same handler, made with metrics.
  abbrev pub metered : Handler S
  metered = record h { metrics = true }

  abbrev Truthful : Site S → Site S × Response → Type 0
  Truthful site x = Counts (reported x.1) site.counters x.0.counters

  limit-Truthful :
      (name : Text) (next : Site S → Site S × Response) (site : Site S)
      → ((site' : Site S) → Truthful site' (next site'))
      → Truthful site (through_limiter metered name next site)
  limit-Truthful name next site good = elim (Bool-cases (with_limiter name site.limiters).1) [
    | inl passes ↦ rw passes (good (record site { limiters = (with_limiter name site.limiters).0 }))
    | inr full ↦ rw full (Counts-none _ site.counters refl)
  ]

  route_to-Truthful :
      PlainAnswers h
      → (route : Option Route) (path : Text) (r : Request) (site : Site S)
      → Truthful site (route_to metered route path r site)
  route_to-Truthful plain (some events) path r site =
      limit-Truthful (txt "ingest") (ingest_route metered r) site
        (λ s. handle_ingest-Counts h.decoder h.ingester r s.inner s.counters)
  route_to-Truthful plain (some bulk) path r site =
      limit-Truthful (txt "bulk") (bulk_route metered r) site
        (λ s. handle_bulk-Counts h.ingester h.decoder h.cfg r s.inner s.counters)
  route_to-Truthful plain (some metrics) path r site =
      limit-Truthful (txt "metrics") (λ s. (s, handle_metrics h.platform h.querier r)) site
        (λ s. Counts-none _ s.counters (handle_metrics_reports h.platform h.querier r))
  route_to-Truthful plain (some health) path r site =
      limit-Truthful (txt "health") (λ s. (s, handle_health h.checker r)) site
        (λ s. Counts-none _ s.counters (handle_health_reports h.checker r))
  route_to-Truthful plain (some prometheus) path r site = Counts-none _ site.counters (plain.0 r)
  route_to-Truthful plain none path r site = Counts-none _ site.counters (plain.1 path r)

  -- One request.
  pub serve-Truthful :
      PlainAnswers h
      → (id path : Text) (r : Request) (site : Site S)
      → let x = serve metered id path r site in Counts (reported x.1) site.counters x.0.counters
  unfolding serve with_middleware limit_body
  serve-Truthful plain id path r site =
      elim (Bool-cases (ltb_ℤ (pos (body_limit h.cfg.max_body_bytes)) r.content_length)) [
        | inl long ↦ rw long (Counts-none _ site.counters refl)
        | inr fits ↦ rw fits (
            route_to-Truthful plain (find_route path (patterns true)) path
              (limit_body h.cfg.max_body_bytes r) site)
      ]
