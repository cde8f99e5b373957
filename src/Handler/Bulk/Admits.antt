-- ===== src/Handler/Bulk/Admits.antt =====
-- What POST /events/bulk adds to the buffer (internal/handler/bulk.go).
use native.Mathlib.Nat.{zero-add}
use chronometrics.Common.{
  ℕ, suc, ◌+◌, ◌≡◌, refl, inl, inr, Bool, Bool-cases, some, Option-cases, List, [], ◌∷◌, arith, ltb,
  length,
}
use chronometrics.Domain.Json.{Platform}
use chronometrics.Domain.Event.{RawEvent}
use chronometrics.Buffer.{Buffer}
use chronometrics.Ingest.{UseCase, ingest, buffer_publisher}
use chronometrics.Ingest.Gate.{ingest_rejects}
use chronometrics.Errors.{Error}
use chronometrics.Handler.Http.{
  BodyRead, read, read_failed, Request, BulkResponse, Counters, Decoder, ServerConfig, Ingester,
  body_error, is_post, is_json,
}
use chronometrics.Handler.Adapter.{use_case_adapter}
use chronometrics.Handler.Admission.{
  reported, Admits, Admits-none, Admits-same, Admits-trans, ingest-Admits,
}
use chronometrics.Handler.Bulk.{
  max_bulk, bulk_item, bulk_loop, bulk_answer, bulk_events, bulk_decoded, bulk_body, handle_bulk,
  empty_response,
}

body_error_reports : (e : Error) → reported (body_error e) ≡ 0
body_error_reports e = ground arith

bulk_answer_reports :
    (i : Ingester Buffer) (m : Bool) (r : BulkResponse) → reported (bulk_answer i m r) ≡ r.accepted
unfolding bulk_answer
bulk_answer_reports i m r = ground arith

module _ (p : Platform) (uc : UseCase) (now : ℕ → ℕ) (cancelled : ℕ → Bool) (m : Bool) where
  -- So many more events are accepted, and stand at the end of the channel.
  abbrev Grows : Buffer → BulkResponse → Buffer → BulkResponse → Type 0
  Grows b r b' r' = (n : ℕ) × ((r.accepted + n ≡ r'.accepted) × Admits n b b')

  Grows-trans :
      (b b' b'' : Buffer) (r r' r'' : BulkResponse)
      → Grows b r b' r'
      → Grows b' r' b'' r''
      → Grows b r b'' r''
  Grows-trans b b' b'' r r' r'' (k, (e, x)) (l, (f, y)) =
      (k + l, (omega (arith, e, f), Admits-trans k l b b' b'' x y))

  bulk_item-Grows :
      (i : ℕ) (ev : RawEvent) (b : Buffer) (c : Counters) (r : BulkResponse)
      → let (b', e) = ingest p buffer_publisher uc (now i) (cancelled i) (some ev) b in
        Grows b r b' (bulk_item (use_case_adapter p uc now cancelled) m i e c r).1
  unfolding bulk_item
  bulk_item-Grows i ev b c r =
      elim (Option-cases (ingest p buffer_publisher uc (now i) (cancelled i) (some ev) b).1) [
        | inl h ↦
            rw (h, bulk_item) (1, (omega arith, ingest-Admits p uc (now i) (cancelled i) ev b h))
        | inr (x, h) ↦
            rw (h, bulk_item)
              (
                0,
                (
                  omega arith,
                  Admits-same 0 b _ (ingest_rejects p uc (now i) (cancelled i) ev b x h).0 refl,
                ),
              )
      ]

  bulk_loop-Grows :
      (i : ℕ) (evs : List RawEvent) (b : Buffer) (c : Counters) (r : BulkResponse)
      → let x = bulk_loop (use_case_adapter p uc now cancelled) m i evs b c r in Grows b r x.0 x.2
  unfolding bulk_loop
  bulk_loop-Grows i [] b c r = (0, (omega arith, Admits-none 0 b refl))
  bulk_loop-Grows i (ev ∷ evs) b c r =
      let (b', e) = ingest p buffer_publisher uc (now i) (cancelled i) (some ev) b in
      let (c', r') = bulk_item (use_case_adapter p uc now cancelled) m i e c r in
      let x = bulk_loop (use_case_adapter p uc now cancelled) m (suc i) evs b' c' r' in
      Grows-trans b b' x.0 r r' x.2 (bulk_item-Grows i ev b c r)
        (bulk_loop-Grows (suc i) evs b' c' r')

  bulk_events-Admits :
      (cfg : ServerConfig) (evs : List RawEvent) (b : Buffer) (c : Counters)
      → let x = bulk_events (use_case_adapter p uc now cancelled) m cfg evs b c in
        Admits (reported x.2) b x.0
  unfolding bulk_events empty_response
  bulk_events-Admits cfg [] b c = Admits-none _ b refl
  bulk_events-Admits cfg (ev ∷ evs) b c =
      elim (Bool-cases (ltb (max_bulk cfg.max_bulk_events) (length (ev ∷ evs)))) [
        | inl many ↦ rw many (Admits-none _ b refl)
        | inr fits ↦
            let ingester = use_case_adapter p uc now cancelled in
            let (n, (e, x)) = bulk_loop-Grows 0 (ev ∷ evs) b c empty_response in
            rw fits (
              rw
                (
                  bulk_answer_reports ingester m
                      (bulk_loop ingester m 0 (ev ∷ evs) b c empty_response).2,
                  ← e,
                  zero-add n,
                )
                x)
      ]

  body-Admits :
      (decoder : Decoder) (cfg : ServerConfig) (body : BodyRead) (b : Buffer) (c : Counters)
      → let x = bulk_body (use_case_adapter p uc now cancelled) m decoder cfg body b c in
        Admits (reported x.2) b x.0
  body-Admits decoder cfg (read_failed e) b c = Admits-none _ b (body_error_reports e)
  body-Admits decoder cfg (read t) b c = elim (Option-cases (decoder.decode_bulk t)) [
    | inl d ↦ rw (d, bulk_decoded) (Admits-none _ b refl)
    | inr (evs, d) ↦ rw (d, bulk_decoded) (bulk_events-Admits cfg evs b c)
  ]

  pub handle_bulk-Admits :
      (decoder : Decoder) (cfg : ServerConfig) (r : Request) (b : Buffer) (c : Counters)
      → let x = handle_bulk (use_case_adapter p uc now cancelled) m decoder cfg r b c in
        Admits (reported x.2) b x.0
  unfolding handle_bulk
  handle_bulk-Admits decoder cfg r b c = elim (Bool-cases (is_post r)) [
    | inl post ↦ elim (Bool-cases (is_json r)) [
      | inl json ↦ rw (post, json) (body-Admits decoder cfg r.body b c)
      | inr text ↦ rw (post, text) (Admits-none _ b refl)
    ]
    | inr other ↦ rw other (Admits-none _ b refl)
  ]
