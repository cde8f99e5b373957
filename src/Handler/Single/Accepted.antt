-- ===== src/Handler/Single/Accepted.antt =====
-- What POST /events does to the buffer (internal/handler/ingest.go).
use chronometrics.Common.{
  ℕ, ◌/◌, ◌≤◌, ◌<◌, ◌≡◌, ◌≢◌, refl, ◌∙◌, inl, inr, Bool, none, some, [], ◌∷◌, ◌++◌, arith, Text,
  if◌then◌else◌, Bool-cases, Option-cases, length,
}
use chronometrics.Common.Int.{pos, i64_max, IsInt64}
use chronometrics.Errors.{Error, is, err_publish_failed, is_validation_error}
use chronometrics.Domain.Json.{Platform, ok}
use chronometrics.Domain.Event.{RawEvent, Event}
use chronometrics.Domain.Event.Window.{IsAcceptable}
use chronometrics.Domain.Payload.{to_event}
use chronometrics.Buffer.{Buffer}
use chronometrics.Ingest.{UseCase}
use chronometrics.Ingest.Gate.{ingest_accepts, ingest_rejects}
use chronometrics.Handler.Http.{
  BodyRead, read, read_failed, Request, Response, Counters, Ingester, Decoder, body_error, is_post,
  is_json,
}
use chronometrics.Handler.Adapter.{use_case_adapter}
use chronometrics.Handler.Single.{ingest_failed, answer, decoded, with_body, handle_ingest}

-- The statuses of an error of the use case.
ingest_failed-status :
    (m : Bool) (e : Error) (c : Counters)
    → (ingest_failed m e c).1.status
      ≡ (if is_validation_error e then 400 else if is err_publish_failed e then 503 else 500)
unfolding ingest_failed
ingest_failed-status m e c = ground arith

refused_status : (m : Bool) (e : Error) (c : Counters) → (ingest_failed m e c).1.status ≢ 202
refused_status m e c = ground (arith, ingest_failed-status m e c)

body_error_status : (e : Error) → (body_error e).status ≢ 202
body_error_status e = ground arith

module _ {S : Type 0} (decoder : Decoder) (ingester : Ingester S) (m : Bool) (s : S)
    (c : Counters) where
  -- Either the use case accepted the decoded event and the status is 202, or the status is another
  -- and the state is the old one or that of a call of the use case that failed.
  pub data Answered (body : BodyRead) : S × Counters × Response → Type 0 where
    accepted :
        (x : S × Counters × Response) (t : Text) (raw : RawEvent)
        → body ≡ read t
        → decoder.decode_event t ≡ some raw
        → (ingester.ingest 0 raw s).1 ≡ none
        → x.0 ≡ (ingester.ingest 0 raw s).0
        → x.2.status ≡ 202
        → Answered body x
    failed :
        (x : S × Counters × Response) (raw : RawEvent) (e : Error)
        → (ingester.ingest 0 raw s).1 ≡ some e
        → x.0 ≡ (ingester.ingest 0 raw s).0
        → x.2.status ≢ 202
        → Answered body x
    turned_away : (x : S × Counters × Response) → x.0 ≡ s → x.2.status ≢ 202 → Answered body x

  answer-Answered :
      (t : Text) (raw : RawEvent)
      → decoder.decode_event t ≡ some raw
      → Answered (read t) (answer decoder ingester m (ingester.ingest 0 raw s) c)
  answer-Answered t raw d = elim (Option-cases (ingester.ingest 0 raw s).1) [
    | inl e ↦ rw (e, answer) (accepted _ t raw refl d e refl refl)
    | inr (x, e) ↦ rw (e, answer) (failed _ raw x e refl (refused_status m x c))
  ]

  body-Answered : (body : BodyRead) → Answered body (with_body decoder ingester m body s c)
  body-Answered (read_failed e) = turned_away _ refl (body_error_status e)
  body-Answered (read t) = elim (Option-cases (decoder.decode_event t)) [
    | inl d ↦ rw (d, decoded) (turned_away _ refl (ground arith))
    | inr (raw, d) ↦ rw (d, decoded) (answer-Answered t raw d)
  ]

  pub handle_ingest-Answered :
      (r : Request) → Answered r.body (handle_ingest decoder ingester m r s c)
  unfolding handle_ingest
  handle_ingest-Answered r = elim (Bool-cases (is_post r)) [
    | inl post ↦ elim (Bool-cases (is_json r)) [
      | inl json ↦ rw (post, json) (body-Answered r.body)
      | inr text ↦ rw (post, text) (turned_away _ refl (ground arith))
    ]
    | inr other ↦ rw other (turned_away _ refl (ground arith))
  ]

abbrev pub windows : ℕ → ℕ → UseCase
windows f q = record { max_future = pos f; max_past = pos q }

pub Answered-accepted :
    {S : Type 0} {decoder : Decoder} {ingester : Ingester S} {s : S} {body : BodyRead}
    {x : S × Counters × Response} (m : Bool) (c : Counters)
    → Answered decoder ingester m s c body x
    → x.2.status ≡ 202
    → (t : Text) × (raw : RawEvent) × (body ≡ read t)
      × (decoder.decode_event t ≡ some raw)
      × ((ingester.ingest 0 raw s).1 ≡ none)
      × (x.0 ≡ (ingester.ingest 0 raw s).0)
Answered-accepted m c (accepted x t raw e d i q h) k = (t, raw, e, d, i, q)
Answered-accepted m c (failed x raw e i q h) k = absurd (h k)
Answered-accepted m c (turned_away x q h) k = absurd (h k)

-- POST /events over the in-memory buffer, with windows that start after 1970 and a decoder whose
-- timestamps are `int64` values: where the status is 202, the body decoded to an acceptable event,
-- there was room in the channel, and the converted event now stands at its end.
pub accepted_event :
    (p : Platform) (decoder : Decoder) (m : Bool) (f q : ℕ) (now : ℕ → ℕ) (cancelled : ℕ → Bool)
    (r : Request) (b : Buffer) (c : Counters)
    → now 0 ≤ i64_max
    → f ≤ i64_max
    → q / 1000000 ≤ now 0
    → ((t : Text) (raw : RawEvent) → decoder.decode_event t ≡ some raw → IsInt64 raw.timestamp)
    → (handle_ingest decoder (use_case_adapter p (windows f q) now cancelled) m r b c).2.status
      ≡ 202
    → (t : Text) × (raw : RawEvent) × (ev : Event) × (r.body ≡ read t)
      × (decoder.decode_event t ≡ some raw)
      × IsAcceptable (now 0) raw f q
      × (to_event p raw ≡ ok ev)
      × (length b.ch < b.capacity)
      × ((handle_ingest decoder (use_case_adapter p (windows f q) now cancelled) m r b c).0
          ≡ record b { ch = b.ch ++ ev ∷ [] })
accepted_event p decoder m f q now cancelled r b c hn hf hq hd h =
    let ingester = use_case_adapter p (windows f q) now cancelled in
    let (t, raw, read_ok, d, e, same) =
      Answered-accepted m c (handle_ingest-Answered decoder ingester m b c r) h in
    let (ev, good, m', live, room, grown) =
      ingest_accepts p f q (now 0) (cancelled 0) raw b hn hf hq (hd t raw d) e in
    (t, raw, ev, read_ok, d, good, m', room, same ∙ grown)

-- POST /events over the in-memory buffer: where the status is not 202, the buffer is unchanged.
pub refused_event :
    (p : Platform) (decoder : Decoder) (m : Bool) (uc : UseCase) (now : ℕ → ℕ)
    (cancelled : ℕ → Bool) (r : Request) (b : Buffer) (c : Counters)
    → (handle_ingest decoder (use_case_adapter p uc now cancelled) m r b c).2.status ≢ 202
    → (handle_ingest decoder (use_case_adapter p uc now cancelled) m r b c).0 ≡ b
refused_event p decoder m uc now cancelled r b c h =
    unchanged (handle_ingest-Answered decoder (use_case_adapter p uc now cancelled) m b c r) h
  where
    unchanged :
        {x : Buffer × Counters × Response}
        → Answered decoder (use_case_adapter p uc now cancelled) m b c r.body x
        → x.2.status ≢ 202
        → x.0 ≡ b
    unchanged (accepted x t raw e d i q k) n = absurd (n k)
    unchanged (failed x raw e i q k) n = q ∙ (ingest_rejects p uc (now 0) (cancelled 0) raw b e i).0
    unchanged (turned_away x q k) n = q
