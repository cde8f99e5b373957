-- ===== src/Ingest/Gate.antt =====
-- What passes `Ingest` into the buffer, and what its errors are (internal/ingest/usecase.go).
use chronometrics.Common.{
  ℕ, ◌/◌, ◌≤◌, ◌<◌, ◌≡◌, refl, ap, ◌∙◌, ◌⊎◌, inl, inr, Bool, true, false, Option, none, some, [],
  ◌∷◌, ◌++◌, arith, ltb, Bool-cases, Option-cases, length, length-append, suc,
}
use chronometrics.Common.Int.{ℤ, pos, i64_max, IsInt64}
use chronometrics.Common.{txt}
use chronometrics.Common.Numerals.{decimal}
use chronometrics.Errors.{
  Error, sentinel, wrapped, same_sentinel, is_validation_error, is_publish_failed,
  err_publish_failed,
}
use chronometrics.Errors.Laws.{finish_validation-kind}
use chronometrics.Domain.Json.{Platform, Result-cases, ok, err}
use chronometrics.Domain.Event.{RawEvent, Event, collect, validate}
use chronometrics.Domain.Event.Reports.{reports-validate}
use chronometrics.Domain.Event.Window.{IsAcceptable, validate-eq-none}
use chronometrics.Domain.Payload.{to_event}
use chronometrics.Buffer.{Buffer, publish}
use chronometrics.Ingest.{
  buffer_publisher, UseCase, publish_failure, publish_event, publish_raw, ingest,
}

publish-cases :
    (c : Bool) (ev : Event) (b : Buffer)
    → ((c ≡ false)
        × (length b.ch < b.capacity)
        × (publish c ev b ≡ (record b { ch = b.ch ++ ev ∷ [] }, none)))
      ⊎ ((e : Error) × ((c ≡ true) ⊎ (b.capacity ≤ length b.ch))
          × (publish c ev b ≡ (b, some e))
          × (is_validation_error e ≡ false))
unfolding publish is_validation_error
publish-cases true ev b =
    inr (wrapped (txt "context cancelled") (sentinel err_publish_failed), inl refl, refl, refl)
publish-cases false ev b = elim (Bool-cases (ltb (length b.ch) b.capacity)) [
  | inl room ↦ inl (refl, ground arith, rw room refl)
  | inr full ↦ inr (at_capacity, inr (ground arith), rw full refl, refl)
]
  where
    at_capacity : Error
    at_capacity =
        wrapped (txt "buffer at capacity (" ++ (decimal b.capacity ++ txt ")"))
          (sentinel err_publish_failed)

module _ (p : Platform) (uc : UseCase) (now : ℕ) (c : Bool) (raw : RawEvent) (b : Buffer) where
  -- What `Ingest` does to the buffer and what it returns.
  data Outcome : Buffer × Option Error → Type 0 where
    accepted :
        (r : Buffer × Option Error) (ev : Event)
        → validate p now (some raw) uc.max_future uc.max_past ≡ none
        → to_event p raw ≡ ok ev
        → c ≡ false
        → length b.ch < b.capacity
        → r ≡ (record b { ch = b.ch ++ ev ∷ [] }, none)
        → Outcome r
    invalid :
        (r : Buffer × Option Error) (e : Error)
        → validate p now (some raw) uc.max_future uc.max_past ≡ some e
        → r ≡ (b, some e)
        → Outcome r
    unencodable :
        (r : Buffer × Option Error) (e : Error)
        → validate p now (some raw) uc.max_future uc.max_past ≡ none
        → to_event p raw ≡ err e
        → r ≡ (b, some e)
        → Outcome r
    refused :
        (r : Buffer × Option Error) (e : Error)
        → validate p now (some raw) uc.max_future uc.max_past ≡ none
        → (c ≡ true) ⊎ (b.capacity ≤ length b.ch)
        → is_publish_failed e ≡ true
        → is_validation_error e ≡ false
        → r ≡ (b, some e)
        → Outcome r

  ingest_publish-Outcome :
      (ev : Event)
      → validate p now (some raw) uc.max_future uc.max_past ≡ none
      → to_event p raw ≡ ok ev
      → Outcome (publish_event p buffer_publisher uc c ev b)
  unfolding publish_event is_publish_failed is_validation_error same_sentinel
  ingest_publish-Outcome ev v m = elim (publish-cases c ev b) [
    | inl (live, room, e) ↦ accepted _ ev v m live room (ground (arith, e))
    | inr (x, why, e, plain) ↦
        refused _ (publish_failure x) v why refl (ground (arith, plain)) (ground (arith, e))
  ]

  ingest-Outcome : Outcome (ingest p buffer_publisher uc now c (some raw) b)
  unfolding ingest
  ingest-Outcome = elim (Option-cases (validate p now (some raw) uc.max_future uc.max_past)) [
    | inr (x, v) ↦ rw (v, ingest) (invalid _ x v refl)
    | inl v ↦ elim (Result-cases (to_event p raw)) [
      | inl (ev, m) ↦ rw (v, ingest, m, publish_raw) (ingest_publish-Outcome ev v m)
      | inr (x, m) ↦ rw (v, ingest, m, publish_raw) (unencodable _ x v m refl)
    ]
  ]

  Outcome-none :
      {r : Buffer × Option Error}
      → Outcome r
      → r.1 ≡ none
      → (ev : Event) × (validate p now (some raw) uc.max_future uc.max_past ≡ none)
        × (to_event p raw ≡ ok ev)
        × (c ≡ false)
        × (length b.ch < b.capacity)
        × (r.0 ≡ record b { ch = b.ch ++ ev ∷ [] })
  Outcome-none (accepted r ev v m live room q) h = (ev, v, m, live, room, ap (λ x. x.0) q)
  Outcome-none (invalid r e v q) h = absurd (ground arith)
  Outcome-none (unencodable r e v m q) h = absurd (ground arith)
  Outcome-none (refused r e v why f n q) h = absurd (ground arith)

  Outcome-some :
      {r : Buffer × Option Error} {x : Error}
      → Outcome r
      → r.1 ≡ some x
      → (r.0 ≡ b)
        × ((validate p now (some raw) uc.max_future uc.max_past ≡ some x)
            ⊎ (to_event p raw ≡ err x)
            ⊎ ((is_publish_failed x ≡ true)
                × (is_validation_error x ≡ false)
                × ((c ≡ true) ⊎ (b.capacity ≤ length b.ch))))
  Outcome-some (accepted r ev v m live room q) h = absurd (ground arith)
  Outcome-some (invalid r e v q) h = (ap (λ x. x.0) q, inl (ground arith))
  Outcome-some (unencodable r e v m q) h = (ap (λ x. x.0) q, inr (inl (ground arith)))
  Outcome-some (refused r e v why f n q) h = (ap (λ x. x.0) q, inr (inr (ground arith)))

-- Into the in-memory buffer, with windows of `f` nanoseconds ahead and `q` back that start after
-- 1970: if `ingest` returns no error, the raw event has an acceptable name, user id and time, it
-- could be converted, the context was live, there was room, and the only change is that the
-- converted event stands at the end of the channel.
pub ingest_accepts :
    (p : Platform) (f q now : ℕ) (c : Bool) (raw : RawEvent) (b : Buffer)
    → now ≤ i64_max
    → f ≤ i64_max
    → q / 1000000 ≤ now
    → IsInt64 raw.timestamp
    → (ingest p buffer_publisher
        (record { max_future = pos f; max_past = pos q })
        now
        c
        (some raw)
        b).1
      ≡ none
    → (ev : Event) × IsAcceptable now raw f q
      × (to_event p raw ≡ ok ev)
      × (c ≡ false)
      × (length b.ch < b.capacity)
      × ((ingest p buffer_publisher
            (record { max_future = pos f; max_past = pos q })
            now
            c
            (some raw)
            b).0
          ≡ record b { ch = b.ch ++ ev ∷ [] })
ingest_accepts p f q now c raw b hn hf hq hr h =
    let uc : UseCase = record { max_future = pos f; max_past = pos q } in
    let (ev, v, m, live, room, e) =
      Outcome-none p uc now c raw b (ingest-Outcome p uc now c raw b) h in
    (ev, (validate-eq-none p now raw f q hn hf hq hr).0 v, m, live, room, e)

validation-kind :
    (p : Platform) (now : ℕ) (raw : RawEvent) (f q : ℤ) (x : Error)
    → validate p now (some raw) f q ≡ some x
    → (is_validation_error x ≡ true) × (is_publish_failed x ≡ false)
unfolding is_publish_failed validate
validation-kind p now raw f q x h = (
  finish_validation-kind (collect p now raw f q) x h,
  (rw h at (reports-validate p now raw f q err_publish_failed)),
)

-- Into the in-memory buffer, on a raw event that is not nil: if `ingest` returns an error, the buffer
-- is unchanged, and the error is a validation error without the publish sentinel, or the error of
-- the conversion, or a publish failure that is no validation error, given for a done context or a
-- full channel.
pub ingest_rejects :
    (p : Platform) (uc : UseCase) (now : ℕ) (c : Bool) (raw : RawEvent) (b : Buffer) (x : Error)
    → (ingest p buffer_publisher uc now c (some raw) b).1 ≡ some x
    → ((ingest p buffer_publisher uc now c (some raw) b).0 ≡ b)
      × (((is_validation_error x ≡ true) × (is_publish_failed x ≡ false))
          ⊎ (to_event p raw ≡ err x)
          ⊎ ((is_publish_failed x ≡ true)
              × (is_validation_error x ≡ false)
              × ((c ≡ true) ⊎ (b.capacity ≤ length b.ch))))
ingest_rejects p uc now c raw b x h =
    let (same, why) = Outcome-some p uc now c raw b (ingest-Outcome p uc now c raw b) h in
    (
      same,
      elim why [
        | inl v ↦ inl (validation-kind p now raw uc.max_future uc.max_past x v)
        | inr other ↦ inr other
      ],
    )

-- What `ingest` adds to the channel, which had room for it.
pub ingest_pushes :
    (p : Platform) (uc : UseCase) (now : ℕ) (c : Bool) (raw : RawEvent) (b : Buffer)
    → (ingest p buffer_publisher uc now c (some raw) b).1 ≡ none
    → (ev : Event) × (length b.ch < b.capacity)
      × ((ingest p buffer_publisher uc now c (some raw) b).0 ≡ record b { ch = b.ch ++ ev ∷ [] })
ingest_pushes p uc now c raw b h =
    let (ev, v, m, live, room, e) =
      Outcome-none p uc now c raw b (ingest-Outcome p uc now c raw b) h in
    (ev, room, e)

-- What `ingest` does to the length of the channel.
pub ingest_grows :
    (p : Platform) (uc : UseCase) (now : ℕ) (c : Bool) (raw : RawEvent) (b : Buffer)
    → (ingest p buffer_publisher uc now c (some raw) b).1 ≡ none
    → length (ingest p buffer_publisher uc now c (some raw) b).0.ch ≡ suc (length b.ch)
ingest_grows p uc now c raw b h =
    let (ev, v, m, live, room, e) =
      Outcome-none p uc now c raw b (ingest-Outcome p uc now c raw b) h in
    ap (λ (x : Buffer). length x.ch) e ∙ omega (arith, length-append b.ch (ev ∷ []))
