-- ===== src/Handler/Single/Admits.antt =====
-- What POST /events adds to the buffer (internal/handler/ingest.go).
use chronometrics.Common.{ℕ, ◌≡◌, refl, inl, inr, Bool, Bool-cases, some, Option-cases, arith}
use chronometrics.Errors.{Error}
use chronometrics.Domain.Json.{Platform}
use chronometrics.Domain.Event.{RawEvent}
use chronometrics.Buffer.{Buffer}
use chronometrics.Ingest.{UseCase, ingest, buffer_publisher}
use chronometrics.Ingest.Gate.{ingest_rejects}
use chronometrics.Handler.Http.{
  BodyRead, read, read_failed, Request, Counters, Decoder, body_error, is_post, is_json,
}
use chronometrics.Handler.Adapter.{use_case_adapter}
use chronometrics.Handler.Admission.{reported, Admits, Admits-none, Admits-same, ingest-Admits}
use chronometrics.Handler.Single.{ingest_failed, answer, decoded, with_body, handle_ingest}

failed_reports : (m : Bool) (e : Error) (c : Counters) → reported (ingest_failed m e c).1 ≡ 0
unfolding ingest_failed
failed_reports m e c = ground arith

body_error_reports : (e : Error) → reported (body_error e) ≡ 0
body_error_reports e = ground arith

module _ (decoder : Decoder) (p : Platform) (uc : UseCase) (now : ℕ → ℕ) (cancelled : ℕ → Bool)
    (m : Bool) where
  answer-Admits :
      (raw : RawEvent) (b : Buffer) (c : Counters)
      → let x =
          answer decoder
            (use_case_adapter p uc now cancelled)
            m
            (ingest p buffer_publisher uc (now 0) (cancelled 0) (some raw) b)
            c in
        Admits (reported x.2) b x.0
  answer-Admits raw b c =
      elim (Option-cases (ingest p buffer_publisher uc (now 0) (cancelled 0) (some raw) b).1) [
        | inl h ↦ rw (h, answer) (ingest-Admits p uc (now 0) (cancelled 0) raw b h)
        | inr (x, h) ↦
            rw (h, answer)
              (Admits-same _ b _ (ingest_rejects p uc (now 0) (cancelled 0) raw b x h).0
                (failed_reports m x c))
      ]

  body-Admits :
      (body : BodyRead) (b : Buffer) (c : Counters)
      → let x = with_body decoder (use_case_adapter p uc now cancelled) m body b c in
        Admits (reported x.2) b x.0
  body-Admits (read_failed e) b c = Admits-none _ b (body_error_reports e)
  body-Admits (read t) b c = elim (Option-cases (decoder.decode_event t)) [
    | inl d ↦ rw (d, decoded) (Admits-none _ b refl)
    | inr (raw, d) ↦ rw (d, decoded) (answer-Admits raw b c)
  ]

  pub handle_ingest-Admits :
      (r : Request) (b : Buffer) (c : Counters)
      → let x = handle_ingest decoder (use_case_adapter p uc now cancelled) m r b c in
        Admits (reported x.2) b x.0
  unfolding handle_ingest
  handle_ingest-Admits r b c = elim (Bool-cases (is_post r)) [
    | inl post ↦ elim (Bool-cases (is_json r)) [
      | inl json ↦ rw (post, json) (body-Admits r.body b c)
      | inr text ↦ rw (post, text) (Admits-none _ b refl)
    ]
    | inr other ↦ rw other (Admits-none _ b refl)
  ]
