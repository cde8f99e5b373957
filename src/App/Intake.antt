-- ===== src/App/Intake.antt =====
-- The events of a running service: what `Publish` takes comes from a call of `Ingest`
-- (internal/ingest/usecase.go), with the checks of internal/domain/event.go.
pub mod Sound
use chronometrics.Common.{ℕ, ◌≤◌, ◌≡◌, Bool, none, some}
use chronometrics.Common.Int.{pos, IsInt64}
use chronometrics.Domain.Json.{Platform, ok}
use chronometrics.Domain.Event.{RawEvent, Event}
use chronometrics.Domain.Event.Window.{IsAcceptable}
use chronometrics.Domain.Payload.{to_event}
use chronometrics.Buffer.{Buffer}
use chronometrics.Ingest.{UseCase, buffer_publisher, ingest}
use chronometrics.Buffer.Steps.{
  World, Step, admit, received, ticked, noticed, sent, drained_one, took, wrote, gave_up, stopped,
  closed, Reach, here, more,
}

-- One call of `Ingest`: the clock's reading, whether its context is done, and the raw event.
pub record Call : Type 0 where
  pub now : ℕ
  pub cancelled : Bool
  pub raw : RawEvent

-- The clock's reading is one of those between `since` and `until`, and the timestamp is an `int64`.
pub record IsTimely (since until : ℕ) (c : Call) : Type 0 where
  pub after : since ≤ c.now
  pub before : c.now ≤ until
  pub stamp : IsInt64 c.raw.timestamp

module _ (p : Platform) (f q since until : ℕ) where
  -- `New` of the use case, with windows of `f` nanoseconds ahead and `q` back.
  abbrev pub use_case : UseCase
  use_case = record { max_future = pos f; max_past = pos q }

  -- The call took the buffer to another without an error.
  abbrev pub Admitting : Buffer → Buffer → Type 0
  Admitting b b' =
      (c : Call) × (IsTimely since until c
        × (ingest p buffer_publisher use_case c.now c.cancelled (some c.raw) b ≡ (b', none)))

  -- A step that takes an event is a call of `Ingest`.
  abbrev pub Calls : {w t : World} → Step w t → Type 0
  Calls (admit w ev b q') = Admitting w.buffer b
  Calls (received w b q') = Unit
  Calls (ticked w b q') = Unit
  Calls (noticed w b q') = Unit
  Calls (sent w b q') = Unit
  Calls (drained_one w b q') = Unit
  Calls (took w b batch rest g q') = Unit
  Calls (wrote w before behind batch q') = Unit
  Calls (gave_up w before behind batch q') = Unit
  Calls (stopped w b q') = Unit
  Calls (closed w) = Unit

  -- All that was published in a run was published by `Ingest`.
  abbrev pub Ingested : {w t : World} → Reach w t → Type 0
  Ingested here = Unit
  Ingested (more r s) = Ingested r × Calls s
