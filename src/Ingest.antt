-- ===== src/Ingest.antt =====
-- internal/ingest/usecase.go: the use case behind every ingested event.
pub mod Gate
use chronometrics.Common.{ℕ, ◌≡◌, Bool, Option, none, some, txt, List, []}
use chronometrics.Common.Int.{ℤ}
use chronometrics.Errors.{Error, sentinel, wrapped, joined, other, to_errors, err_publish_failed}
use chronometrics.Common.{◌∷◌}
use chronometrics.Domain.Json.{Platform, ok, err}
use chronometrics.Domain.Event.{RawEvent, Event, validate}
use chronometrics.Domain.Payload.{to_event}
use chronometrics.Buffer.{Buffer, publish}

-- `EventPublisher`, as far as the use case calls it, over the publisher's state. The flag says
-- that the context is done.
pub record EventPublisher (S : Type 0) : Type 0 where
  pub publish : Bool → Event → S → S × Option Error

-- internal/buffer.Buffer is the implementation.
abbrev pub buffer_publisher : EventPublisher Buffer
buffer_publisher = record { publish = publish }

pub record UseCase : Type 0 where
  pub max_future : ℤ
  pub max_past : ℤ

-- The publisher's error, joined with the sentinel.
abbrev pub publish_failure : Error → Error
publish_failure e =
    wrapped (txt "publish failed") (joined (to_errors (sentinel err_publish_failed ∷ e ∷ [])))

abbrev pub wrap_publish : Option Error → Option Error
wrap_publish none = none
wrap_publish (some e) = some (publish_failure e)

module _ (p : Platform) {S : Type 0} (pub' : EventPublisher S) (uc : UseCase) where
  publish_event : Bool → Event → S → S × Option Error
  publish_event cancelled ev s = let (s', e) = pub'.publish cancelled ev s in (s', wrap_publish e)

  publish_raw : Bool → RawEvent → S → S × Option Error
  unfolding publish_event
  publish_raw cancelled raw s = elim (to_event p raw) [
    | ok ev ↦ publish_event cancelled ev s
    | err e ↦ (s, some e)
  ]

  -- `Ingest`, at the clock reading `now`.
  unfoldable pub ingest : ℕ → Bool → Option RawEvent → S → S × Option Error
  unfolding publish_raw
  ingest now cancelled none s = (s, some (other (txt "raw event is nil")))
  ingest now cancelled (some raw) s = elim (validate p now (some raw) uc.max_future uc.max_past) [
    | some e ↦ (s, some e)
    | none ↦ publish_raw cancelled raw s
  ]
