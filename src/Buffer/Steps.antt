-- ===== src/Buffer/Steps.antt =====
-- The buffer as a whole (internal/buffer/buffer.go): `Publish`, `Close`, `runFlush` and the
-- workers in any interleaving, as a step relation, with a history of what passed through.
pub mod Sizes
pub mod Bounds
pub mod Order
pub mod History
pub mod Content
pub mod Later
pub mod Ended
pub mod Work
pub mod Progress
pub mod Closing
pub mod Shutdown
use chronometrics.Common.{
  ◌≡◌, Bool, true, false, Option, none, some, List, [], ◌∷◌, ◌++◌, if◌then◌else◌,
}
use chronometrics.Domain.Event.{Event}
use chronometrics.Buffer.{
  Buffer, Runner, collecting, sending, draining, exited, not_started, crashed, publish, receive,
  tick, notice_done, send, drain_step, take_batch, finish_write, stop_worker, close,
}

-- `accepted`: the events that `Publish` took; `late`: those of them taken after `runFlush` had
-- returned; `dispatched`: the batches sent; `taken`: those that a worker took; `flushed` and
-- `dropped`: those whose write succeeded, or failed on every attempt.
pub record World : Type 0 where
  pub buffer : Buffer
  pub open buffer use *
  pub accepted : List Event
  pub late : List Event
  pub dispatched : List (List Event)
  pub taken : List (List Event)
  pub flushed : List (List Event)
  pub dropped : List (List Event)

unfoldable pub initial : Buffer → World
initial b = record {
  buffer = b;
  accepted = [];
  late = [];
  dispatched = [];
  taken = [];
  flushed = [];
  dropped = [];
}

abbrev pub note_late : Runner → Event → List Event → List Event
note_late exited ev late = late ++ ev ∷ []
note_late _ ev late = late

abbrev pub sent_by : Runner → List (List Event) → List (List Event)
sent_by (sending out next) dispatched = dispatched ++ out ∷ []
sent_by _ dispatched = dispatched

pub data Step : World → World → Type 0 where
  admit :
      (w : World) (ev : Event) (b : Buffer)
      → publish false ev w.buffer ≡ (b, none)
      → Step w (record w {
        buffer = b;
        accepted = w.accepted ++ ev ∷ [];
        late = note_late w.runner ev w.late;
      })
  received : (w : World) (b : Buffer) → receive w.buffer ≡ some b → Step w (record w { buffer = b })
  ticked : (w : World) (b : Buffer) → tick w.buffer ≡ some b → Step w (record w { buffer = b })
  noticed :
      (w : World) (b : Buffer) → notice_done w.buffer ≡ some b → Step w (record w { buffer = b })
  sent :
      (w : World) (b : Buffer)
      → send w.buffer ≡ some b
      → Step w (record w { buffer = b; dispatched = sent_by w.runner w.dispatched })
  drained_one :
      (w : World) (b : Buffer) → drain_step w.buffer ≡ some b → Step w (record w { buffer = b })
  took :
      (w : World) (b : Buffer) (batch : List Event) (rest : List (List Event))
      → w.flush_trigger ≡ batch ∷ rest
      → take_batch w.buffer ≡ some b
      → Step w (record w { buffer = b; taken = w.taken ++ batch ∷ [] })
  wrote :
      (w : World) (before behind : List (List Event)) (batch : List Event)
      → w.in_flight ≡ before ++ batch ∷ behind
      → Step w (record w {
        buffer = finish_write before behind w.buffer;
        flushed = w.flushed ++ batch ∷ [];
      })
  gave_up :
      (w : World) (before behind : List (List Event)) (batch : List Event)
      → w.in_flight ≡ before ++ batch ∷ behind
      → Step w (record w {
        buffer = finish_write before behind w.buffer;
        dropped = w.dropped ++ batch ∷ [];
      })
  stopped :
      (w : World) (b : Buffer) → stop_worker w.buffer ≡ some b → Step w (record w { buffer = b })
  closed : (w : World) → Step w (record w { buffer = close w.buffer })

pub data Reach (w : World) : World → Type 0 where
  here : Reach w w
  more : {t u : World} → Reach w t → Step t u → Reach w u

-- One run after another.
abbrev pub join : {w u t : World} → Reach w u → Reach u t → Reach w t
join r here = r
join r (more r' s) = more (join r r') s
