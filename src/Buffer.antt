-- ===== src/Buffer.antt =====
-- internal/buffer/buffer.go: the bounded buffer, the goroutine that collects batches (`runFlush`)
-- and the four workers (`flushOnce`). An operation that a goroutine performs is a function into
-- `Option`: `none` where it cannot happen in that state. Channels are lists, oldest entry first.
pub mod Steps
pub mod Retry
pub mod CloseCall
pub mod Observed
pub mod Outbox
use chronometrics.Common.{
  ℕ, zero, suc, ◌+◌, ◌≡◌, Bool, true, false, Option, none, some, List, [], ◌∷◌, ◌++◌, ltb, leb,
  if◌then◌else◌, length, Text, txt,
}
use chronometrics.Common.Int.{ℤ, pos, leb_ℤ, ltb_ℤ, scale}
use chronometrics.Common.Numerals.{decimal}
use chronometrics.Errors.{Error, sentinel, wrapped, err_publish_failed}
use chronometrics.Domain.Event.{Event}
use chronometrics.Config.Types.{BufferConfig}

-- Where `runFlush` goes after it has sent a batch: back to the main loop, or on with the drain.
pub data Next : Type 0 where
  resume : Next
  drain : Next

-- Where `runFlush` stands: not started, in the main `select` with a batch, blocked in `dispatch`
-- with a copy of the batch, in `drainBatch` with a batch, returned, or panicked in `NewTicker`.
pub data Runner : Type 0 where
  not_started : Runner
  collecting : List Event → Runner
  sending : List Event → Next → Runner
  draining : List Event → Runner
  exited : Runner
  crashed : Runner

pub record Buffer : Type 0 where
  pub ch : List Event
  pub capacity : ℕ
  pub batch_size : ℕ
  pub done : Bool
  pub runner : Runner
  pub flush_trigger : List (List Event)
  pub in_flight : List (List Event)  -- the batches that workers are writing
  pub idle_workers : ℕ
  pub stopped_workers : ℕ

-- A positive `int`, or a default.
abbrev pub positive_or : ℕ → ℤ → ℕ
positive_or d (pos zero) = d
positive_or d (pos (suc n)) = suc n
positive_or d _ = d

unfoldable pub new : BufferConfig → Buffer
new cfg = record {
  ch = [];
  capacity = positive_or 1000 cfg.capacity;
  batch_size = positive_or 1000 cfg.flush_batch_size;
  done = false;
  runner = not_started;
  flush_trigger = [];
  in_flight = [];
  idle_workers = 0;
  stopped_workers = 0;
}

-- The ticker's interval, in nanoseconds.
abbrev ticker_interval_of : ℤ → ℤ → ℤ
ticker_interval_of (pos zero) flush_interval = scale flush_interval 1000000
ticker_interval_of d flush_interval = d

unfoldable pub ticker_interval : BufferConfig → ℤ
ticker_interval cfg = ticker_interval_of cfg.flush_interval_duration cfg.flush_interval

-- `Start` with a flusher, up to the main loop of `runFlush`: `time.NewTicker` panics on an
-- interval that is not positive. A nil flusher changes nothing.
unfoldable pub start : BufferConfig → Bool → Buffer → Buffer
unfolding ticker_interval
start cfg false b = b
start cfg true b = record b {
  idle_workers = 4;
  runner = if leb_ℤ (ticker_interval cfg) (pos 0) then crashed else collecting [];
}

-- `Publish`; the flag says that the context is done.
unfoldable pub publish : Bool → Event → Buffer → Buffer × Option Error
publish true ev b = (b, some (wrapped (txt "context cancelled") (sentinel err_publish_failed)))
publish false ev b =
    if ltb (length b.ch) b.capacity then (record b { ch = b.ch ++ ev ∷ [] }, none) else (
      b,
      some (
          wrapped (txt "buffer at capacity (" ++ (decimal b.capacity ++ txt ")"))
            (sentinel err_publish_failed)),
    )

abbrev pub after : Next → Runner
after resume = collecting []
after drain = draining []

-- `dispatch`: nothing for an empty batch, else `runFlush` waits for room in `flushTrigger`.
unfoldable pub dispatch : List Event → Next → Runner
dispatch [] next = after next
dispatch (e ∷ es) next = sending (e ∷ es) next

-- `case e := <-b.ch`.
abbrev pub receive_from : Buffer → Runner → List Event → Option Buffer
receive_from b (collecting batch) (e ∷ rest) =
    let batch' = batch ++ e ∷ [] in
    some (record b {
      ch = rest;
      runner =
          if leb b.batch_size (length batch') then dispatch batch' resume else collecting batch';
    })
receive_from b _ _ = none

unfoldable pub receive : Buffer → Option Buffer
receive b = receive_from b b.runner b.ch

-- `case <-ticker.C`.
abbrev pub tick_at : Buffer → Runner → Option Buffer
tick_at b (collecting batch) = some (record b { runner = dispatch batch resume })
tick_at b _ = none

unfoldable pub tick : Buffer → Option Buffer
tick b = tick_at b b.runner

-- `case <-b.done`.
abbrev pub notice_done_at : Buffer → Runner → Bool → Option Buffer
notice_done_at b (collecting batch) true = some (record b { runner = dispatch batch drain })
notice_done_at b _ _ = none

unfoldable pub notice_done : Buffer → Option Buffer
notice_done b = notice_done_at b b.runner b.done

-- `b.flushTrigger <- out`, which waits until fewer than 4 batches are queued.
abbrev pub send_at : Buffer → Runner → Option Buffer
send_at b (sending out next) =
    if ltb (length b.flush_trigger) 4
    then some (record b { flush_trigger = b.flush_trigger ++ out ∷ []; runner = after next })
    else none
send_at b _ = none

unfoldable pub send : Buffer → Option Buffer
send b = send_at b b.runner

-- What follows `drainBatch`: return and close `flushTrigger` on an empty batch, else `dispatch`.
unfoldable pub drained : List Event → Runner
drained [] = exited
drained (e ∷ es) = sending (e ∷ es) drain

-- One round of the loop in `drainBatch`: it takes an event, or ends on an empty channel or a full
-- batch.
abbrev pub drain_step_at : Buffer → Runner → List Event → Option Buffer
drain_step_at b (draining batch) [] = some (record b { ch = []; runner = drained batch })
drain_step_at b (draining batch) (e ∷ rest) = some (
    if ltb (length batch) b.batch_size
    then record b { ch = rest; runner = draining (batch ++ e ∷ []) }
    else record b { ch = e ∷ rest; runner = drained batch })
drain_step_at b _ _ = none

unfoldable pub drain_step : Buffer → Option Buffer
drain_step b = drain_step_at b b.runner b.ch

-- A worker's `range b.flushTrigger` gets a batch.
abbrev pub take_batch_at : Buffer → ℕ → List (List Event) → Option Buffer
take_batch_at b (suc idle) (batch ∷ rest) =
    some (record b { idle_workers = idle; flush_trigger = rest; in_flight = batch ∷ b.in_flight })
take_batch_at b _ _ = none

unfoldable pub take_batch : Buffer → Option Buffer
take_batch b = take_batch_at b b.idle_workers b.flush_trigger

-- A worker returns from `flushWithRetry`, with one of the batches in flight, and is free again.
unfoldable pub finish_write : List (List Event) → List (List Event) → Buffer → Buffer
finish_write before behind b = record b {
  in_flight = before ++ behind;
  idle_workers = suc b.idle_workers;
}

-- It ends where `flushTrigger` is closed and empty.
abbrev pub stop_worker_at : Buffer → ℕ → List (List Event) → Runner → Option Buffer
stop_worker_at b (suc idle) [] exited =
    some (record b { idle_workers = idle; stopped_workers = suc b.stopped_workers })
stop_worker_at b _ _ _ = none

unfoldable pub stop_worker : Buffer → Option Buffer
stop_worker b = stop_worker_at b b.idle_workers b.flush_trigger b.runner

-- `close(b.done)` in `Close`; a second `Close` finds it closed.
unfoldable pub close : Buffer → Buffer
close b = record b { done = true }

-- `b.wg.Wait()` returns: `runFlush` and the workers have ended, or were never started.
abbrev pub wait_over : Runner → ℕ → Bool
wait_over not_started n = true
wait_over exited n = leb 4 n
wait_over _ n = false
