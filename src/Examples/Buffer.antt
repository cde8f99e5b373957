-- ===== src/Examples/Buffer.antt =====
-- The theorems on the buffer at concrete runs.
use mathlib.Core.List.{Perm}
use chronometrics.Common.{
  ℕ, zero, suc, ◌<◌, ◌≡◌, ◌≢◌, refl, true, false, Option, none, some, [], ◌∷◌, ◌++◌, flatten, arith,
}
use chronometrics.Errors.{Error, sentinel, err_query_timeout}
use chronometrics.Buffer.{
  exited, new, start, ticker_interval, publish, dispatch, receive, send, drain_step, drained,
  notice_done, take_batch, finish_write, stop_worker, close,
}
use chronometrics.Buffer.Steps.{
  World, initial, admit, received, sent, took, wrote, closed, noticed, drained_one, stopped, Reach,
  here, more,
}
use chronometrics.Buffer.Steps.Progress.{is_started}
use chronometrics.Buffer.Steps.Closing.{Finishes, close-Finishes}
use chronometrics.Buffer.Outbox.{Promises, empty, outbox}
use chronometrics.Buffer.Outbox.Refines.{room, run_refines}
use chronometrics.Buffer.Steps.Sizes.{IsBounded}
use chronometrics.Buffer.Steps.Bounds.{run-IsBounded}
use chronometrics.Buffer.Steps.Order.{IsOrdered}
use chronometrics.Buffer.Steps.History.{run-IsOrdered}
use chronometrics.Buffer.Steps.Shutdown.{close_accounts, published, publish_after_exit}
use chronometrics.Buffer.Retry.{flush_with_retry}
use chronometrics.Buffer.Retry.Attempts.{
  backoffs, flush_with_retry_success, flush_with_retry_failure,
}
use chronometrics.Examples.{buffer_config, some_event}

abbrev first : World
first = initial (start buffer_config true (new buffer_config))

-- One event is accepted, sent and written, and the buffer is closed.
abbrev last : World
last = record {
  buffer = record {
    ch = [];
    capacity = 2;
    batch_size = 1;
    done = true;
    runner = exited;
    flush_trigger = [];
    in_flight = [];
    idle_workers = 0;
    stopped_workers = 4;
  };
  accepted = some_event ∷ [];
  late = [];
  dispatched = (some_event ∷ []) ∷ [];
  taken = (some_event ∷ []) ∷ [];
  flushed = (some_event ∷ []) ∷ [];
  dropped = [];
}

run : Reach first last
unfolding initial start new ticker_interval publish receive dispatch send drain_step drained
    notice_done take_batch finish_write stop_worker close
run =
    let r = more here (admit _ some_event _ refl) in
    let r = more r (received _ _ refl) in
    let r = more r (sent _ _ refl) in
    let r = more r (took _ _ (some_event ∷ []) [] refl refl) in
    let r = more r (wrote _ [] [] (some_event ∷ []) refl) in
    let r = more r (closed _) in
    let r = more r (noticed _ _ refl) in
    let r = more r (drained_one _ _ refl) in
    let r = more r (stopped _ _ refl) in
    let r = more r (stopped _ _ refl) in
    let r = more r (stopped _ _ refl) in more r (stopped _ _ refl)

run-IsOrdered_example : IsOrdered last
run-IsOrdered_example = run-IsOrdered buffer_config true last run

run-IsBounded_example : IsBounded last.buffer
run-IsBounded_example = run-IsBounded buffer_config true last run

close_accounts_example :
    (flatten last.dispatched ++ last.late ≡ last.accepted)
    × (last.ch ≡ last.late)
    × (last.flush_trigger ≡ [])
    × (last.in_flight ≡ [])
    × Perm (last.flushed ++ last.dropped) last.dispatched
close_accounts_example = close_accounts buffer_config last run refl refl

publish_after_exit_example :
    ((publish false some_event last.buffer).1 ≡ none)
    × ((published last some_event).ch ≡ last.ch ++ some_event ∷ [])
    × ((published last some_event).dispatched ≡ last.dispatched)
publish_after_exit_example =
    publish_after_exit last (published last some_event) some_event refl (omega arith) here

-- The database answers from the third attempt on, or never.
abbrev timed_out : Error
timed_out = sentinel err_query_timeout

abbrev third : ℕ → Option Error
third zero = some timed_out
third (suc zero) = some timed_out
third (suc (suc j)) = none

third_fails : (j : ℕ) → j < 2 → third j ≢ none
third_fails zero h e = ground arith
third_fails (suc zero) h e = ground arith
third_fails (suc (suc j)) h e = absurd (omega arith)

flush_with_retry_success_example :
    flush_with_retry buffer_config (λ d. third)
    ≡ record { result = none; attempts = 3; sleeps = backoffs 2 0 }
flush_with_retry_success_example =
    flush_with_retry_success buffer_config (λ d. third) 2 (omega arith) third_fails refl

flush_with_retry_failure_example :
    flush_with_retry buffer_config (λ d j. some timed_out)
    ≡ record { result = some timed_out; attempts = 3; sleeps = backoffs 3 0 }
flush_with_retry_failure_example =
    flush_with_retry_failure buffer_config (λ d j. some timed_out) (λ j h e. ground arith)

-- `Close` is called while an event waits in the channel.
abbrev closing : World
closing = record first {
  buffer = record first.buffer { ch = some_event ∷ []; done = true };
  accepted = some_event ∷ [];
}

to_closing : Reach first closing
unfolding initial start new ticker_interval publish close
to_closing = let r = more here (admit _ some_event _ refl) in more r (closed _)

closing_done : closing.done ≡ true
unfolding initial
closing_done = refl

closing_started : is_started closing.runner ≡ true
unfolding initial start new ticker_interval
closing_started = refl

close-Finishes_example : Finishes closing
close-Finishes_example =
    close-Finishes buffer_config closing to_closing closing_done closing_started

run_refines_example : Promises (room buffer_config) 1 empty (outbox last)
run_refines_example = run_refines buffer_config true last run
