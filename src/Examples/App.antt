-- ===== src/Examples/App.antt =====
-- The theorems on the service as a whole at concrete runs and requests.
use mathlib.Core.List.{Perm}
use chronometrics.Common.{
  ℕ, zero, suc, ◌≡◌, ◌≢◌, refl, true, false, Option, none, some, List, [], ◌∷◌, ◌++◌, flatten, map,
  arith, Text, txt,
}
use chronometrics.Common.Int.{ℤ, pos}
use chronometrics.Errors.{Error, sentinel, err_query_timeout}
use chronometrics.Domain.Json.{ok}
use chronometrics.Domain.Event.{Event}
use chronometrics.Buffer.{
  exited, new, start, ticker_interval, publish, dispatch, receive, send, drain_step, drained,
  notice_done, take_batch, finish_write, stop_worker, close,
}
use chronometrics.Buffer.Retry.{flush_with_retry}
use chronometrics.Buffer.Steps.{
  World, initial, admit, received, sent, took, wrote, gave_up, closed, noticed, drained_one,
  stopped, Reach, here, more,
}
use chronometrics.Repository.Insert.{Row, row, append_rows, flush}
use chronometrics.App.{Outside, build}
use chronometrics.App.Built.{Built, build_closes}
use chronometrics.App.Writes.{Database, write, Obeys, database}
use chronometrics.App.Writes.Outcomes.{Recovers, Refuses}
use chronometrics.App.Writes.Shutdown.{shutdown_stores, cancelled_shutdown}
use chronometrics.Examples.{platform, some_event, buffer_config}

abbrev first : World
first = initial (start buffer_config true (new buffer_config))

-- The event is accepted, and the context of the writes has ended.
abbrev signalled : World
signalled = record first {
  buffer = record first.buffer { ch = some_event ∷ [] };
  accepted = some_event ∷ [];
}

before_signal : Reach first signalled
unfolding initial start new ticker_interval publish
before_signal = more here (admit _ some_event _ refl)

-- The buffer after the run below.
abbrev ended : List (List Event) → List (List Event) → World
ended flushed dropped = record first {
  buffer = record first.buffer {
    done = true;
    runner = exited;
    idle_workers = 0;
    stopped_workers = 4;
  };
  accepted = some_event ∷ [];
  dispatched = (some_event ∷ []) ∷ [];
  taken = (some_event ∷ []) ∷ [];
  flushed = flushed;
  dropped = dropped;
}

-- A database that takes everything, and one that refuses everything.
abbrev pub willing : Database
willing timeout i = record { prepare = none; append = λ j r. none; send = λ rows. none }

abbrev gone : Database
gone timeout i = record {
  prepare = some (sentinel err_query_timeout);
  append = λ j r. none;
  send = λ rows. none;
}

abbrev stored : World
stored = ended ((some_event ∷ []) ∷ []) []

abbrev lost : World
lost = ended [] ((some_event ∷ []) ∷ [])

to_stored : Reach first stored
unfolding initial start new ticker_interval publish receive dispatch send drain_step drained
    notice_done take_batch finish_write stop_worker close
to_stored =
    let r = more here (admit _ some_event _ refl) in
    let r = more r (received _ _ refl) in
    let r = more r (sent _ _ refl) in
    let r = more r (took _ _ (some_event ∷ []) [] refl refl) in
    let r = more r (wrote _ [] [] (some_event ∷ []) refl) in
    let r = more r (closed _) in
    let r = more r (noticed _ _ refl) in
    let r = more r (drained_one _ _ refl) in
    let r = more r (stopped _ _ refl) in
    let r = more r (stopped _ _ refl) in
    let r = more r (stopped _ _ refl) in more r (stopped _ _ refl)

willing_appends :
    (i : ℕ) (rows : List Row) (es : List Event)
    → (append_rows (willing (pos 0) 0) i rows es).result ≡ none
unfolding append_rows
willing_appends i rows [] = refl
willing_appends i rows (e ∷ es) = willing_appends (suc i) (rows ++ row e ∷ []) es

willing_flushes : (es : List Event) → (flush (willing (pos 0) 0) es).result ≡ none
unfolding flush
willing_flushes [] = refl
willing_flushes (e ∷ es) = willing_appends 0 [] (e ∷ es)

pub willing-Recovers : Recovers buffer_config willing
willing-Recovers batch = (0, (omega arith, willing_flushes batch))

willing_writes : write buffer_config willing (some_event ∷ []) ≡ none
unfolding write flush_with_retry flush
willing_writes = refl

to_stored-Obeys : Obeys buffer_config (Recovers buffer_config) to_stored
unfolding to_stored initial start new ticker_interval publish receive dispatch send drain_step
    drained notice_done take_batch finish_write stop_worker close
to_stored-Obeys = (
  (
    (
      (
        (
          (((((((tt, tt), tt), tt), tt), (willing, (willing-Recovers, willing_writes))), tt), tt),
          tt,
        ),
        tt,
      ),
      tt,
    ),
    tt,
  ),
  tt,
)

shutdown_stores_example :
    (stored.dropped ≡ [])
    × Perm stored.flushed stored.dispatched
    × (database buffer_config (Recovers buffer_config) to_stored to_stored-Obeys
        ≡ map (map row) stored.flushed)
    × (flatten stored.dispatched ++ stored.late ≡ stored.accepted)
shutdown_stores_example = shutdown_stores buffer_config stored to_stored to_stored-Obeys refl refl

-- Shut down with the context of the writes ended.
to_lost : Reach signalled lost
unfolding initial start new ticker_interval publish receive dispatch send drain_step drained
    notice_done take_batch finish_write stop_worker close
to_lost =
    let r = more here (closed _) in
    let r = more r (received _ _ refl) in
    let r = more r (sent _ _ refl) in
    let r = more r (took _ _ (some_event ∷ []) [] refl refl) in
    let r = more r (gave_up _ [] [] (some_event ∷ []) refl) in
    let r = more r (noticed _ _ refl) in
    let r = more r (drained_one _ _ refl) in
    let r = more r (stopped _ _ refl) in
    let r = more r (stopped _ _ refl) in
    let r = more r (stopped _ _ refl) in more r (stopped _ _ refl)

gone-Refuses : Refuses gone
gone-Refuses timeout i e = ground arith

gone_fails : write buffer_config gone (some_event ∷ []) ≢ none
unfolding write flush_with_retry flush
gone_fails e = ground arith

to_lost-Obeys : Obeys buffer_config Refuses to_lost
unfolding to_lost initial start new ticker_interval publish receive dispatch send drain_step drained
    notice_done take_batch finish_write stop_worker close
to_lost-Obeys = (
  ((((((((((tt, tt), tt), tt), tt), (gone, (gone-Refuses, gone_fails))), tt), tt), tt), tt), tt),
  tt,
)

cancelled_shutdown_example :
    (lost.flushed ≡ signalled.flushed)
    × Perm (signalled.flushed ++ lost.dropped) lost.dispatched
    × (flatten lost.dispatched ++ lost.late ≡ lost.accepted)
cancelled_shutdown_example =
    cancelled_shutdown buffer_config signalled lost before_signal to_lost to_lost-Obeys refl refl

abbrev pub no_durations : Text → Option ℤ
no_durations s = none

-- All goes well, but the first ping.
abbrev pub outside : Outside
outside = record {
  file = ok [];
  env =
      (txt "CHRONOMETRICS_CLICKHOUSE_ADDR", txt "db:9000")
      ∷ (txt "CHRONOMETRICS_CLICKHOUSE_DATABASE", txt "metrics")
      ∷ (txt "CHRONOMETRICS_CLICKHOUSE_USERNAME", txt "ingest")
      ∷ [];
  failed_open = none;
  ping = ping;
  interrupted = λ i. none;
  listing = ok (record { name = txt "001_create_events.sql"; is_dir = false } ∷ []);
  read_file = λ path. ok (txt "CREATE TABLE events");
  exec = λ sql. none;
}
  where
    ping : ℕ → Option Error
    ping zero = some (sentinel err_query_timeout)
    ping (suc i) = none

build_closes_example :
    let r = build platform no_durations (λ e. true) outside in
    Built platform no_durations (λ e. true) outside r.result r
build_closes_example = build_closes platform no_durations (λ e. true) outside
