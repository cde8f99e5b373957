-- ===== src/Examples/Service.antt =====
-- From requests to the database, at concrete runs.
use mathlib.Core.List.{Perm}
use chronometrics.Common.{
  ℕ, ◌≡◌, ◌≢◌, refl, true, false, none, some, List, [], ◌∷◌, ◌++◌, length, flatten, map, All, arith,
  txt,
}
use chronometrics.Domain.Event.{Event}
use chronometrics.Domain.Payload.{build_event, to_event}
use chronometrics.Buffer.{
  Buffer, exited, new, start, ticker_interval, publish, dispatch, receive, send, drain_step,
  drained, notice_done, take_batch, finish_write, stop_worker, close,
}
use chronometrics.Buffer.Retry.{flush_with_retry}
use chronometrics.Buffer.Steps.{
  World, initial, admit, received, sent, took, wrote, closed, noticed, drained_one, stopped, Reach,
  here, more, join,
}
use chronometrics.Handler.Admission.{reported}
use chronometrics.Handler.Limiter.{with_limiter, find_limiter, put_limiter, new_limiter_registry}
use chronometrics.Handler.Middleware.{with_middleware, limit_body}
use chronometrics.Handler.Router.{Site, find_route, serve}
use chronometrics.Handler.Router.Admits.{over_buffer}
use chronometrics.Handler.Single.{handle_ingest}
use chronometrics.Handler.Single.Accepted.{windows}
use chronometrics.Ingest.{ingest}
use chronometrics.Repository.Insert.{row, flush}
use chronometrics.App.Writes.{write, Obeys, database}
use chronometrics.App.Writes.Outcomes.{Recovers}
use chronometrics.App.Writes.Graceful.{NoHandlers, graceful_shutdown}
use chronometrics.App.Intake.{Call, Ingested}
use chronometrics.App.Intake.Sound.{IsSound, database-IsSound}
use chronometrics.App.Acknowledged.{after_request, serve-database}
use chronometrics.Examples.{platform, clock, ahead, back, raw_event, buffer_config}
use chronometrics.Examples.App.{willing, willing-Recovers}
use chronometrics.Examples.Router.{handler, handler-PlainAnswers, site, event_request}

-- What the raw event is converted to.
abbrev event : Event
event = build_event platform raw_event []

abbrev first : World
first = initial (start buffer_config true (new buffer_config))

abbrev stored : World
stored = record first {
  accepted = event ∷ [];
  dispatched = (event ∷ []) ∷ [];
  taken = (event ∷ []) ∷ [];
  flushed = (event ∷ []) ∷ [];
}

to_stored : Reach first stored
unfolding initial start new ticker_interval publish receive dispatch send take_batch finish_write
to_stored =
    let r = more here (admit _ event _ refl) in
    let r = more r (received _ _ refl) in
    let r = more r (sent _ _ refl) in
    let r = more r (took _ _ (event ∷ []) [] refl refl) in more r (wrote _ [] [] (event ∷ []) refl)

event_written : write buffer_config willing (event ∷ []) ≡ none
unfolding write flush_with_retry flush
event_written = refl

to_stored-Obeys : Obeys buffer_config (Recovers buffer_config) to_stored
unfolding to_stored initial start new ticker_interval publish receive dispatch send take_batch
    finish_write
to_stored-Obeys = (((((tt, tt), tt), tt), tt), (willing, (willing-Recovers, event_written)))

abbrev call : Call
call = record { now = clock; cancelled = false; raw = raw_event }

to_stored-Ingested : Ingested platform ahead back clock clock to_stored
unfolding to_stored initial start new ticker_interval publish receive dispatch send take_batch
    finish_write ingest chronometrics.Domain.Event.validate chronometrics.Errors.append_if
    chronometrics.Domain.Event.normalize_timestamp chronometrics.Common.is_blank to_event
    build_event
to_stored-Ingested = (
  (
    (
      (
        (
          tt,
          (call, (record { after = omega arith; before = omega arith; stamp = omega arith }, refl)),
        ),
        tt,
      ),
      tt,
    ),
    tt,
  ),
  tt,
)

database-IsSound_example :
    (database buffer_config (Recovers buffer_config) to_stored to_stored-Obeys
      ≡ map (map row) stored.flushed)
    × All (All (IsSound platform ahead back clock clock)) stored.flushed
database-IsSound_example =
    database-IsSound platform ahead back clock clock (omega arith) (omega arith) (omega arith)
      buffer_config (Recovers buffer_config) stored to_stored to_stored-Obeys to_stored-Ingested

-- POST /events to the started buffer, and what the goroutines do afterwards.
abbrev started_site : Site Buffer
started_site = record site { inner = first.buffer }

abbrev answered_world : World
answered_world =
    after_request first
      (serve (over_buffer (windows ahead back) (λ i. clock) (λ i. false) handler) (txt "id")
        (txt "/events") event_request started_site).0.inner

abbrev acknowledged : World
acknowledged = record first {
  buffer = record first.buffer {
    done = true;
    runner = exited;
    idle_workers = 0;
    stopped_workers = 4;
  };
  accepted = event ∷ [];
  dispatched = (event ∷ []) ∷ [];
  taken = (event ∷ []) ∷ [];
  flushed = (event ∷ []) ∷ [];
}

to_acknowledged : Reach answered_world acknowledged
unfolding initial start new ticker_interval publish receive dispatch send drain_step drained
    notice_done take_batch finish_write stop_worker close serve with_middleware limit_body
    with_limiter find_limiter put_limiter new_limiter_registry find_route handle_ingest ingest
    chronometrics.Domain.Event.validate chronometrics.Errors.append_if
    chronometrics.Domain.Event.normalize_timestamp chronometrics.Common.is_blank to_event
    build_event
to_acknowledged =
    let r = more here (received _ _ refl) in
    let r = more r (sent _ _ refl) in
    let r = more r (took _ _ (event ∷ []) [] refl refl) in
    let r = more r (wrote _ [] [] (event ∷ []) refl) in
    let r = more r (closed _) in
    let r = more r (noticed _ _ refl) in
    let r = more r (drained_one _ _ refl) in
    let r = more r (stopped _ _ refl) in
    let r = more r (stopped _ _ refl) in
    let r = more r (stopped _ _ refl) in more r (stopped _ _ refl)

to_acknowledged-Obeys : Obeys buffer_config (Recovers buffer_config) to_acknowledged
unfolding to_acknowledged initial start new ticker_interval publish receive dispatch send drain_step
    drained notice_done take_batch finish_write stop_worker close serve with_middleware limit_body
    with_limiter find_limiter put_limiter new_limiter_registry find_route handle_ingest ingest
    chronometrics.Domain.Event.validate chronometrics.Errors.append_if
    chronometrics.Domain.Event.normalize_timestamp chronometrics.Common.is_blank to_event
    build_event
to_acknowledged-Obeys = (
  (
    (
      ((((((((tt, tt), tt), tt), (willing, (willing-Recovers, event_written))), tt), tt), tt), tt),
      tt,
    ),
    tt,
  ),
  tt,
)

first_live : first.runner ≢ exited
unfolding initial start new ticker_interval
first_live e = ground arith

serve-database_example :
    let x =
      serve
        (over_buffer (windows ahead back) (λ i. clock) (λ i. false) handler)
        (txt "id")
        (txt "/events")
        event_request
        started_site in
    (added : List Event) × (later : List Event) × (length added ≡ reported x.1)
    × (x.0.inner.ch ≡ first.ch ++ added)
    × Perm
        (flatten (
          database buffer_config (Recovers buffer_config) {w = first} here tt
          ++ database buffer_config (Recovers buffer_config) to_acknowledged to_acknowledged-Obeys))
        (map row ((first.accepted ++ added) ++ later))
serve-database_example =
    serve-database buffer_config handler (windows ahead back) (λ i. clock) (λ i. false) (txt "id")
      (txt "/events") event_request started_site first acknowledged handler-PlainAnswers here tt
      first_live refl to_acknowledged to_acknowledged-Obeys refl refl

-- The server has stopped while the event waits in the channel.
abbrev waiting_world : World
waiting_world = record first {
  buffer = record first.buffer { ch = event ∷ [] };
  accepted = event ∷ [];
}

to_waiting : Reach first waiting_world
unfolding initial start new ticker_interval publish
to_waiting = more here (admit _ event _ refl)

from_waiting : Reach waiting_world acknowledged
unfolding initial start new ticker_interval receive dispatch send drain_step drained notice_done
    take_batch finish_write stop_worker close
from_waiting =
    let r = more here (closed _) in
    let r = more r (received _ _ refl) in
    let r = more r (sent _ _ refl) in
    let r = more r (took _ _ (event ∷ []) [] refl refl) in
    let r = more r (noticed _ _ refl) in
    let r = more r (wrote _ [] [] (event ∷ []) refl) in
    let r = more r (drained_one _ _ refl) in
    let r = more r (stopped _ _ refl) in
    let r = more r (stopped _ _ refl) in
    let r = more r (stopped _ _ refl) in more r (stopped _ _ refl)

waiting-Obeys : Obeys buffer_config (Recovers buffer_config) (join to_waiting from_waiting)
unfolding to_waiting from_waiting initial start new ticker_interval publish receive dispatch send
    drain_step drained notice_done take_batch finish_write stop_worker close
waiting-Obeys = (
  (
    (
      (
        (
          (((((((tt, tt), tt), tt), tt), tt), tt), (willing, (willing-Recovers, event_written))),
          tt,
        ),
        tt,
      ),
      tt,
    ),
    tt,
  ),
  tt,
)

waiting-NoHandlers : NoHandlers from_waiting
unfolding from_waiting initial start new ticker_interval receive dispatch send drain_step drained
    notice_done take_batch finish_write stop_worker close
waiting-NoHandlers =
    ((((((((((((tt, refl), refl), refl), refl), refl), refl), refl)), refl), refl), refl), refl)

graceful_shutdown_example :
    Perm
      (flatten (
        database buffer_config
          (Recovers buffer_config)
          (join to_waiting from_waiting)
          waiting-Obeys))
      (map row acknowledged.accepted)
    × (acknowledged.late ≡ [])
graceful_shutdown_example =
    graceful_shutdown buffer_config waiting_world acknowledged to_waiting from_waiting waiting-Obeys
      first_live waiting-NoHandlers refl refl
