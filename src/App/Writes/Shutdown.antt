-- ===== src/App/Writes/Shutdown.antt =====
-- What has reached the database when `Close` has waited (internal/app/app.go).
use mathlib.Core.List.{Perm, append-nil}
use chronometrics.Common.{◌≡◌, true, [], ◌++◌, flatten, map, subst}
use chronometrics.Config.Types.{BufferConfig}
use chronometrics.Buffer.{exited, new, start, wait_over}
use chronometrics.Buffer.Steps.{World, initial, Reach, join}
use chronometrics.Buffer.Steps.Shutdown.{close_accounts}
use chronometrics.Repository.Insert.{row}
use chronometrics.App.Writes.{Obeys, database}
use chronometrics.App.Writes.Stored.{run-database}
use chronometrics.App.Writes.Outcomes.{Recovers, Refuses, run-Recovers, run-Refuses}

-- The workers write through `flushWithRetry` and the repository's `Flush`. In every state of a
-- started buffer in which `Close` returns without an error after waiting, where each write met a
-- database with which, for any batch, one of the attempts is a success: no batch was given up on,
-- the batches written are the batches sent, in some order; the databases have acknowledged, over all
-- attempts of all writes, exactly the rows of each batch written, whole and once, in the order of
-- the writes; and the batches sent hold, in their order, all accepted events except those accepted
-- after `runFlush` had returned.
pub shutdown_stores :
    (cfg : BufferConfig) (t : World) (r : Reach (initial (start cfg true (new cfg))) t)
    (o : Obeys cfg (Recovers cfg) r)
    → t.runner ≡ exited
    → wait_over t.runner t.stopped_workers ≡ true
    → (t.dropped ≡ [])
      × Perm t.flushed t.dispatched
      × (database cfg (Recovers cfg) r o ≡ map (map row) t.flushed)
      × (flatten t.dispatched ++ t.late ≡ t.accepted)
shutdown_stores cfg t r o e over =
    let (order, tail, queue, busy, ledger) = close_accounts cfg t r e over in
    let none_lost = run-Recovers cfg t r o in
    (
      none_lost,
      subst (λ xs. Perm xs t.dispatched) (append-nil t.flushed) (rw none_lost at ledger),
      run-database cfg (Recovers cfg) t r o,
      order,
    )

-- The workers write through `flushWithRetry` and the repository's `Flush`. Where from some state on
-- the database refuses to prepare a batch at every attempt: in every later state of a started buffer
-- in which `Close` returns without an error after waiting, the batches written are those that were
-- written before, every other batch sent was given up on, and the batches sent hold all accepted
-- events except those accepted after `runFlush` had returned.
pub cancelled_shutdown :
    (cfg : BufferConfig) (w t : World)
    → Reach (initial (start cfg true (new cfg))) w
    → (r : Reach w t) → Obeys cfg Refuses r
    → t.runner ≡ exited
    → wait_over t.runner t.stopped_workers ≡ true
    → (t.flushed ≡ w.flushed)
      × Perm (w.flushed ++ t.dropped) t.dispatched
      × (flatten t.dispatched ++ t.late ≡ t.accepted)
cancelled_shutdown cfg w t r₀ r o e over =
    let (order, tail, queue, busy, ledger) = close_accounts cfg t (join r₀ r) e over in
    let same = run-Refuses cfg w t r₀ r o in
    (same, subst (λ xs. Perm (xs ++ t.dropped) t.dispatched) same ledger, order)
