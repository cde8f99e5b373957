-- ===== src/App/Writes.antt =====
-- The writes of a running service: the workers of the buffer (internal/buffer/buffer.go) call the
-- repository's `Flush` (internal/repository/insert.go) through `flushWithRetry`.
pub mod Stored
pub mod Outcomes
pub mod Shutdown
pub mod Graceful
pub mod Metered
use chronometrics.Common.{ℕ, zero, suc, ◌≡◌, ◌≢◌, Option, none, some, List, [], ◌∷◌, ◌++◌}
use chronometrics.Common.Int.{ℤ}
use chronometrics.Errors.{Error}
use chronometrics.Domain.Event.{Event}
use chronometrics.Config.Types.{BufferConfig}
use chronometrics.Buffer.Retry.{flush_timeout, flush_with_retry}
use chronometrics.Buffer.Steps.{
  World, Step, admit, received, ticked, noticed, sent, drained_one, took, wrote, gave_up, stopped,
  closed, Reach, here, more,
}
use chronometrics.Repository.Insert.{Row, BatchApi, FlushTrace, flush}

-- What the database answers to one worker that writes one batch: for a timeout and the number of
-- the attempt.
abbrev pub Database : Type 0
Database = ℤ → ℕ → BatchApi

-- What `flushWithRetry` returns for a batch, over the repository's `Flush`.
unfoldable pub write : BufferConfig → Database → List Event → Option Error
write cfg db batch =
    (flush_with_retry cfg (λ timeout i. (flush (db timeout i) batch).result)).result

-- A step that ends a write does so as `write` says, over a database of which `Allowed` holds.
abbrev pub Writes : BufferConfig → (Database → Type 0) → {w t : World} → Step w t → Type 0
Writes cfg Allowed (wrote w before behind batch q) =
    (db : Database) × (Allowed db × (write cfg db batch ≡ none))
Writes cfg Allowed (gave_up w before behind batch q) =
    (db : Database) × (Allowed db × (write cfg db batch ≢ none))
Writes cfg Allowed (admit w ev b q) = Unit
Writes cfg Allowed (received w b q) = Unit
Writes cfg Allowed (ticked w b q) = Unit
Writes cfg Allowed (noticed w b q) = Unit
Writes cfg Allowed (sent w b q) = Unit
Writes cfg Allowed (drained_one w b q) = Unit
Writes cfg Allowed (took w b batch rest f q) = Unit
Writes cfg Allowed (stopped w b q) = Unit
Writes cfg Allowed (closed w) = Unit

-- All the writes of a run.
abbrev pub Obeys : BufferConfig → (Database → Type 0) → {w t : World} → Reach w t → Type 0
Obeys cfg Allowed here = Unit
Obeys cfg Allowed (more r s) = Obeys cfg Allowed r × Writes cfg Allowed s

-- The rows that a call of `Flush` left in the database: those that it sent, if the database answered
-- `Send` without an error.
abbrev kept_rows : List Row → Option Error → List (List Row)
kept_rows rows none = rows ∷ []
kept_rows rows (some e) = []

abbrev left_by : BatchApi → Option (List Row) → List (List Row)
left_by api none = []
left_by api (some rows) = kept_rows rows (api.send rows)

abbrev pub committed : BatchApi → FlushTrace → List (List Row)
committed api trace = left_by api trace.sent

-- What the first attempts left, in their order.
abbrev pub gather : {A : Type 0} → (ℕ → List A) → ℕ → List A
gather f zero = []
gather f (suc n) = gather f n ++ f n

-- What attempt `j` to write a batch left.
abbrev pub attempted : BufferConfig → Database → List Event → ℕ → List (List Row)
attempted cfg db batch j =
    committed (db (flush_timeout cfg) j) (flush (db (flush_timeout cfg) j) batch)

-- What all the attempts of `flushWithRetry` left.
unfoldable pub written_rows : BufferConfig → Database → List Event → List (List Row)
written_rows cfg db batch =
    gather (attempted cfg db batch)
      (flush_with_retry cfg (λ timeout i. (flush (db timeout i) batch).result)).attempts

-- What a step left in the database that it met, and what a whole run left, in its order.
abbrev pub step_rows :
    (cfg : BufferConfig) (Allowed : Database → Type 0) {w t : World} (s : Step w t)
    → Writes cfg Allowed s
    → List (List Row)
step_rows cfg Allowed (wrote w before behind batch q) x = written_rows cfg x.0 batch
step_rows cfg Allowed (gave_up w before behind batch q) x = written_rows cfg x.0 batch
step_rows cfg Allowed _ x = []

abbrev pub database :
    (cfg : BufferConfig) (Allowed : Database → Type 0) {w t : World} (r : Reach w t)
    → Obeys cfg Allowed r
    → List (List Row)
database cfg Allowed here o = []
database cfg Allowed (more r s) o = database cfg Allowed r o.0 ++ step_rows cfg Allowed s o.1
