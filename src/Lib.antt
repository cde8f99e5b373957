-- ===== src/Lib.antt =====
-- Verification of the event ingestor: from an HTTP request to batches handed to the database.
--
-- A raw event arrives at POST /events or POST /events/bulk. The handler decodes it and calls the use
-- case, which validates it against a time window, converts it to an event with a payload hash, and
-- publishes it to a bounded in-memory buffer. A goroutine collects batches from the buffer, by size
-- and by a ticker, and hands them to four workers, which write each batch with retries through the
-- repository's `Flush`. On shutdown the buffer is closed and drained. GET /metrics validates its
-- parameters and asks the repository's `Query`. `Build` loads the configuration, connects to the
-- database, applies the migrations, starts the buffer and puts the handlers behind their routes.
--
-- Files, and the code that they model:
--   Common         the names that the modules share: lists, Go strings as lists of bytes, Go's
--                  integers (every `int`, `int64` and `time.Duration` is a ℤ, every `uint64` a ℕ
--                  below 2^64 with the wrap-around written out), decimal numerals and sorting
--   Errors         internal/domain/errors.go: sentinels, `ValidationError`, `errors.Is`, `errors.As`
--   Domain.Event   internal/domain/event.go: `Validate`, `NormalizeTimestamp`
--   Domain.Payload internal/domain/event.go: `ComputePayloadHash`, `ToEvent`
--   Domain.Query   internal/domain/metrics.go: `QueryParams`, `ValidateQueryParams`
--   Domain.Canonical  internal/domain/hash.go: `canonicalJSON`
--   Config.Types   internal/config/config.go: the types
--   Config.Environment  internal/config/config.go: `envAny`, and the process's environment
--   Config.DotEnv  internal/config/config.go: `loadDotEnv`
--   Config.Overrides, Config.Load  internal/config/config.go: `Load`
--   Buffer         internal/buffer/buffer.go: each operation of a goroutine on the shared state, by
--                  name `New`, `Start`, `Publish`, `dispatch`, the cases of `runFlush`, `drainBatch`,
--                  `flushOnce`, `Close`
--   Buffer.Steps   their interleavings as a step relation, with a history of what passed through
--   Buffer.Outbox  what the buffer promises to its clients: accepted events wait in order, are cut off
--                  as batches, and each batch is settled once, in any order; it keeps the record of
--                  what it accepted, cut off, delivered and gave up
--   Buffer.CloseCall  internal/buffer/buffer.go: one call of `Close`, with the end of its wait
--   Buffer.Retry   internal/buffer/buffer.go: `flushWithRetry`
--   Ingest         internal/ingest/usecase.go: `Ingest`, over any publisher and over the buffer
--   Handler.Http   internal/handler/response.go and types.go
--   Handler.Adapter  internal/handler/adapter.go
--   Handler.Single   internal/handler/ingest.go: `handleIngest`
--   Handler.Bulk     internal/handler/bulk.go: `handleBulk`
--   Handler.Metrics  internal/handler/handler.go: `handleMetrics`, `handleHealth`
--   Handler.Limiter  internal/handler/handler.go and middleware.go: the rate limiters
--   Handler.Middleware  internal/handler/middleware.go: `withMiddleware`
--   Handler.Router   internal/handler/handler.go: the routes that `New` registers, `Router`
--   Handler.Contract  openapi.yaml: the documented statuses and schemas of the responses
--   Handler.Session  requests one after another, with the calls on the metrics that each makes
--   Handler.Observed, Buffer.Observed, Repository.Observed  the calls on the metrics in
--                  internal/handler/ingest.go and bulk.go, internal/buffer/buffer.go,
--                  internal/repository/insert.go and query.go
--   Observability  internal/observability/metrics.go: the metrics that `New` makes and registers
--   Handler.Admission  what a response reports as accepted, and what a request adds to the buffer
--   Repository     internal/repository/repository.go: `New`, `Connect`, `retryDelay`
--   Repository.Health  internal/repository/repository.go: `Health`
--   Repository.Insert  internal/repository/insert.go: `Flush`
--   Repository.Query   internal/repository/query.go: `Query`
--   Repository.Lookup  internal/repository/query.go: `get`
--   Repository.Migrations  internal/repository/migrations.go: `ApplyMigrations`
--   App            internal/app/app.go: `Build`
--   App.Infrastructure  internal/app/infrastructure.go, compose.go, health.go: `connectRepository`,
--                  `startBuffer`, `compose`, the health checker
--   App.Lifecycle  internal/app/app.go: `Run` and `shutdown` beside the goroutines of the buffer
--   App.Writes     the workers of the buffer writing through `flushWithRetry` and `Flush`, and the rows
--                  that the databases acknowledged in a run, and its calls on the metrics
--   App.Intake     every event that is published comes from a call of `Ingest`
--   App.Composed   internal/app/compose.go: the handler around the ingester
--   App.Acknowledged  from a response to the database
--   Command        cmd/ingestor/main.go: `main`
--   Examples       the theorems at concrete inputs
--
-- State is passed explicitly: an operation takes the state and returns the next one with its result.
-- An operation that a goroutine performs returns an `Option`: `none` where the goroutine cannot take
-- that step, because it stands elsewhere or would block. The clock and the context's state, which
-- each call of `Ingest` in a request reads anew, the hash function, `json.Marshal`, the JSON decoder,
-- the database, the file system, `time.ParseDuration` and the text of a duration are parameters. An
-- environment is an association list, in which an unset variable and an empty one are the same, as
-- the code never tells them apart.
--
-- Bounds: all loops are structural. `decimal` has one unit of fuel more than its number, which is at
-- least the number of its digits. `flushWithRetry` and `Connect` run on the number of their
-- rounds. A line of the .env file has less than 65536 bytes, the limit of `bufio.Scanner`.
--
-- A request is one step where it is followed to the database (App.Acknowledged): the goroutines of
-- the buffer do nothing between the events of one bulk request. Where single calls of `Ingest` matter
-- (App.Intake), each is a step of its own. A tick of the reset goroutine is one step for all
-- limiters, where the code takes one lock after another. The rows in the database are those whose
-- `Send` the database answered without an error; whether a `Send` with an error left rows behind is
-- not said.
--
-- Not modelled: the HTTP server that `Run` starts and stops (internal/app) and the signals
-- (cmd/ingestor), which are libraries; what the metrics library keeps of the calls on it, whether it
-- takes a label value that is no valid UTF-8, and the seconds that are observed; logging
-- (internal/logger); the error of `rows.Err`, which `Query` does not read; the texts of the SQL
-- statements.
pub mod Common
pub mod Errors
pub mod Domain
pub mod Config
pub mod App
pub mod Buffer
pub mod Ingest
pub mod Observability
pub mod Handler
pub mod Repository
pub mod Command
pub mod Examples
