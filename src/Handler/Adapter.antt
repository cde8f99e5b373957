-- ===== src/Handler/Adapter.antt =====
-- internal/handler/adapter.go: the use case over the in-memory buffer as an `Ingester`.
use chronometrics.Common.{ℕ, Bool, some}
use chronometrics.Domain.Json.{Platform}
use chronometrics.Buffer.{Buffer}
use chronometrics.Ingest.{UseCase, buffer_publisher, ingest}
use chronometrics.Handler.Http.{Ingester}

-- Each call in a request has its own reading of the clock and state of the context, by its number.
abbrev pub use_case_adapter : Platform → UseCase → (ℕ → ℕ) → (ℕ → Bool) → Ingester Buffer
use_case_adapter p uc now cancelled = record {
  ingest = λ i raw b. ingest p buffer_publisher uc (now i) (cancelled i) (some raw) b;
}
