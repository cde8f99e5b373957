-- ===== src/Buffer/Retry.antt =====
-- internal/buffer/buffer.go: `flushWithRetry`. The flusher's answers are a parameter: `outcome`
-- gives, for a timeout and the number of the attempt, the error of that call of `Flush`.
pub mod Attempts
pub mod Found
use chronometrics.Common.{
  ℕ, zero, suc, ◌+◌, ◌*◌, Option, none, some, List, [], ◌∷◌, ltb, if◌then◌else◌,
}
use chronometrics.Common.Int.{ℤ, pos, negsuc, scale}
use chronometrics.Errors.{Error}
use chronometrics.Config.Types.{BufferConfig}

-- What one call does: its result, the calls of `Flush`, and the sleeps in nanoseconds.
pub record FlushReport : Type 0 where
  pub result : Option Error
  pub attempts : ℕ
  pub sleeps : List ℕ

abbrev pub second : ℕ
second = 1000000000

abbrev pub first_backoff : ℕ
first_backoff = 10000000

-- `backoff *= 2`, capped at a second.
unfoldable pub next_backoff : ℕ → ℕ
next_backoff backoff = if ltb second (backoff * 2) then second else backoff * 2

-- `max(1, b.cfg.FlushRetries)`.
abbrev pub rounds : ℤ → ℕ
rounds (pos zero) = 1
rounds (pos (suc n)) = suc n
rounds (negsuc n) = 1

abbrev timeout_of : ℤ → ℤ → ℤ
timeout_of (pos zero) ms = scale ms 1000000
timeout_of d ms = d

unfoldable pub flush_timeout : BufferConfig → ℤ
flush_timeout cfg = timeout_of cfg.flush_timeout cfg.flush_timeout_ms

module _ (outcome : ℕ → Option Error) where
  -- The loop, with the rounds left, the number of the attempt, the backoff and the last error.
  unfoldable pub flush_attempts : ℕ → ℕ → ℕ → Option Error → FlushReport
  flush_attempts zero i backoff last = record { result = last; attempts = i; sleeps = [] }
  flush_attempts (suc left) i backoff last = elim (outcome i) [
    | none ↦ record { result = none; attempts = suc i; sleeps = [] }
    | some e ↦
        let rest = flush_attempts left (suc i) (next_backoff backoff) (some e) in
        record rest { sleeps = backoff ∷ rest.sleeps }
  ]

unfoldable pub flush_with_retry : BufferConfig → (ℤ → ℕ → Option Error) → FlushReport
unfolding flush_attempts
flush_with_retry cfg outcome =
    flush_attempts (outcome (flush_timeout cfg)) (rounds cfg.flush_retries) 0 first_backoff none
