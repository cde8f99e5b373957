-- ===== src/Buffer/Retry/Attempts.antt =====
-- How often `flushWithRetry` tries, what it returns, and how long it sleeps
-- (internal/buffer/buffer.go).
use native.Mathlib.Nat.{pow-suc, add-zero, zero-add}
use chronometrics.Common.{
  ℕ, zero, suc, ◌+◌, ◌-◌, ◌*◌, ◌^◌, ◌<◌, min, ◌≡◌, ◌≢◌, refl, Option, none, some, List, [], ◌∷◌,
  arith, Option-cases, inl, inr, ◌∙◌, ap,
}
use chronometrics.Common.Int.{ℤ, pos, negsuc}
use chronometrics.Errors.{Error}
use chronometrics.Config.Types.{BufferConfig}
use chronometrics.Buffer.Retry.{
  FlushReport, second, first_backoff, next_backoff, rounds, flush_timeout, flush_attempts,
  flush_with_retry,
}

-- The sleep after a failed attempt: 10 ms doubled each time, up to a second.
pub backoff_at : ℕ → ℕ
backoff_at i = min (first_backoff * 2 ^ i) second

-- The sleeps after `n` failed attempts from attempt `i` on.
abbrev pub backoffs : ℕ → ℕ → List ℕ
backoffs zero i = []
backoffs (suc n) i = backoff_at i ∷ backoffs n (suc i)

next_backoff-backoff_at : (i : ℕ) → next_backoff (backoff_at i) ≡ backoff_at (suc i)
unfolding next_backoff backoff_at
next_backoff-backoff_at i = ground (arith, pow-suc 2 i)

module _ (outcome : ℕ → Option Error) where
  -- Every attempt from `i` up to `i + k` fails.
  abbrev FailsFrom : ℕ → ℕ → Type 0
  FailsFrom i k = (j : ℕ) → j < k → outcome (i + j) ≢ none

  shift : (i j : ℕ) → i + suc j ≡ suc i + j
  shift i j = omega arith

  FailsFrom-suc : (i k : ℕ) → FailsFrom i (suc k) → FailsFrom (suc i) k
  FailsFrom-suc i k h j lt e = h (suc j) (omega arith) (rw (shift i j) e)

  flush_attempts_ok :
      (left i backoff : ℕ) (last : Option Error)
      → outcome i ≡ none
      → flush_attempts outcome (suc left) i backoff last
        ≡ record { result = none; attempts = suc i; sleeps = [] }
  unfolding flush_attempts
  flush_attempts_ok left i backoff last e = rw (e, flush_attempts)

  abbrev after_sleep : ℕ → FlushReport → FlushReport
  after_sleep backoff rest = record rest { sleeps = backoff ∷ rest.sleeps }

  flush_attempts_fail :
      (left i : ℕ) (last : Option Error) (x : Error)
      → outcome i ≡ some x
      → flush_attempts outcome (suc left) i (backoff_at i) last
        ≡ after_sleep
            (backoff_at i)
            (flush_attempts outcome left (suc i) (backoff_at (suc i)) (some x))
  unfolding flush_attempts
  flush_attempts_fail left i last x e = rw (e, flush_attempts) (rw (next_backoff-backoff_at i) refl)

  flush_attempts_out :
      (i backoff : ℕ) (last : Option Error)
      → flush_attempts outcome 0 (suc i) backoff last
        ≡ record { result = last; attempts = suc i; sleeps = [] }
  unfolding flush_attempts
  flush_attempts_out i backoff last = refl

  flush_attempts_success :
      (k left i : ℕ) (last : Option Error)
      → k < left
      → FailsFrom i k
      → outcome (i + k) ≡ none
      → flush_attempts outcome left i (backoff_at i) last
        ≡ record { result = none; attempts = suc (i + k); sleeps = backoffs k i }
  flush_attempts_success k zero i last h fails good = absurd (omega arith)
  flush_attempts_success zero (suc left) i last h fails good =
      rw (add-zero i) (flush_attempts_ok left i (backoff_at i) last (rw (← add-zero i) good))
  flush_attempts_success (suc k) (suc left) i last h fails good = elim (Option-cases (outcome i)) [
    | inl e ↦ absurd (fails 0 (omega arith) (rw (add-zero i) e))
    | inr (x, e) ↦ rw (shift i k) (
        flush_attempts_fail left i last x e
        ∙ ap (after_sleep (backoff_at i)) (
            flush_attempts_success k left (suc i) (some x) (omega arith) (FailsFrom-suc i k fails)
              (rw (← shift i k) good)))
  ]

  flush_attempts_failure :
      (left i : ℕ) (last : Option Error)
      → FailsFrom i (suc left)
      → flush_attempts outcome (suc left) i (backoff_at i) last ≡ record {
        result = outcome (i + left);
        attempts = suc (i + left);
        sleeps = backoffs (suc left) i;
      }
  flush_attempts_failure zero i last fails = elim (Option-cases (outcome i)) [
    | inl e ↦ absurd (fails 0 (omega arith) (rw (add-zero i) e))
    | inr (x, e) ↦
        flush_attempts_fail 0 i last x e
        ∙ rw (flush_attempts_out i (backoff_at (suc i)) (some x), add-zero i, e) refl
  ]
  flush_attempts_failure (suc left) i last fails = elim (Option-cases (outcome i)) [
    | inl e ↦ absurd (fails 0 (omega arith) (rw (add-zero i) e))
    | inr (x, e) ↦ rw (shift i left) (
        flush_attempts_fail (suc left) i last x e
        ∙ ap (after_sleep (backoff_at i))
            (flush_attempts_failure left (suc i) (some x) (FailsFrom-suc i (suc left) fails)))
  ]

pub rounds-pos : (r : ℤ) → (n : ℕ) × (rounds r ≡ suc n)
rounds-pos (pos zero) = (0, refl)
rounds-pos (pos (suc n)) = (n, refl)
rounds-pos (negsuc n) = (0, refl)

-- Where attempt `k` of at most `max(1, retries)` is the first that succeeds, `flush_with_retry`
-- returns no error after `k + 1` calls of `Flush`, and before the next call it has slept 10 ms
-- doubled each time, up to a second.
pub flush_with_retry_success :
    (cfg : BufferConfig) (outcome : ℤ → ℕ → Option Error) (k : ℕ)
    → k < rounds cfg.flush_retries
    → ((j : ℕ) → j < k → outcome (flush_timeout cfg) j ≢ none)
    → outcome (flush_timeout cfg) k ≡ none
    → flush_with_retry cfg outcome
      ≡ record { result = none; attempts = suc k; sleeps = backoffs k 0 }
unfolding flush_with_retry backoff_at
flush_with_retry_success cfg outcome k h fails good =
    flush_attempts_success (outcome (flush_timeout cfg)) k (rounds cfg.flush_retries) 0 none h
      (λ j lt e. fails j lt (rw (← zero-add j) e)) (rw (zero-add k) good)
    ∙ rw (zero-add k) refl

-- Where every one of the `max(1, retries)` attempts fails, `flush_with_retry` returns the error of
-- the last one, after that many calls of `Flush` and as many sleeps.
pub flush_with_retry_failure :
    (cfg : BufferConfig) (outcome : ℤ → ℕ → Option Error)
    → ((j : ℕ) → j < rounds cfg.flush_retries → outcome (flush_timeout cfg) j ≢ none)
    → flush_with_retry cfg outcome ≡ record {
      result = outcome (flush_timeout cfg) (rounds cfg.flush_retries - 1);
      attempts = rounds cfg.flush_retries;
      sleeps = backoffs (rounds cfg.flush_retries) 0;
    }
unfolding flush_with_retry backoff_at
flush_with_retry_failure cfg outcome fails =
    let (n, e) = rounds-pos cfg.flush_retries in
    let o = outcome (flush_timeout cfg) in
    let last : suc n - 1 ≡ n = omega arith in
    rw (e, last)
      (flush_attempts_failure o n 0 none (λ j lt q. fails j (rw e lt) (rw (← zero-add j) q))
        ∙ rw (zero-add n) refl)
