-- ===== src/Buffer/Retry/Found.antt =====
-- `flushWithRetry` returns no error exactly if one of its attempts is a success (internal/buffer/buffer.go).
use native.Mathlib.Nat.{add-zero, zero-add}
use chronometrics.Common.{
  ℕ, zero, suc, ◌+◌, ◌<◌, ◌≡◌, refl, ◌⊎◌, inl, inr, Option, none, some, Option-cases, arith,
}
use chronometrics.Common.Int.{ℤ}
use chronometrics.Errors.{Error}
use chronometrics.Config.Types.{BufferConfig}
use chronometrics.Buffer.Retry.{
  rounds, first_backoff, flush_timeout, next_backoff, flush_attempts, flush_with_retry,
}
use chronometrics.Buffer.Retry.Attempts.{rounds-pos}

flush_attempts-found :
    (outcome : ℕ → Option Error) (left i backoff : ℕ) (last : Option Error)
    → (flush_attempts outcome left i backoff last).result ≡ none
    → ((left ≡ 0) × (last ≡ none)) ⊎ ((j : ℕ) × (outcome j ≡ none))
unfolding flush_attempts
flush_attempts-found outcome zero i backoff last h = inl (refl, h)
flush_attempts-found outcome (suc left) i backoff last h = elim (Option-cases (outcome i)) [
  | inl e ↦ inr (i, e)
  | inr (x, e) ↦
      elim (flush_attempts-found outcome left (suc i) (next_backoff backoff) (some x)
        (rw (e, flush_attempts) at h)) [
          | inl (l, n) ↦ absurd (ground (arith, n))
          | inr found ↦ inr found
        ]
]

pub flush_with_retry-found :
    (cfg : BufferConfig) (outcome : ℤ → ℕ → Option Error)
    → (flush_with_retry cfg outcome).result ≡ none
    → (j : ℕ) × (outcome (flush_timeout cfg) j ≡ none)
unfolding flush_with_retry
flush_with_retry-found cfg outcome h =
    let (n, e) = rounds-pos cfg.flush_retries in
    elim (flush_attempts-found (outcome (flush_timeout cfg)) (rounds cfg.flush_retries) 0
      first_backoff none h) [ inl (l, q) ↦ absurd (omega (arith, l, e)) | inr found ↦ found ]

flush_attempts-reached :
    (outcome : ℕ → Option Error) (left i backoff : ℕ) (last : Option Error) (k : ℕ)
    → k < left
    → outcome (i + k) ≡ none
    → (flush_attempts outcome left i backoff last).result ≡ none
unfolding flush_attempts
flush_attempts-reached outcome zero i backoff last k lt e = absurd (omega arith)
flush_attempts-reached outcome (suc left) i backoff last zero lt e =
    (let f : outcome i ≡ none = rw (← add-zero i) e in rw (f, flush_attempts) refl)
flush_attempts-reached outcome (suc left) i backoff last (suc k) lt e =
    elim (Option-cases (outcome i)) [
      | inl f ↦ rw (f, flush_attempts) refl
      | inr (x, f) ↦
          let shift : i + suc k ≡ suc i + k = omega arith in
          rw (f, flush_attempts)
            (flush_attempts-reached outcome left (suc i) (next_backoff backoff) (some x) k
              (omega arith) (rw shift at e))
    ]

-- Where one of the attempts is a success, `flushWithRetry` returns no error.
pub flush_with_retry-reached :
    (cfg : BufferConfig) (outcome : ℤ → ℕ → Option Error) (k : ℕ)
    → k < rounds cfg.flush_retries
    → outcome (flush_timeout cfg) k ≡ none
    → (flush_with_retry cfg outcome).result ≡ none
unfolding flush_with_retry
flush_with_retry-reached cfg outcome k lt e =
    flush_attempts-reached (outcome (flush_timeout cfg)) (rounds cfg.flush_retries) 0 first_backoff
      none k lt (rw (zero-add k) e)
