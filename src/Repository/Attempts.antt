-- ===== src/Repository/Attempts.antt =====
-- The retries of `Connect` (internal/repository/repository.go).
use native.Mathlib.Nat.{add-zero, zero-add}
use chronometrics.Common.{
  ℕ, zero, suc, ◌+◌, ◌≤◌, ◌<◌, ◌≡◌, ◌≢◌, refl, ◌∙◌, ap, arith, inl, inr, Bool, true, false, not,
  Option, none, some, Option-cases, List, [], ◌∷◌,
}
use chronometrics.Common.Int.{ℤ}
use chronometrics.Errors.{Error}
use chronometrics.Domain.Json.{Result, ok, err}
use chronometrics.Repository.{
  Config, ConnectReport, new, with_pool, retries, delay_after, connected, gave_up, stopped,
  with_delay, ping_attempts, connect,
}

-- The delays after `n` attempts from an attempt on.
abbrev pub delays_from : Config → ℕ → ℕ → List ℤ
delays_from cfg zero i = []
delays_from cfg (suc n) i = delay_after cfg i ∷ delays_from cfg n (suc i)

abbrev pub is_ok : Result Config → Bool
is_ok (ok c) = true
is_ok (err e) = false

-- A report that has closed the connection exactly if it is an error, after a number of pings.
record IsTidy (lo hi : ℕ) (r : ConnectReport) : Type 0 where
  closes : r.closed ≡ not (is_ok r.result)
  at_least : lo ≤ r.pings
  at_most : r.pings ≤ hi

module _ (cfg : Config) (ping : ℕ → Option Error) (interrupted : ℕ → Option Error) where
  ping_attempts-IsTidy :
      (left i : ℕ) → IsTidy (suc i) (suc (i + left)) (ping_attempts cfg ping interrupted left i)
  unfolding ping_attempts connected gave_up stopped
  ping_attempts-IsTidy zero i = elim (Option-cases (ping i)) [
    | inl h ↦ rw (h, ping_attempts) (ground arith)
    | inr (e, h) ↦ rw (h, ping_attempts) (ground arith)
  ]
  ping_attempts-IsTidy (suc left) i = elim (Option-cases (ping i)) [
    | inl h ↦ rw (h, ping_attempts) (ground arith)
    | inr (e, h) ↦ elim (Option-cases (interrupted i)) [
      | inl g ↦ rw (h, ping_attempts, g) (ground (arith, ping_attempts-IsTidy left (suc i)))
      | inr (x, g) ↦ rw (h, ping_attempts, g) (ground arith)
    ]
  ]

  -- Once the connection is opened, `connect` pings at least once and at most once more than the
  -- number of retries, whatever the pings give and wherever the context ends; and it closes the
  -- connection exactly if it returns an error.
  pub connect_closes :
      (connect cfg ping interrupted none).closed
        ≡ not (is_ok (connect cfg ping interrupted none).result)
      × (1 ≤ (connect cfg ping interrupted none).pings)
      × ((connect cfg ping interrupted none).pings ≤ suc (retries cfg))
  unfolding connect
  connect_closes =
      let t = ping_attempts-IsTidy (retries cfg) 0 in
      (t.closes, t.at_least, omega (arith, t.at_most))

  -- From attempt `i` on, `k` pings fail, and the context lives through the waits after them.
  abbrev FailsFrom : ℕ → ℕ → Type 0
  FailsFrom i k = (j : ℕ) → j < k → (ping (i + j) ≢ none) × (interrupted (i + j) ≡ none)

  shift : (i j : ℕ) → i + suc j ≡ suc i + j
  shift i j = omega arith

  FailsFrom-suc : (i k : ℕ) → FailsFrom i (suc k) → FailsFrom (suc i) k
  FailsFrom-suc i k h j lt =
      let (f, g) = h (suc j) (omega arith) in (λ e. f (rw (shift i j) e), rw (← shift i j) g)

  ping_attempts_ok :
      (left i : ℕ) → ping i ≡ none → ping_attempts cfg ping interrupted left i ≡ connected cfg i
  unfolding ping_attempts
  ping_attempts_ok zero i e = rw (e, ping_attempts) refl
  ping_attempts_ok (suc left) i e = rw (e, ping_attempts) refl

  ping_attempts_fail :
      (left i : ℕ) (x : Error)
      → ping i ≡ some x
      → interrupted i ≡ none
      → ping_attempts cfg ping interrupted (suc left) i
        ≡ with_delay (delay_after cfg i) (ping_attempts cfg ping interrupted left (suc i))
  unfolding ping_attempts
  ping_attempts_fail left i x e g = rw (e, ping_attempts, g) refl

  ping_attempts_success :
      (k left i : ℕ)
      → k ≤ left
      → FailsFrom i k
      → ping (i + k) ≡ none
      → ping_attempts cfg ping interrupted left i ≡ record {
        result = ok (new (with_pool cfg));
        pings = suc (i + k);
        delays = delays_from cfg k i;
        closed = false;
      }
  unfolding connected
  ping_attempts_success zero left i h fails good =
      ping_attempts_ok left i (rw (← add-zero i) good) ∙ rw (add-zero i) refl
  ping_attempts_success (suc k) zero i h fails good = absurd (omega arith)
  ping_attempts_success (suc k) (suc left) i h fails good = elim (Option-cases (ping i)) [
    | inl e ↦ absurd ((fails 0 (omega arith)).0 (rw (add-zero i) e))
    | inr (x, e) ↦ rw (shift i k) (
        ping_attempts_fail left i x e (rw (← add-zero i) (fails 0 (omega arith)).1)
        ∙ ap (with_delay (delay_after cfg i)) (
            ping_attempts_success k left (suc i) (omega arith) (FailsFrom-suc i k fails)
              (rw (← shift i k) good)))
  ]

  -- Once the connection is opened, where ping `k` is the first that succeeds, `k` is at most the
  -- number of retries, and the context lives through the waits before it, `connect` returns the
  -- configuration with its defaults after `k + 1` pings, with the delays of `retryDelay` between.
  pub connect_success :
      (k : ℕ)
      → k ≤ retries cfg
      → ((j : ℕ) → j < k → (ping j ≢ none) × (interrupted j ≡ none))
      → ping k ≡ none
      → connect cfg ping interrupted none ≡ record {
        result = ok (new (with_pool cfg));
        pings = suc k;
        delays = delays_from cfg k 0;
        closed = false;
      }
  unfolding connect
  connect_success k h fails good =
      ping_attempts_success k (retries cfg) 0 h
        (λ j lt. (λ e. (fails j lt).0 (rw (← zero-add j) e), rw (zero-add j) (fails j lt).1))
        (rw (zero-add k) good)
      ∙ rw (zero-add k) refl
