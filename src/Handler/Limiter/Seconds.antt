-- ===== src/Handler/Limiter/Seconds.antt =====
-- The rate limiters over time: requests, and the ticks of the reset goroutine that part them
-- (internal/handler/handler.go and middleware.go).
use mathlib.Core.Option.{some_inj}
use chronometrics.Common.{
  ℕ, suc, ◌+◌, ◌*◌, ◌≤◌, min, ◌≡◌, refl, sym, ap, ◌∙◌, inl, inr, Bool, true, false, some, List, [],
  ◌∷◌, ◌++◌, arith, Text, text_eq, eq_of_text_eq, if◌then◌else◌, Bool-cases, ltb, length, All,
}
use chronometrics.Common.Int.{pos}
use chronometrics.Handler.Limiter.{
  RateLimiter, RateLimiterConfig, LimiterRegistry, new_limiter_registry, reset, find_limiter,
  with_limiter,
}
use chronometrics.Handler.Limiter.Window.{
  run_window, requests, passes, with_limiter_self, with_limiter_ne, find_limiter-reset,
  window-passes,
}

-- The requests between one tick and the next, in any number of seconds.
unfoldable pub run_seconds :
    List (List Text) → LimiterRegistry → LimiterRegistry × List (Text × Bool)
unfolding run_window reset
run_seconds [] registry = (registry, [])
run_seconds (names ∷ seconds) registry =
    let (spent, results) = run_window names registry in
    let (final, others) = run_seconds seconds (reset spent) in (final, results ++ others)

-- The requests to a route that are within the limit of their second.
abbrev pub within : Text → ℕ → List (List Text) → ℕ
within name l [] = 0
within name l (names ∷ seconds) = min l (requests name names) + within name l seconds

passes-append :
    (name : Text) (xs ys : List (Text × Bool))
    → passes name (xs ++ ys) ≡ passes name xs + passes name ys
passes-append name [] ys = omega arith
passes-append name ((x, true) ∷ xs) ys = ground (arith, passes-append name xs ys)
passes-append name ((x, false) ∷ xs) ys = passes-append name xs ys

-- A window changes the count of a limiter only.
window_keeps :
    (names : List Text) (name : Text) (c l : ℕ) (registry : LimiterRegistry)
    → find_limiter name registry ≡ some (record { count = c; limit = pos l })
    → (c' : ℕ) × (find_limiter name (run_window names registry).0
        ≡ some (record { count = c'; limit = pos l }))
unfolding run_window
window_keeps [] name c l registry h = (c, h)
window_keeps (x ∷ xs) name c l registry h = elim (Bool-cases (text_eq x name)) [
  | inl same ↦ rw (eq_of_text_eq x name same) (
      window_keeps xs name (if ltb c l then suc c else c) l (with_limiter name registry).0
        (with_limiter_self name c l registry h).1)
  | inr other ↦
      window_keeps xs name c l (with_limiter x registry).0
        (with_limiter_ne name x registry other ∙ h)
]

seconds-passes :
    (seconds : List (List Text)) (name : Text) (l : ℕ) (registry : LimiterRegistry)
    → find_limiter name registry ≡ some (record { count = 0; limit = pos l })
    → passes name (run_seconds seconds registry).1 ≡ within name l seconds
unfolding run_seconds
seconds-passes [] name l registry h = refl
seconds-passes (names ∷ seconds) name l registry h =
    let (c, kept) = window_keeps names name 0 l registry h in
    let spent = (run_window names registry).0 in
    passes-append name (run_window names registry).1 (run_seconds seconds (reset spent)).1
    ∙ omega (
      arith,
      window-passes names name 0 l registry (omega arith) h,
      seconds-passes seconds name l (reset spent) (find_limiter-reset name _ spent kept),
    )

within_at_most :
    (name : Text) (l : ℕ) (seconds : List (List Text)) → within name l seconds ≤ l * length seconds
within_at_most name l [] = omega arith
within_at_most name l (names ∷ seconds) = ground (arith, within_at_most name l seconds)

-- Every limiter of a new registry starts at 0.
find_zero :
    (name : Text) (rl : RateLimiter) (registry : LimiterRegistry)
    → All (λ x. x.1.count ≡ 0) registry
    → find_limiter name registry ≡ some rl
    → rl.count ≡ 0
unfolding find_limiter
find_zero name rl [] a h = absurd (ground arith)
find_zero name rl ((key, x) ∷ rest) a h = elim (Bool-cases (text_eq key name)) [
  | inl same ↦ let found : x ≡ rl = some_inj.0 (rw same at h) in ap (λ y. y.count) (sym found) ∙ a.0
  | inr other ↦ find_zero name rl rest a.1 (rw other at h)
]

new_starts :
    (cfg : RateLimiterConfig) (name : Text) (rl : RateLimiter)
    → find_limiter name (new_limiter_registry cfg) ≡ some rl
    → rl.count ≡ 0
unfolding new_limiter_registry
new_starts cfg name rl h =
    find_zero name rl (new_limiter_registry cfg) (refl, (refl, (refl, (refl, tt)))) h

-- From a new registry, whatever the requests to all routes and whenever the ticks come: of the
-- requests to a route with a limiter of limit `l` that lie between one tick and the next, exactly
-- `l` pass, or all if they are fewer; so at most `l` for each stretch between ticks.
pub limit_over_time :
    (cfg : RateLimiterConfig) (seconds : List (List Text)) (name : Text) (rl : RateLimiter) (l : ℕ)
    → find_limiter name (new_limiter_registry cfg) ≡ some rl
    → rl.limit ≡ pos l
    → (passes name (run_seconds seconds (new_limiter_registry cfg)).1 ≡ within name l seconds)
      × (passes name (run_seconds seconds (new_limiter_registry cfg)).1 ≤ l * length seconds)
limit_over_time cfg seconds name rl l h e =
    let exact =
      seconds-passes seconds name l (new_limiter_registry cfg)
        (ground (arith, new_starts cfg name rl h)) in
    (exact, omega (arith, exact, within_at_most name l seconds))
