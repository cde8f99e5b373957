-- ===== src/Handler/Limiter/Window.antt =====
-- How many requests pass a limiter between two resets (internal/handler/middleware.go).
use chronometrics.Common.{
  ℕ, suc, ◌-◌, ◌≤◌, min, ◌≡◌, refl, ◌∙◌, inl, inr, Bool, true, false, some, List, [], ◌∷◌, arith,
  Text, text_eq, text_eq_refl, eq_of_text_eq, if◌then◌else◌, Bool-cases, ltb, Option-cases,
}
use chronometrics.Common.Int.{pos, leb_ℤ}
use chronometrics.Handler.Limiter.{
  RateLimiter, LimiterRegistry, reset, find_limiter, put_limiter, with_limiter,
}

find_limiter-put_limiter_self :
    (name : Text) (rl new : RateLimiter) (registry : LimiterRegistry)
    → find_limiter name registry ≡ some rl
    → find_limiter name (put_limiter name new registry) ≡ some new
unfolding find_limiter put_limiter
find_limiter-put_limiter_self name rl new [] h = absurd (ground arith)
find_limiter-put_limiter_self name rl new ((key, x) ∷ rest) h =
    ground (arith, find_limiter-put_limiter_self name rl new rest)

text_eq_swap : (k j n : Text) → text_eq j n ≡ false → text_eq k j ≡ true → text_eq k n ≡ false
text_eq_swap k j n h e = rw (eq_of_text_eq k j e) h

find_limiter-put_limiter_ne :
    (name other : Text) (new : RateLimiter) (registry : LimiterRegistry)
    → text_eq other name ≡ false
    → find_limiter name (put_limiter other new registry) ≡ find_limiter name registry
unfolding find_limiter put_limiter
find_limiter-put_limiter_ne name other new [] h = refl
find_limiter-put_limiter_ne name other new ((key, x) ∷ rest) h =
    ground (arith, find_limiter-put_limiter_ne name other new rest h, text_eq_swap key other name h)

-- A run of requests to any routes, with no reset in between.
unfoldable pub run_window : List Text → LimiterRegistry → LimiterRegistry × List (Text × Bool)
run_window [] registry = (registry, [])
run_window (name ∷ names) registry =
    let (registry', passed) = with_limiter name registry in
    let (final, results) = run_window names registry' in (final, (name, passed) ∷ results)

-- The requests to a route, and those of them that passed.
abbrev pub requests : Text → List Text → ℕ
requests name [] = 0
requests name (x ∷ xs) = if text_eq x name then suc (requests name xs) else requests name xs

abbrev pub passes : Text → List (Text × Bool) → ℕ
passes name [] = 0
passes name ((x, true) ∷ xs) = if text_eq x name then suc (passes name xs) else passes name xs
passes name ((x, false) ∷ xs) = passes name xs

-- One request, as its own route sees it and as another route sees it.
pub with_limiter_self :
    (name : Text) (c l : ℕ) (registry : LimiterRegistry)
    → find_limiter name registry ≡ some (record { count = c; limit = pos l })
    → let (registry', passed) = with_limiter name registry in
      (passed ≡ ltb c l)
      × (find_limiter name registry'
          ≡ some (record { count = if ltb c l then suc c else c; limit = pos l }))
unfolding with_limiter
with_limiter_self name c l registry h = elim (Bool-cases (ltb c l)) [
  | inl below ↦
      let open_still : leb_ℤ (pos l) (pos c) ≡ false = ground arith in
      rw (h, with_limiter, open_still, below)
        (refl, find_limiter-put_limiter_self name _ _ registry h)
  | inr full ↦
      let closed : leb_ℤ (pos l) (pos c) ≡ true = ground arith in
      rw (h, with_limiter, closed, full) (refl, h)
]

pub with_limiter_ne :
    (name other : Text) (registry : LimiterRegistry)
    → text_eq other name ≡ false
    → find_limiter name (with_limiter other registry).0 ≡ find_limiter name registry
unfolding with_limiter
with_limiter_ne name other registry h = elim (Option-cases (find_limiter other registry)) [
  | inl missing ↦ rw (missing, with_limiter) refl
  | inr (rl, found) ↦
      rw (found, with_limiter)
        (elim (Bool-cases (leb_ℤ rl.limit (pos rl.count))) [
          | inl full ↦ rw full refl
          | inr room ↦ rw room (find_limiter-put_limiter_ne name other _ registry h)
        ])
]

pub window-passes :
    (names : List Text) (name : Text) (c l : ℕ) (registry : LimiterRegistry)
    → c ≤ l
    → find_limiter name registry ≡ some (record { count = c; limit = pos l })
    → passes name (run_window names registry).1 ≡ min (l - c) (requests name names)
unfolding run_window
window-passes [] name c l registry le h = omega arith
window-passes (x ∷ xs) name c l registry le h = elim (Bool-cases (text_eq x name)) [
  | inl same ↦
      rw (eq_of_text_eq x name same, text_eq_refl name)
        (let (passed, found) = with_limiter_self name c l registry h in
          elim (Bool-cases (ltb c l)) [
            | inl below ↦ ground (
              arith,
              passed,
              text_eq_refl name,
              window-passes xs name (suc c) l (with_limiter name registry).0 (ground arith)
                  (rw below at found),
            )
            | inr full ↦ ground (
              arith,
              passed,
              text_eq_refl name,
              window-passes xs name c l (with_limiter name registry).0 le (rw full at found),
            )
          ])
  | inr other ↦ ground (
    arith,
    window-passes xs name c l (with_limiter x registry).0 le
        (with_limiter_ne name x registry other ∙ h),
  )
]

pub find_limiter-reset :
    (name : Text) (rl : RateLimiter) (registry : LimiterRegistry)
    → find_limiter name registry ≡ some rl
    → find_limiter name (reset registry) ≡ some (record rl { count = 0 })
unfolding find_limiter reset
find_limiter-reset name rl [] h = absurd (ground arith)
find_limiter-reset name rl ((key, x) ∷ rest) h = ground (arith, find_limiter-reset name rl rest)

-- Between two resets, of the requests to a route with a limiter of limit `l`, mixed in any order
-- with requests to other routes, exactly `l` pass, or all if they are fewer.
pub window_after_reset :
    (names : List Text) (name : Text) (rl : RateLimiter) (l : ℕ) (registry : LimiterRegistry)
    → find_limiter name registry ≡ some rl
    → rl.limit ≡ pos l
    → passes name (run_window names (reset registry)).1 ≡ min l (requests name names)
window_after_reset names name rl l registry h e = ground (
  arith,
  window-passes names name 0 l (reset registry) (omega arith)
      (ground (arith, find_limiter-reset name rl registry h)),
)
