-- ===== src/Handler/Limiter.antt =====
-- internal/handler/handler.go and middleware.go: the rate limiters by route name.
pub mod Window
pub mod Seconds
use chronometrics.Common.{
  ℕ, suc, Bool, true, false, Option, none, some, List, [], ◌∷◌, ◌++◌, Text, txt, text_eq,
  if◌then◌else◌,
}
use chronometrics.Common.Int.{ℤ, pos, leb_ℤ}

pub record RateLimiter : Type 0 where
  pub count : ℕ
  pub limit : ℤ

pub record RateLimiterConfig : Type 0 where
  pub ingest : ℤ
  pub bulk : ℤ
  pub metrics : ℤ
  pub health : ℤ

abbrev pub LimiterRegistry : Type 0
LimiterRegistry = List (Text × RateLimiter)

unfoldable pub new_limiter_registry : RateLimiterConfig → LimiterRegistry
new_limiter_registry cfg =
    (txt "ingest", record { count = 0; limit = cfg.ingest })
    ∷ (txt "bulk", record { count = 0; limit = cfg.bulk })
    ∷ (txt "metrics", record { count = 0; limit = cfg.metrics })
    ∷ (txt "health", record { count = 0; limit = cfg.health })
    ∷ []

-- The tick of the reset goroutine.
unfoldable pub reset : LimiterRegistry → LimiterRegistry
reset [] = []
reset ((name, rl) ∷ rest) = (name, record rl { count = 0 }) ∷ reset rest

unfoldable pub find_limiter : Text → LimiterRegistry → Option RateLimiter
find_limiter name [] = none
find_limiter name ((key, rl) ∷ rest) = if text_eq key name then some rl else find_limiter name rest

-- The limiter is shared by a pointer: the first entry of that name is updated in place.
unfoldable pub put_limiter : Text → RateLimiter → LimiterRegistry → LimiterRegistry
put_limiter name new [] = []
put_limiter name new ((key, rl) ∷ rest) =
    if text_eq key name then (key, new) ∷ rest else (key, rl) ∷ put_limiter name new rest

-- `withLimiter` up to the call of the next handler: the flag says whether it is made.
unfoldable pub with_limiter : Text → LimiterRegistry → LimiterRegistry × Bool
with_limiter name registry = elim (find_limiter name registry) [
  | none ↦ (registry, true)
  | some rl ↦
      if leb_ℤ rl.limit (pos rl.count)
      then (registry, false)
      else (put_limiter name (record rl { count = suc rl.count }) registry, true)
]
