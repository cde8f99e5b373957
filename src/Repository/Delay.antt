-- ===== src/Repository/Delay.antt =====
-- The backoff of `Connect` (internal/repository/repository.go).
use native.Mathlib.Nat.{pow-succ', mul_assoc}
use chronometrics.Common.{
  ℕ, ap, sym, zero, suc, ◌*◌, ◌^◌, ◌≤◌, ◌≡◌, refl, ◌∙◌, arith, min, inl, inr, Bool-cases, ltb,
}
use chronometrics.Common.Int.{pos, i64_max, scale}
use chronometrics.Repository.{retry_delay}

scale_two : (b : ℕ) → 2 * b ≤ i64_max → scale (pos b) 2 ≡ pos (b * 2)
scale_two b h = ground arith

pow_shift : (n b : ℕ) → b * 2 ^ suc n ≡ (b * 2) * 2 ^ n
pow_shift n b = ap (λ x. b * x) (pow-succ' 2 n) ∙ sym (mul_assoc b 2 (2 ^ n))

le_doubled : (n b : ℕ) → b ≤ b * 2 ^ n
le_doubled zero b = omega arith
le_doubled (suc n) b = omega (arith, pow_shift n b, le_doubled n (b * 2))

-- For delays whose doubling fits an `int64`, the delay after attempt `n` is the base doubled `n`
-- times, and at most the maximum, where the base is not above the maximum.
pub retry_delay-capped :
    (n base max : ℕ)
    → base ≤ max
    → 2 * max ≤ i64_max
    → retry_delay n (pos base) (pos max) ≡ pos (min (base * 2 ^ n) max)
unfolding retry_delay
retry_delay-capped zero base max h k = ground arith
retry_delay-capped (suc n) base max h k = elim (Bool-cases (ltb max (base * 2))) [
  | inl above ↦
      rw (scale_two base (omega (arith, h, k)), above)
        (ground (arith, pow_shift n base, le_doubled n (base * 2)))
  | inr below ↦
      rw (scale_two base (omega (arith, h, k)), below)
        (retry_delay-capped n (base * 2) max (ground arith) k ∙ rw (pow_shift n base) refl)
]
