-- ===== src/Common/Numerals.antt =====
-- Decimal numbers as text: the verb `%d` of a number that is not negative, and
-- `strconv.ParseInt(s, 10, 64)`, which is also `strconv.Atoi` where `int` has 64 bits: an optional
-- sign, decimal digits, at least one, and a range check. `none` is any of its errors.
use Prim.Native.Nat.{ℕ, zero, suc, ◌+◌, ◌-◌, ◌*◌, ◌/◌, ◌%◌}
use Prim.Native.Nat.{◌<◌}
use native.Mathlib.Omega.{arith}
use mathlib.Core.Path.{◌≡◌, sym, ap, ◌∙◌}
use mathlib.Core.Logic.{inl, inr}
use mathlib.Core.Option.{some_inj}
use mathlib.Core.Bool.{Bool, true, false, ◌&&◌}
use mathlib.Core.List.{[], ◌∷◌}
use mathlib.Core.Option.{Option, none, some}
use chronometrics.Common.Tests.{ltb, leb, ◌==◌, if◌then◌else◌, Bool-cases}
use chronometrics.Common.Strings.{Text}
use chronometrics.Common.Int.{ℤ, pos, neg, i64_max}

is_digit : ℕ → Bool
is_digit b = leb b'0' b && leb b b'9'

unfoldable pub parse_digits : ℕ → Text → Option ℕ
unfolding is_digit
parse_digits acc [] = some acc
parse_digits acc (b ∷ s) =
    let rest = parse_digits (acc * 10 + (b - b'0')) s in if is_digit b then rest else none

parse_unsigned : Text → Option ℕ
unfolding parse_digits
parse_unsigned [] = none
parse_unsigned (b ∷ s) = parse_digits 0 (b ∷ s)

in_range : ℕ → ℤ → Option ℕ → Option ℤ
in_range limit z none = none
in_range limit z (some n) = if leb n limit then some z else none

magnitude : Option ℕ → ℕ
magnitude none = 0
magnitude (some n) = n

parse_signed : Bool → Text → Option ℤ
unfolding parse_unsigned in_range magnitude
parse_signed true s = in_range (suc i64_max) (neg (magnitude (parse_unsigned s))) (parse_unsigned s)
parse_signed false s = in_range i64_max (pos (magnitude (parse_unsigned s))) (parse_unsigned s)

unfoldable pub parse_int : Text → Option ℤ
unfolding parse_signed
parse_int [] = none
parse_int (b ∷ s) =
    if b == b'-'
    then parse_signed true s
    else if b == b'+'
    then parse_signed false s
    else parse_signed false (b ∷ s)

decimal_from : ℕ → ℕ → Text → Text
decimal_from zero n acc = acc
decimal_from (suc fuel) n acc =
    let rest = decimal_from fuel (n / 10) ((b'0' + n % 10) ∷ acc) in
    if ltb n 10 then (b'0' + n) ∷ acc else rest

-- The fuel `suc n` is enough, since `n / 10` falls as long as it is used.
unfoldable pub decimal : ℕ → Text
unfolding decimal_from
decimal n = decimal_from (suc n) n []

parse_digits-cons :
    (acc d : ℕ) (s : Text)
    → d < 10
    → parse_digits acc ((b'0' + d) ∷ s) ≡ parse_digits (acc * 10 + d) s
unfolding parse_digits is_digit
parse_digits-cons acc d s h = ground arith

parse_digits-decimal_from :
    (fuel n : ℕ) (s : Text) → n < fuel → parse_digits 0 (decimal_from fuel n s) ≡ parse_digits n s
unfolding decimal_from
parse_digits-decimal_from zero n s h = absurd (omega arith)
parse_digits-decimal_from (suc fuel) n s h = elim (Bool-cases (ltb n 10)) [
  | inl short ↦
      rw short (parse_digits-cons 0 n s (ground arith) ∙ ap (λ k. parse_digits k s) (omega arith))
  | inr long ↦ rw long (
      parse_digits-decimal_from fuel (n / 10) ((b'0' + n % 10) ∷ s) (ground arith)
      ∙ parse_digits-cons (n / 10) (n % 10) s (omega arith)
      ∙ ap (λ k. parse_digits k s) (omega arith))
]

-- The digits of a number are read back as that number.
pub parse_digits-decimal : (n : ℕ) → parse_digits 0 (decimal n) ≡ some n
unfolding decimal parse_digits
parse_digits-decimal n = parse_digits-decimal_from (suc n) n [] (omega arith)

pub decimal_inj : (m n : ℕ) → decimal m ≡ decimal n → m ≡ n
decimal_inj m n h =
    some_inj.0 (sym (parse_digits-decimal m) ∙ ap (parse_digits 0) h ∙ parse_digits-decimal n)
