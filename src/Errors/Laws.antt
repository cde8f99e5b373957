-- ===== src/Errors/Laws.antt =====
-- What `errors.Is` and `errors.As` see through (internal/domain/errors.go).
use mathlib.Core.Option.{some_inj}
use chronometrics.Common.{
  subst, ◌&&◌, not, ◌↔◌, Option, none, some, ◌≡◌, refl, Bool, true, false, ◌||◌, List, [], ◌∷◌,
  ◌++◌, arith,
}
use chronometrics.Errors.{
  Sentinel, Error, to_errors, append_if, finish_validation, is_validation_error, is, any_is,
}

pub any_is-append :
    (s : Sentinel) (xs ys : List Error)
    → any_is s (to_errors (xs ++ ys)) ≡ (any_is s (to_errors xs) || any_is s (to_errors ys))
unfolding any_is is
any_is-append s [] ys = refl
any_is-append s (x ∷ xs) ys = ground (arith, any_is-append s xs ys)

-- The result is an error in which `errors.Is` finds the sentinel.
abbrev pub reports : Sentinel → Option Error → Bool
reports s none = false
reports s (some e) = is s e

pub any_is-append_if :
    (s : Sentinel) (b : Bool) (e : Error) (es : List Error)
    → any_is s (to_errors (append_if b e es)) ≡ (any_is s (to_errors es) || (b && is s e))
unfolding any_is is append_if
any_is-append_if s true e es = ground (arith, any_is-append s es (e ∷ []))
any_is-append_if s false e es = ground arith

pub reports-finish_validation :
    (s : Sentinel) (es : List Error) → reports s (finish_validation es) ≡ any_is s (to_errors es)
unfolding any_is is append_if
reports-finish_validation s [] = refl
reports-finish_validation s (e ∷ es) = refl

abbrev pub is_empty : List Error → Bool
is_empty [] = true
is_empty (_ ∷ _) = false

pub is_empty-append : (es : List Error) (e : Error) → is_empty (es ++ e ∷ []) ≡ false
is_empty-append [] e = refl
is_empty-append (_ ∷ _) e = refl

pub is_empty-append_if :
    (b : Bool) (e : Error) (es : List Error) → is_empty (append_if b e es) ≡ (is_empty es && not b)
unfolding append_if
is_empty-append_if b e es = ground (arith, is_empty-append es e)

pub finish_validation-eq-none :
    (es : List Error) → (finish_validation es ≡ none) ↔ (is_empty es ≡ true)
finish_validation-eq-none [] = ground arith
finish_validation-eq-none (e ∷ es) = ground arith

pub finish_validation-kind :
    (es : List Error) (x : Error) → finish_validation es ≡ some x → is_validation_error x ≡ true
unfolding is_validation_error
finish_validation-kind [] x h = absurd (ground arith)
finish_validation-kind (e ∷ es) x h = subst (λ y. is_validation_error y ≡ true) (some_inj.0 h) refl
