-- ===== src/Domain/Event/Reports.antt =====
-- Which sentinels the error of `Validate` carries (internal/domain/event.go).
use mathlib.Core.Bool.{or_assoc, or-false}
use chronometrics.Common.{
  ℕ, ◌≡◌, refl, ◌∙◌, Bool, false, ◌||◌, ◌&&◌, not, inl, inr, some, List, arith, ltb, if◌then◌else◌,
  Bool-cases, length, is_blank,
}
use chronometrics.Common.Int.{ℤ, pos, leb_ℤ, to_u64, add_u64, sub_u64}
use chronometrics.Errors.{
  Sentinel, Error, to_errors, is, any_is, same_sentinel, err_publish_failed, err_event_name_missing,
  err_user_id_missing, err_timestamp_non_positive, err_timestamp_too_future, err_timestamp_too_past,
}
use chronometrics.Errors.Laws.{any_is-append, any_is-append_if, reports, reports-finish_validation}
use chronometrics.Domain.Json.{Platform}
use chronometrics.Domain.Event.{
  RawEvent, normalize_timestamp, milliseconds, check_window, collect, validate,
}

-- The field check that each sentinel stands for.
abbrev pub fails : ℕ → RawEvent → ℤ → ℤ → Sentinel → Bool
fails now e max_future max_past err_event_name_missing =
    ltb 100 (length e.event_name) || is_blank e.event_name
fails now e max_future max_past err_user_id_missing = is_blank e.user_id
fails now e max_future max_past err_timestamp_non_positive = leb_ℤ e.timestamp (pos 0)
fails now e max_future max_past err_timestamp_too_future =
    not (leb_ℤ e.timestamp (pos 0))
    && ltb (add_u64 now (to_u64 (milliseconds max_future))) (normalize_timestamp e.timestamp)
fails now e max_future max_past err_timestamp_too_past =
    not (leb_ℤ e.timestamp (pos 0))
    && ltb (normalize_timestamp e.timestamp) (sub_u64 now (to_u64 (milliseconds max_past)))
fails now e max_future max_past _ = false

-- The checks of `Validate` in the order of the code, each with the sentinel that it appends.
abbrev carried : Bool → Bool → Bool → Bool → Bool → Bool → Sentinel → Bool
carried long blank user non_positive future past s =
    (((long && same_sentinel s err_event_name_missing)
        || (blank && same_sentinel s err_event_name_missing))
      || (user && same_sentinel s err_user_id_missing))
    || (if non_positive
        then same_sentinel s err_timestamp_non_positive
        else (future && same_sentinel s err_timestamp_too_future)
          || (past && same_sentinel s err_timestamp_too_past))

-- What the checks amount to at each sentinel.
abbrev table : Bool → Bool → Bool → Bool → Bool → Bool → Sentinel → Bool
table long blank user non_positive future past err_event_name_missing = long || blank
table long blank user non_positive future past err_user_id_missing = user
table long blank user non_positive future past err_timestamp_non_positive = non_positive
table long blank user non_positive future past err_timestamp_too_future = not non_positive && future
table long blank user non_positive future past err_timestamp_too_past = not non_positive && past
table long blank user non_positive future past _ = false

carried-table :
    (long blank user non_positive future past : Bool) (s : Sentinel)
    → carried long blank user non_positive future past s
      ≡ table long blank user non_positive future past s
unfolding same_sentinel
carried-table a b c d e f err_publish_failed = ground arith
carried-table a b c d e f _ = ground arith

module _ (p : Platform) (now : ℕ) (e : RawEvent) (max_future max_past : ℤ) where
  any_is-check_window :
      (s : Sentinel) (ts : ℤ) (errs : List Error)
      → any_is s (to_errors (check_window p now ts max_future max_past errs)) ≡ (
          any_is s (to_errors errs)
          || ((ltb (add_u64 now (to_u64 (milliseconds max_future))) (normalize_timestamp ts)
                && same_sentinel s err_timestamp_too_future)
              || (ltb (normalize_timestamp ts) (sub_u64 now (to_u64 (milliseconds max_past)))
                  && same_sentinel s err_timestamp_too_past)))
  unfolding check_window is any_is
  any_is-check_window s ts errs = simp (any_is-append_if, or_assoc)

  any_is-collect :
      (s : Sentinel)
      → any_is s (to_errors (collect p now e max_future max_past))
        ≡ carried
            (ltb 100 (length e.event_name))
            (is_blank e.event_name)
            (is_blank e.user_id)
            (leb_ℤ e.timestamp (pos 0))
            (ltb (add_u64 now (to_u64 (milliseconds max_future))) (normalize_timestamp e.timestamp))
            (ltb (normalize_timestamp e.timestamp) (sub_u64 now (to_u64 (milliseconds max_past))))
            s
  unfolding collect is any_is
  any_is-collect s = elim (Bool-cases (leb_ℤ e.timestamp (pos 0))) [
    | inl h ↦ rw h (simp (any_is-append, any_is-append_if, or-false))
    | inr h ↦ rw h (simp (any_is-check_window, any_is-append_if))
  ]

  fails-table :
      (s : Sentinel)
      → table
          (ltb 100 (length e.event_name))
          (is_blank e.event_name)
          (is_blank e.user_id)
          (leb_ℤ e.timestamp (pos 0))
          (ltb (add_u64 now (to_u64 (milliseconds max_future))) (normalize_timestamp e.timestamp))
          (ltb (normalize_timestamp e.timestamp) (sub_u64 now (to_u64 (milliseconds max_past))))
          s
        ≡ fails now e max_future max_past s
  fails-table err_publish_failed = refl
  fails-table _ = refl

  -- For every sentinel, the error that `validate` returns for an event carries the sentinel
  -- exactly if the field check that the sentinel stands for fails; no other sentinel is carried.
  pub reports-validate :
      (s : Sentinel)
      → reports s (validate p now (some e) max_future max_past) ≡ fails now e max_future max_past s
  unfolding validate
  reports-validate s =
      reports-finish_validation s (collect p now e max_future max_past)
      ∙ any_is-collect s
      ∙ carried-table _ _ _ _ _ _ s
      ∙ fails-table s
