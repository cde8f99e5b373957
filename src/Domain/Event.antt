-- ===== src/Domain/Event.antt =====
-- internal/domain/event.go: the events and their validation.
pub mod Window
pub mod Reports
use chronometrics.Common.{
  ℕ, ◌+◌, ◌≡◌, Bool, true, false, Option, none, some, List, [], ◌∷◌, ◌++◌, ltb, leb, if◌then◌else◌,
  length, Text, txt, is_blank,
}
use chronometrics.Common.Int.{
  ℤ, pos, negsuc, leb_ℤ, ltb_ℤ, to_u64, div_ℤ, add_u64, sub_u64, mul_u64,
}
use chronometrics.Errors.{
  Sentinel, Error, sentinel, wrapped, validation_error, to_errors, append_if, finish_validation,
  err_raw_event_nil, err_event_name_missing, err_user_id_missing, err_timestamp_non_positive,
  err_timestamp_too_future, err_timestamp_too_past,
}
use chronometrics.Domain.Json.{Fields, Platform}

-- A nil slice, map or pointer is `none`.
pub record RawEvent : Type 0 where
  pub event_name : Text
  pub user_id : Text
  pub timestamp : ℤ
  pub channel : Text
  pub campaign_id : Text
  pub tags : Option (List Text)
  pub priority : Option Text
  pub metadata : Option Fields

pub record Event : Type 0 where
  pub event_name : Text
  pub user_id : Text
  pub timestamp_ms : ℕ
  pub payload_hash : ℕ
  pub channel : Text
  pub campaign_id : Text
  pub tags : List Text
  pub priority : Option Text
  pub metadata : Text

abbrev pub ms_threshold : ℤ
ms_threshold = pos 1000000000000

unfoldable pub normalize_timestamp : ℤ → ℕ
normalize_timestamp ts = if ltb_ℤ ts ms_threshold then mul_u64 (to_u64 ts) 1000 else to_u64 ts

-- `d.Milliseconds()`.
abbrev pub milliseconds : ℤ → ℤ
milliseconds d = div_ℤ d 1000000

unfoldable pub validate_event_name : RawEvent → List Error → List Error
validate_event_name e errs =
    append_if (ltb 100 (length e.event_name))
      (wrapped (txt "event_name exceeds 100 chars") (sentinel err_event_name_missing)) errs

abbrev pub Rule : Type 0
Rule = RawEvent → List Error → List Error

abbrev pub event_rules : List Rule
event_rules = validate_event_name ∷ []

abbrev apply_rules : List Rule → RawEvent → List Error → List Error
apply_rules [] e errs = errs
apply_rules (rule ∷ rules) e errs = apply_rules rules e (rule e errs)

module _ (p : Platform) where
  -- The branch of `Validate` on a positive timestamp.
  unfoldable pub check_window : ℕ → ℤ → ℤ → ℤ → List Error → List Error
  check_window now ts max_future max_past errs =
      let ts_ms = normalize_timestamp ts in
      let future =
        wrapped (txt "max " ++ p.duration_string max_future) (sentinel err_timestamp_too_future) in
      let past =
        wrapped (txt "max " ++ p.duration_string max_past) (sentinel err_timestamp_too_past) in
      append_if (ltb ts_ms (sub_u64 now (to_u64 (milliseconds max_past)))) past
        (append_if (ltb (add_u64 now (to_u64 (milliseconds max_future))) ts_ms) future errs)

  unfoldable pub check_timestamp : ℕ → ℤ → ℤ → ℤ → List Error → List Error
  unfolding check_window
  check_timestamp now ts max_future max_past errs =
      if leb_ℤ ts (pos 0)
      then errs ++ sentinel err_timestamp_non_positive ∷ []
      else check_window now ts max_future max_past errs

  -- The errors that `Validate` collects, at the clock reading `now`.
  unfoldable pub collect : ℕ → RawEvent → ℤ → ℤ → List Error
  unfolding check_timestamp validate_event_name
  collect now e max_future max_past =
      let errs = apply_rules event_rules e [] in
      let errs = append_if (is_blank e.event_name) (sentinel err_event_name_missing) errs in
      let errs = append_if (is_blank e.user_id) (sentinel err_user_id_missing) errs in
      check_timestamp now e.timestamp max_future max_past errs

  unfoldable pub validate : ℕ → Option RawEvent → ℤ → ℤ → Option Error
  unfolding collect
  validate now none max_future max_past =
      some (validation_error (to_errors (sentinel err_raw_event_nil ∷ [])))
  validate now (some e) max_future max_past = finish_validation (collect now e max_future max_past)
