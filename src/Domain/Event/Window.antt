-- ===== src/Domain/Event/Window.antt =====
-- The time window of `Validate`, and `NormalizeTimestamp` (internal/domain/event.go).
use mathlib.Core.Bool.{and_assoc, and-false}
use chronometrics.Common.{
  ℕ, ◌+◌, ◌*◌, ◌/◌, ◌≤◌, ◌<◌, ◌≡◌, ◌↔◌, inl, inr, true, false, ◌&&◌, not, none, some, List, arith,
  ltb, if◌then◌else◌, Bool-cases, length, is_blank,
}
use chronometrics.Common.Int.{ℤ, pos, negsuc, leb_ℤ, to_u64, add_u64, sub_u64, i64_max, IsInt64}
use chronometrics.Errors.{Error, err_timestamp_too_past}
use chronometrics.Domain.Json.{Platform}
use chronometrics.Errors.Laws.{
  reports, is_empty, is_empty-append, is_empty-append_if, finish_validation-eq-none,
}
use chronometrics.Domain.Event.Reports.{reports-validate}
use chronometrics.Domain.Event.{
  RawEvent, normalize_timestamp, milliseconds, check_window, collect, validate,
}

-- The milliseconds that a timestamp stands for: below 10^12 it counts seconds.
abbrev pub instant : ℕ → ℕ
instant t = if ltb t 1000000000000 then t * 1000 else t

pub normalize_timestamp-pos : (t : ℕ) → t ≤ i64_max → normalize_timestamp (pos t) ≡ instant t
unfolding normalize_timestamp
normalize_timestamp-pos t h = ground arith

-- An instant from September 2001 on, given in seconds or in milliseconds, is normalised to the
-- same number of milliseconds; and normalising that number again changes nothing.
pub normalize_timestamp-units :
    (s : ℕ)
    → 1000000000 ≤ s
    → s < 1000000000000
    → (normalize_timestamp (pos s) ≡ normalize_timestamp (pos (s * 1000)))
      × (normalize_timestamp (pos (normalize_timestamp (pos s))) ≡ normalize_timestamp (pos s))
unfolding normalize_timestamp
normalize_timestamp-units s h k = ground arith

-- The window in plain numbers: `q` and `f` are the nanoseconds allowed in the past and future.
abbrev pub InWindow : ℕ → ℤ → ℕ → ℕ → Type 0
InWindow now (pos t) f q =
    (0 < t) × (now ≤ instant t + q / 1000000) × (instant t ≤ now + f / 1000000)
InWindow now (negsuc t) f q = ⊥

pub record IsAcceptable (now : ℕ) (e : RawEvent) (f q : ℕ) : Type 0 where
  pub name_short : length e.event_name ≤ 100
  pub name_given : is_blank e.event_name ≡ false
  pub user_given : is_blank e.user_id ≡ false
  pub in_window : InWindow now e.timestamp f q

module _ (p : Platform) (now : ℕ) where
  is_empty-check_window :
      (ts f q : ℤ) (es : List Error)
      → is_empty (check_window p now ts f q es) ≡ (
          is_empty es
          && (not (ltb (add_u64 now (to_u64 (milliseconds f))) (normalize_timestamp ts))
              && not (ltb (normalize_timestamp ts) (sub_u64 now (to_u64 (milliseconds q))))))
  unfolding check_window
  is_empty-check_window ts f q es = simp (is_empty-append_if, and_assoc)

  is_empty-collect :
      (e : RawEvent) (f q : ℤ)
      → is_empty (collect p now e f q) ≡ (
          ((not (ltb 100 (length e.event_name)) && not (is_blank e.event_name))
            && not (is_blank e.user_id))
          && (if leb_ℤ e.timestamp (pos 0)
              then false
              else not
                  (ltb (add_u64 now (to_u64 (milliseconds f))) (normalize_timestamp e.timestamp))
                && not (
                    ltb (normalize_timestamp e.timestamp) (sub_u64 now (to_u64 (milliseconds q))))))
  unfolding collect
  is_empty-collect e f q = elim (Bool-cases (leb_ℤ e.timestamp (pos 0))) [
    | inl h ↦ rw h (simp (is_empty-append, and-false))
    | inr h ↦ rw h (simp (is_empty-check_window, is_empty-append_if))
  ]

-- The tests of `Validate` on a timestamp are the plain window, where nothing wraps.
window_iff :
    (now : ℕ) (ts : ℤ) (f q : ℕ)
    → now ≤ i64_max
    → f ≤ i64_max
    → q / 1000000 ≤ now
    → IsInt64 ts
    → ((if leb_ℤ ts (pos 0)
          then false
          else not (ltb (add_u64 now (to_u64 (milliseconds (pos f)))) (normalize_timestamp ts))
            && not (ltb (normalize_timestamp ts) (sub_u64 now (to_u64 (milliseconds (pos q))))))
        ≡ true)
      ↔ InWindow now ts f q
window_iff now (pos t) f q hn hf hq hr = ground (arith, normalize_timestamp-pos t hr)
window_iff now (negsuc t) f q hn hf hq hr = ground arith

-- At a clock reading `now`, with windows of `f` nanoseconds ahead and `q` nanoseconds back that
-- start after 1970, `validate` accepts an event exactly if its name has at most 100 bytes and is
-- not blank, its user id is not blank, and its timestamp is positive and lies in the window.
pub validate-eq-none :
    (p : Platform) (now : ℕ) (e : RawEvent) (f q : ℕ)
    → now ≤ i64_max
    → f ≤ i64_max
    → q / 1000000 ≤ now
    → IsInt64 e.timestamp
    → (validate p now (some e) (pos f) (pos q) ≡ none) ↔ IsAcceptable now e f q
unfolding validate
validate-eq-none p now e f q hn hf hq hr = ground (
  arith,
  is_empty-collect p now e (pos f) (pos q),
  finish_validation-eq-none (collect p now e (pos f) (pos q)),
  window_iff now e.timestamp f q hn hf hq hr,
)

-- Where the past window is longer than the time since 1970, the subtraction wraps, and `validate`
-- rejects every event as too old if it has a positive timestamp, however recent.
pub validate_long_past :
    (p : Platform) (now : ℕ) (e : RawEvent) (f : ℤ) (q t : ℕ)
    → now < q / 1000000
    → q ≤ i64_max
    → e.timestamp ≡ pos t
    → 0 < t
    → t ≤ i64_max
    → reports err_timestamp_too_past (validate p now (some e) f (pos q)) ≡ true
validate_long_past p now e f q t h hq et ht hr =
    rw (reports-validate p now e f (pos q) err_timestamp_too_past, et, normalize_timestamp-pos t hr)
      (ground arith)
