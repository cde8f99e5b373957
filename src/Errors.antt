-- ===== src/Errors.antt =====
-- Go error values, and the domain's errors (internal/domain/errors.go): the sentinels, the
-- `ValidationError`, and `errors.Is` and `errors.As` over a tree of wrapped errors.
pub mod Laws
use chronometrics.Common.{
  Option, none, some, ℕ, ◌≡◌, Bool, true, false, ◌||◌, List, [], ◌∷◌, ◌++◌, ◌==◌, if◌then◌else◌,
  Text, txt, join_texts,
}

pub data Sentinel : Type 0 where
  err_publish_failed : Sentinel
  err_query_timeout : Sentinel
  err_raw_event_nil : Sentinel
  err_event_name_missing : Sentinel
  err_user_id_missing : Sentinel
  err_timestamp_non_positive : Sentinel
  err_timestamp_too_future : Sentinel
  err_timestamp_too_past : Sentinel
  err_query_event_name_missing : Sentinel
  err_query_from_missing : Sentinel
  err_query_to_missing : Sentinel
  err_query_range_invalid : Sentinel
  err_query_group_by_invalid : Sentinel

abbrev pub message : Sentinel → Text
message err_publish_failed = txt "publish failed"
message err_query_timeout = txt "query timeout"
message err_raw_event_nil = txt "raw event is nil"
message err_event_name_missing = txt "event_name is required"
message err_user_id_missing = txt "user_id is required"
message err_timestamp_non_positive = txt "timestamp must be positive"
message err_timestamp_too_future = txt "timestamp too far in future"
message err_timestamp_too_past = txt "timestamp too far in past"
message err_query_event_name_missing = txt "query event_name is required"
message err_query_from_missing = txt "query from is required"
message err_query_to_missing = txt "query to is required"
message err_query_range_invalid = txt "query from must be before to"
message err_query_group_by_invalid = txt "query group_by is invalid"

-- Each `errors.New` has an identity of its own, by which `errors.Is` compares.
abbrev identity : Sentinel → ℕ
identity err_publish_failed = 0
identity err_query_timeout = 1
identity err_raw_event_nil = 2
identity err_event_name_missing = 3
identity err_user_id_missing = 4
identity err_timestamp_non_positive = 5
identity err_timestamp_too_future = 6
identity err_timestamp_too_past = 7
identity err_query_event_name_missing = 8
identity err_query_from_missing = 9
identity err_query_to_missing = 10
identity err_query_range_invalid = 11
identity err_query_group_by_invalid = 12

unfoldable pub same_sentinel : Sentinel → Sentinel → Bool
same_sentinel a b = identity a == identity b

-- `wrapped s e` is `fmt.Errorf("s: %w", e)`, `joined` is `errors.Join`, `max_bytes` is
-- `*http.MaxBytesError`, and `other s` is an error of any other origin with the message `s`.
mutual
  pub data Error : Type 0 where
    sentinel : Sentinel → Error
    wrapped : Text → Error → Error
    validation_error : Errors → Error
    joined : Errors → Error
    max_bytes : Error
    other : Text → Error

  pub data Errors : Type 0 where
    nil : Errors
    cons : Error → Errors → Errors

abbrev pub to_errors : List Error → Errors
to_errors [] = nil
to_errors (e ∷ es) = cons e (to_errors es)

-- `errors.Is(err, s)` for a sentinel `s`.
unfoldable mutual
  pub is : Sentinel → Error → Bool
  is s (sentinel t) = same_sentinel s t
  is s (wrapped m e) = is s e
  is s (validation_error es) = any_is s es
  is s (joined es) = any_is s es
  is s max_bytes = false
  is s (other m) = false

  pub any_is : Sentinel → Errors → Bool
  any_is s nil = false
  any_is s (cons e es) = is s e || any_is s es

-- `errors.As(err, &ve)` for a `*ValidationError`.
unfoldable mutual
  pub is_validation_error : Error → Bool
  is_validation_error (sentinel t) = false
  is_validation_error (wrapped m e) = is_validation_error e
  is_validation_error (validation_error es) = true
  is_validation_error (joined es) = any_validation_error es
  is_validation_error max_bytes = false
  is_validation_error (other m) = false

  pub any_validation_error : Errors → Bool
  any_validation_error nil = false
  any_validation_error (cons e es) = is_validation_error e || any_validation_error es

-- `errors.As(err, &maxErr)` for a `*http.MaxBytesError`, as a body reader returns it.
unfoldable mutual
  pub is_max_bytes_error : Error → Bool
  is_max_bytes_error (sentinel t) = false
  is_max_bytes_error (wrapped m e) = is_max_bytes_error e
  is_max_bytes_error (validation_error es) = any_max_bytes_error es
  is_max_bytes_error (joined es) = any_max_bytes_error es
  is_max_bytes_error max_bytes = true
  is_max_bytes_error (other m) = false

  pub any_max_bytes_error : Errors → Bool
  any_max_bytes_error nil = false
  any_max_bytes_error (cons e es) = is_max_bytes_error e || any_max_bytes_error es

unfoldable pub is_publish_failed : Error → Bool
unfolding is
is_publish_failed e = is err_publish_failed e

unfoldable pub is_query_timeout : Error → Bool
unfolding is
is_query_timeout e = is err_query_timeout e

abbrev validation_text : List Text → Text
validation_text [] = txt "validation failed"
validation_text (m ∷ ms) = txt "validation failed: " ++ join_texts (txt "; ") (m ∷ ms)

-- `err.Error()`.
unfoldable mutual
  pub error_text : Error → Text
  error_text (sentinel s) = message s
  error_text (wrapped m e) = m ++ (txt ": " ++ error_text e)
  error_text (validation_error es) = validation_text (error_texts es)
  error_text (joined es) = join_texts (10 ∷ []) (error_texts es)
  error_text max_bytes = txt "http: request body too large"
  error_text (other m) = m

  pub error_texts : Errors → List Text
  error_texts nil = []
  error_texts (cons e es) = error_text e ∷ error_texts es

-- `errs = append(errs, err)` under a condition.
unfoldable pub append_if : Bool → Error → List Error → List Error
append_if b err errs = if b then errs ++ err ∷ [] else errs

-- `if len(errs) > 0 { return &ValidationError{...} }; return nil`.
abbrev pub finish_validation : List Error → Option Error
finish_validation [] = none
finish_validation (e ∷ es) = some (validation_error (to_errors (e ∷ es)))
