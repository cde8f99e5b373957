-- ===== src/Handler/Observed.antt =====
-- internal/handler/ingest.go and bulk.go: the calls on the metrics after `Ingest`.
pub mod Counters
use chronometrics.Common.{
  Bool, true, false, Option, none, some, List, [], ◌∷◌, Text, txt, if◌then◌else◌,
}
use chronometrics.Errors.{Error, is, err_publish_failed, is_validation_error}
use chronometrics.Observability.{Call, inc, events_ingested_total, ingest_errors_total}

-- The reason that an error is counted under.
abbrev pub reason : Error → Text
reason e =
    if is_validation_error e
    then txt "validation"
    else if is err_publish_failed e
    then txt "publish"
    else txt "internal"

-- By the result of `Ingest`, for a route whose events are of this type.
abbrev calls_for : Text → Bool → Option Error → List Call
calls_for type' false result = []
calls_for type' true none = inc events_ingested_total (type' ∷ []) ∷ []
calls_for type' true (some e) = inc ingest_errors_total (reason e ∷ []) ∷ []

-- `handleIngest`.
unfoldable pub single_calls : Bool → Option Error → List Call
single_calls metrics result = calls_for (txt "single") metrics result

-- One round of the loop of `handleBulk`.
unfoldable pub item_calls : Bool → Option Error → List Call
item_calls metrics result = calls_for (txt "bulk") metrics result
