-- ===== src/Handler/Observed/Counters.antt =====
-- The counters that the handlers keep are what their calls on the metrics add up to
-- (internal/handler/ingest.go, bulk.go).
use chronometrics.Common.{
  ℕ, suc, ◌≡◌, refl, Bool, true, false, Option, none, some, List, [], ◌∷◌, Text, txt, text_eq,
  if◌then◌else◌, arith,
}
use chronometrics.Errors.{Error}
use chronometrics.Observability.{Call, inc, events_ingested_total, ingest_errors_total}
use chronometrics.Handler.Http.{Counters, Ingester, Decoder, BulkResponse}
use chronometrics.Handler.Single
use chronometrics.Handler.Single.{ingest_failed}
use chronometrics.Handler.Bulk.{bulk_item, item_failed}
use chronometrics.Handler.Observed.{single_calls, item_calls}

-- A series with one label.
abbrev count_type : Text → Counters → Counters
count_type type' c =
    if text_eq type' (txt "single")
    then record c { ingested_single = suc c.ingested_single }
    else if text_eq type' (txt "bulk")
    then record c { ingested_bulk = suc c.ingested_bulk }
    else c

abbrev count_reason : Text → Counters → Counters
count_reason r c =
    if text_eq r (txt "validation")
    then record c { errors_validation = suc c.errors_validation }
    else if text_eq r (txt "publish")
    then record c { errors_publish = suc c.errors_publish }
    else if text_eq r (txt "internal")
    then record c { errors_internal = suc c.errors_internal }
    else c

abbrev count_call : Call → Counters → Counters
count_call (inc events_ingested_total (t ∷ [])) c = count_type t c
count_call (inc ingest_errors_total (r ∷ [])) c = count_reason r c
count_call _ c = c

abbrev count_calls : List Call → Counters → Counters
count_calls [] c = c
count_calls (x ∷ xs) c = count_calls xs (count_call x c)

-- After one call of `Ingest`, in either handler, the counters are those before with the calls on the
-- metrics counted.
pub counters_of_calls :
    {S : Type 0} (decoder : Decoder) (ingester : Ingester S) (m : Bool) (i : ℕ) (s : S)
    (e : Option Error) (c : Counters) (r : BulkResponse)
    → ((Single.answer decoder ingester m (s, e) c).1 ≡ count_calls (single_calls m e) c)
      × ((bulk_item ingester m i e c r).0 ≡ count_calls (item_calls m e) c)
unfolding bulk_item item_failed ingest_failed single_calls item_calls
counters_of_calls decoder ingester false i s none c r = (refl, refl)
counters_of_calls decoder ingester true i s none c r = (refl, refl)
counters_of_calls decoder ingester false i s (some e) c r = (ground arith, ground arith)
counters_of_calls decoder ingester true i s (some e) c r = (ground arith, ground arith)
