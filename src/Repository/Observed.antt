-- ===== src/Repository/Observed.antt =====
-- internal/repository/insert.go and query.go: the calls on the metrics in `Flush` and `Query`.
use chronometrics.Common.{Bool, true, false, Option, none, some, List, [], ◌∷◌, Text}
use chronometrics.Errors.{Error}
use chronometrics.Domain.Event.{Event}
use chronometrics.Observability.{
  Call, observe, db_insert_duration, db_query_duration, success, error',
}
use chronometrics.Repository.Insert.{BatchApi, flush}

abbrev result_label : Option Error → Text
result_label none = success
result_label (some e) = error'

-- `Flush`: nothing for an empty batch, else the label is that of its result, wherever it returns.
unfoldable pub insert_calls : Bool → BatchApi → List Event → List Call
unfolding flush
insert_calls false api batch = []
insert_calls true api [] = []
insert_calls true api (e ∷ es) =
    observe db_insert_duration (result_label (flush api (e ∷ es)).result ∷ []) ∷ []

-- `Query`, in its deferred function: the label tells the error of the context, not the query's.
unfoldable pub query_calls : Bool → Option Error → List Call
query_calls false context_error = []
query_calls true context_error = observe db_query_duration (result_label context_error ∷ []) ∷ []
