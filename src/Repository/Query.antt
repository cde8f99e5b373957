-- ===== src/Repository/Query.antt =====
-- internal/repository/query.go: `Query`. The database is a parameter; the texts of the statements
-- stand as a data type, and the duration metric is in Repository.Observed.
pub mod Answers
use chronometrics.Common.{
  ℕ, Bool, true, false, Option, none, some, List, [], ◌∷◌, ◌++◌, Text, txt, text_eq, if◌then◌else◌,
}
use chronometrics.Errors.{Error, sentinel, wrapped, other, err_query_timeout}
use chronometrics.Domain.Json.{Platform, Result, ok, err}
use chronometrics.Domain.Query.{QueryParams, GroupResult, MetricResult}

-- `totalsSQL`, and the cases of `groupSQL`.
pub data Statement : Type 0 where
  totals by_channel by_campaign_id by_hour by_day : Statement

unfoldable pub group_statement : Text → Option Statement
group_statement g =
    if text_eq g (txt "channel")
    then some by_channel
    else if text_eq g (txt "campaign_id")
    then some by_campaign_id
    else if text_eq g (txt "hour")
    then some by_hour
    else if text_eq g (txt "day")
    then some by_day
    else none

-- What `conn.Query` gives: an error, with a flag that the deadline has passed; or what `Scan` gives
-- for each row up to where `Next` is false, with the error that `rows.Err` would give.
pub data Answer (A : Type 0) : Type 0 where
  failed : Error → Bool → Answer A
  rows : List (Result A) → Option Error → Answer A

-- Of the totals, only the first row is read; of the groups, the rows up to the first error of `Scan`.
abbrev pub first_row : List (Result (ℕ × ℕ)) → Result (ℕ × ℕ)
first_row [] = ok (0, 0)
first_row (ok r ∷ rest) = ok r
first_row (err e ∷ rest) = err (wrapped (txt "scan totals") e)

abbrev pub before_group : GroupResult → Result (List GroupResult) → Result (List GroupResult)
before_group g (ok gs) = ok (g ∷ gs)
before_group g (err e) = err e

unfoldable pub scan_groups : List (Result GroupResult) → Result (List GroupResult)
scan_groups [] = ok []
scan_groups (ok g ∷ rest) = before_group g (scan_groups rest)
scan_groups (err e ∷ rest) = err (wrapped (txt "scan group row") e)

module _ (p : Platform) (total_rows : QueryParams → Answer (ℕ × ℕ))
    (group_rows : Statement → QueryParams → Answer GroupResult) where
  abbrev pub with_groups : MetricResult → Result (List GroupResult) → Result MetricResult
  with_groups res (ok groups) = ok (record res { groups = groups })
  with_groups res (err e) = err e

  abbrev pub grouped : MetricResult → Answer GroupResult → Result MetricResult
  grouped res (failed e deadline) =
      if deadline then err (sentinel err_query_timeout) else err (wrapped (txt "group query") e)
  grouped res (rows scans ignored) = with_groups res (scan_groups scans)

  abbrev pub by_group : QueryParams → MetricResult → Option Statement → Result MetricResult
  by_group q res none = err (other (txt "unsupported group_by: " ++ p.quote q.group_by))
  by_group q res (some s) = grouped res (group_rows s q)

  abbrev pub result_of : QueryParams → ℕ × ℕ → MetricResult
  result_of q (total, unique) = record {
    event_name = q.event_name;
    from = q.from;
    to = q.to;
    group_by = q.group_by;
    total_count = total;
    unique_count = unique;
    groups = [];
  }

  abbrev pub with_totals : QueryParams → Result (ℕ × ℕ) → Result MetricResult
  with_totals q (err e) = err e
  with_totals q (ok r) =
      if text_eq q.group_by []
      then ok (result_of q r)
      else by_group q (result_of q r) (group_statement q.group_by)

  abbrev pub totalled : QueryParams → Answer (ℕ × ℕ) → Result MetricResult
  totalled q (failed e deadline) =
      if deadline then err (sentinel err_query_timeout) else err (wrapped (txt "totals query") e)
  totalled q (rows scans ignored) = with_totals q (first_row scans)

  unfoldable pub query : QueryParams → Result MetricResult
  unfolding scan_groups group_statement
  query q = totalled q (total_rows q)
