-- ===== src/Domain/Query.antt =====
-- internal/domain/metrics.go: the query parameters, their validation, and the metric result.
pub mod Accepted
use chronometrics.Common.{
  ℕ, ◌≡◌, Bool, true, false, ◌||◌, ◌&&◌, Option, List, [], ◌∷◌, ltb, leb, ◌==◌, not, Text, txt,
  ◌++◌, text_eq, is_blank,
}
use chronometrics.Errors.{
  Error, sentinel, wrapped, append_if, finish_validation, err_query_event_name_missing,
  err_query_from_missing, err_query_to_missing, err_query_range_invalid, err_query_group_by_invalid,
}
use chronometrics.Domain.Json.{Platform}

pub record QueryParams : Type 0 where
  pub event_name : Text
  pub from : ℕ
  pub to : ℕ
  pub group_by : Text

pub record GroupResult : Type 0 where
  pub key : Text
  pub total_count : ℕ
  pub unique_count : ℕ

pub record MetricResult : Type 0 where
  pub event_name : Text
  pub from : ℕ
  pub to : ℕ
  pub group_by : Text
  pub total_count : ℕ
  pub unique_count : ℕ
  pub groups : List GroupResult

-- A look-up in the map `ValidGroupByValues`; a missing key reads as false.
unfoldable pub valid_group_by : Text → Bool
valid_group_by g =
    text_eq g []
    || (text_eq g (txt "channel")
        || (text_eq g (txt "hour") || (text_eq g (txt "day") || text_eq g (txt "campaign_id"))))

module _ (p : Platform) where
  unfoldable pub collect_query : QueryParams → List Error
  collect_query q =
      let errs = append_if (is_blank q.event_name) (sentinel err_query_event_name_missing) [] in
      let errs = append_if (q.from == 0) (sentinel err_query_from_missing) errs in
      let errs = append_if (q.to == 0) (sentinel err_query_to_missing) errs in
      let errs =
        append_if (ltb 0 q.from && (ltb 0 q.to && leb q.to q.from))
          (sentinel err_query_range_invalid) errs in
      append_if (not (valid_group_by q.group_by))
        (wrapped (p.quote q.group_by ++ txt " is not valid (valid: channel, hour, day)")
          (sentinel err_query_group_by_invalid))
        errs

  unfoldable pub validate_query_params : QueryParams → Option Error
  unfolding collect_query
  validate_query_params q = finish_validation (collect_query q)
