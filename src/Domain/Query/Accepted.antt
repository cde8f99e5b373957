-- ===== src/Domain/Query/Accepted.antt =====
-- Which query parameters pass (internal/domain/metrics.go).
use chronometrics.Common.{
  ℕ, suc, ◌-◌, ◌*◌, ◌<◌, ◌≡◌, ◌∙◌, ◌↔◌, Bool, true, false, ◌||◌, ◌&&◌, not, none, arith, ltb, leb,
  ◌==◌, is_blank,
}
use chronometrics.Common.Int.{negsuc, u64_mod}
use chronometrics.Errors.{
  Sentinel, to_errors, same_sentinel, is, any_is, err_publish_failed, err_query_event_name_missing,
  err_query_from_missing, err_query_to_missing, err_query_range_invalid, err_query_group_by_invalid,
}
use chronometrics.Errors.Laws.{
  any_is-append_if, reports, reports-finish_validation, is_empty, is_empty-append_if,
  finish_validation-eq-none,
}
use chronometrics.Domain.Json.{Platform}
use chronometrics.Domain.Event.{normalize_timestamp}
use chronometrics.Domain.Query.{QueryParams, valid_group_by, collect_query, validate_query_params}

pub record IsQuery (q : QueryParams) : Type 0 where
  pub name_given : is_blank q.event_name ≡ false
  pub from_given : 0 < q.from
  pub ordered : q.from < q.to
  pub known_group : valid_group_by q.group_by ≡ true

module _ (p : Platform) (q : QueryParams) where
  is_empty-collect_query : is_empty (collect_query p q) ≡ (
      (((not (is_blank q.event_name) && not (q.from == 0)) && not (q.to == 0))
        && not (ltb 0 q.from && (ltb 0 q.to && leb q.to q.from)))
      && not (not (valid_group_by q.group_by)))
  unfolding collect_query
  is_empty-collect_query = simp is_empty-append_if

  -- A query passes exactly if it has a name that is not blank, a lower bound other than 0, an
  -- upper bound above it, and a known way to group.
  pub validate_query_params-eq-none : (validate_query_params p q ≡ none) ↔ IsQuery q
  unfolding validate_query_params
  validate_query_params-eq-none =
      ground (arith, is_empty-collect_query, finish_validation-eq-none (collect_query p q))

  -- The condition that each sentinel stands for in a query.
  abbrev pub query_fails : Sentinel → Bool
  query_fails err_query_event_name_missing = is_blank q.event_name
  query_fails err_query_from_missing = q.from == 0
  query_fails err_query_to_missing = q.to == 0
  query_fails err_query_range_invalid = ltb 0 q.from && (ltb 0 q.to && leb q.to q.from)
  query_fails err_query_group_by_invalid = not (valid_group_by q.group_by)
  query_fails _ = false

-- The checks in the order of the code, each with the sentinel that it appends.
abbrev carried_query : Bool → Bool → Bool → Bool → Bool → Sentinel → Bool
carried_query name from to range group s =
    ((((name && same_sentinel s err_query_event_name_missing)
          || (from && same_sentinel s err_query_from_missing))
        || (to && same_sentinel s err_query_to_missing))
      || (range && same_sentinel s err_query_range_invalid))
    || (group && same_sentinel s err_query_group_by_invalid)

module _ (p : Platform) (q : QueryParams) where
  any_is-collect_query :
      (s : Sentinel)
      → any_is s (to_errors (collect_query p q))
        ≡ carried_query
            (is_blank q.event_name)
            (q.from == 0)
            (q.to == 0)
            (ltb 0 q.from && (ltb 0 q.to && leb q.to q.from))
            (not (valid_group_by q.group_by))
            s
  unfolding collect_query is any_is
  any_is-collect_query s = simp any_is-append_if

  -- For every sentinel, the error of `validate_query_params` carries it exactly if the condition
  -- that it stands for holds of the query; no other sentinel is carried.
  pub reports-validate_query_params :
      (s : Sentinel) → reports s (validate_query_params p q) ≡ query_fails p q s
  unfolding validate_query_params same_sentinel
  reports-validate_query_params s =
      reports-finish_validation s (collect_query p q) ∙ any_is-collect_query s ∙ split s
    where
      split :
          (s : Sentinel)
          → carried_query
              (is_blank q.event_name)
              (q.from == 0)
              (q.to == 0)
              (ltb 0 q.from && (ltb 0 q.to && leb q.to q.from))
              (not (valid_group_by q.group_by))
              s
            ≡ query_fails p q s
      split err_publish_failed = ground arith
      split _ = ground arith

-- A negative upper bound passes: normalised, it wraps to a time beyond all others.
pub negative_to_accepted :
    (p : Platform) (q : QueryParams) (k : ℕ)
    → k < 1000000000000000
    → is_blank q.event_name ≡ false
    → valid_group_by q.group_by ≡ true
    → 0 < q.from
    → q.from < 9223372036854775808
    → let to = normalize_timestamp (negsuc k) in
      (to ≡ u64_mod - suc k * 1000) × (validate_query_params p (record q { to = to }) ≡ none)
unfolding normalize_timestamp
negative_to_accepted p q k hk hb hg h0 hf =
    let wraps : normalize_timestamp (negsuc k) ≡ u64_mod - suc k * 1000 = omega arith in
    let to = normalize_timestamp (negsuc k) in
    (
      wraps,
      (validate_query_params-eq-none p (record q { to = to })).1 (record {
        name_given = hb;
        from_given = h0;
        ordered = omega (arith, wraps);
        known_group = hg;
      }),
    )
