-- ===== src/Examples/Repository.antt =====
-- The theorems on the connection to the database at concrete inputs.
use chronometrics.Common.{
  ℕ, zero, suc, ◌≤◌, ◌<◌, ◌≡◌, ◌≢◌, refl, arith, false, not, Option, none, some,
}
use chronometrics.Common.Int.{pos}
use chronometrics.Errors.{Error, sentinel, err_query_timeout}
use chronometrics.Domain.Json.{ok}
use chronometrics.Common.{List, [], ◌∷◌, ◌⊎◌, ◌++◌, Text, txt, text_eq, if◌then◌else◌}
use chronometrics.Common.Sorting.{sort_strings}
use chronometrics.Common.{true, map}
use chronometrics.Examples.{platform, some_event}
use chronometrics.Domain.Query.{QueryParams, GroupResult, valid_group_by}
use chronometrics.Repository.Insert.{BatchApi, row, flush}
use chronometrics.Repository.Insert.Whole.{flush_whole}
use chronometrics.Repository.Query.{Statement, Answer, rows, query}
use chronometrics.Repository.Query.Answers.{Answers, query-Answers}
use chronometrics.Repository.Migrations.{DirEntry, sql_files, apply_migrations}
use chronometrics.Repository.Migrations.Applied.{FailsWith, apply_migrations_in_order}
use chronometrics.Repository.{Config, new, with_pool, retries, connect}
use chronometrics.Repository.Attempts.{delays_from, is_ok, connect_closes, connect_success}

abbrev config : Config
config = record {
  query_timeout = pos 0;
  max_open_conns = pos 0;
  max_idle_conns = pos 4;
  conn_max_lifetime = pos 0;
  max_retries = pos 2;
  retry_base_delay = pos 500;
  retry_max_delay = pos 700;
}

abbrev unreachable : Error
unreachable = sentinel err_query_timeout

-- The first two pings fail.
abbrev ping : ℕ → Option Error
ping zero = some unreachable
ping (suc zero) = some unreachable
ping (suc (suc j)) = none

abbrev undisturbed : ℕ → Option Error
undisturbed j = none

ping_fails : (j : ℕ) → j < 2 → (ping j ≢ none) × (undisturbed j ≡ none)
ping_fails zero h = (λ e. ground arith, refl)
ping_fails (suc zero) h = (λ e. ground arith, refl)
ping_fails (suc (suc j)) h = absurd (omega arith)

connect_success_example : connect config ping undisturbed none ≡ record {
  result = ok (new (with_pool config));
  pings = 3;
  delays = delays_from config 2 0;
  closed = false;
}
connect_success_example = connect_success config ping undisturbed 2 (omega arith) ping_fails refl

connect_closes_example :
    ((connect config ping undisturbed none).closed
      ≡ not (is_ok (connect config ping undisturbed none).result))
    × (1 ≤ (connect config ping undisturbed none).pings)
    × ((connect config ping undisturbed none).pings ≤ suc (retries config))
connect_closes_example = connect_closes config ping undisturbed

abbrev entry : Text → DirEntry
entry name = record { name = name; is_dir = false }

abbrev listing : List DirEntry
listing = entry (txt "b.sql") ∷ entry (txt "readme.md") ∷ entry (txt "a.sql") ∷ []

-- The second file is refused.
abbrev refuse : Text → Option Error
refuse path = if text_eq path (txt "m/b.sql") then some unreachable else none

apply_migrations_in_order_example :
    let r = apply_migrations (λ path. ok path) refuse (txt "m") (ok listing) in
    let files = sort_strings (sql_files (txt "m") listing) in
    ((r.1 ≡ none) × (r.0 ≡ files))
    ⊎ ((f : Text) × (after : List Text) × (x : Error) × (r.1 ≡ some x)
        × (files ≡ r.0 ++ f ∷ after)
        × FailsWith (λ path. ok path) refuse f x)
apply_migrations_in_order_example =
    apply_migrations_in_order (λ path. ok path) refuse (txt "m") listing

-- A database that takes everything.
abbrev willing : BatchApi
willing = record { prepare = none; append = λ i r. none; send = λ rows. none }

flush_whole_example :
    let t = flush willing (some_event ∷ some_event ∷ []) in
    let rows' = map row (some_event ∷ some_event ∷ []) in
    ((t.sent ≡ some rows') × (t.result ≡ none) × (t.aborted ≡ false))
    ⊎ ((x : Error) × (t.sent ≡ none)
        × (t.result ≡ some x)
        × ((willing.prepare ≡ some x) × (t.aborted ≡ false)
            ⊎ (willing.prepare ≡ none) × (t.aborted ≡ true)))
    ⊎ ((some_event ∷ some_event ∷ [] ≡ [])
        × (t.sent ≡ none)
        × (t.result ≡ none)
        × (t.aborted ≡ false))
flush_whole_example = flush_whole willing (some_event ∷ some_event ∷ [])

abbrev by_day_query : QueryParams
by_day_query = record { event_name = txt "signup"; from = 1; to = 2; group_by = txt "day" }

by_day_valid : valid_group_by by_day_query.group_by ≡ true
unfolding valid_group_by
by_day_valid = refl

abbrev counts : QueryParams → Answer (ℕ × ℕ)
counts q = rows (ok (3, 2) ∷ []) none

abbrev two_days : Statement → QueryParams → Answer GroupResult
two_days s q =
    rows
      (ok (record { key = txt "2023-11-14"; total_count = 2; unique_count = 1 })
        ∷ ok (record { key = txt "2023-11-15"; total_count = 1; unique_count = 1 })
        ∷ [])
      none

query-Answers_example :
    Answers platform counts two_days by_day_query (query platform counts two_days by_day_query)
query-Answers_example = query-Answers platform counts two_days by_day_query by_day_valid
