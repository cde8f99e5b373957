-- ===== src/Examples/Config.antt =====
-- The theorems on the configuration at concrete environments.
use chronometrics.Common.{◌≡◌, ◌≢◌, refl, true, Option, none, [], ◌∷◌, arith, Text, txt}
use chronometrics.Common.Int.{ℤ}
use chronometrics.Domain.Json.{ok}
use chronometrics.Config.Types.{Config}
use chronometrics.Config.Environment.{Environment, lookup_env, or_text}
use chronometrics.Config.DotEnv.{load_dot_env}
use chronometrics.Config.DotEnv.Keeps.{load_dot_env_keeps}
use chronometrics.Config.DotEnv.RoundTrip.{
  Entries, AreEntries, render, first_given, load_dot_env_entries,
}
use chronometrics.Config.Overrides.{defaults, overridden}
use chronometrics.Config.Load.{load}
use chronometrics.Config.Load.Limits.{IsLoaded, load-IsLoaded}
use chronometrics.Examples.{platform}

abbrev environment : Environment
environment =
    (txt "CHRONOMETRICS_CLICKHOUSE_ADDR", txt "db:9000")
    ∷ (txt "CHRONOMETRICS_CLICKHOUSE_DATABASE", txt "metrics")
    ∷ (txt "CHRONOMETRICS_CLICKHOUSE_USERNAME", txt "ingest")
    ∷ []

addr_is_set : lookup_env (txt "CHRONOMETRICS_CLICKHOUSE_ADDR") environment ≢ []
unfolding lookup_env
addr_is_set e = ground arith

load_dot_env_keeps_example :
    lookup_env
      (txt "CHRONOMETRICS_CLICKHOUSE_ADDR")
      (load_dot_env platform (ok (txt "CHRONOMETRICS_CLICKHOUSE_ADDR=other:9000")) environment).0
    ≡ lookup_env (txt "CHRONOMETRICS_CLICKHOUSE_ADDR") environment
load_dot_env_keeps_example =
    load_dot_env_keeps platform (ok (txt "CHRONOMETRICS_CLICKHOUSE_ADDR=other:9000"))
      (txt "CHRONOMETRICS_CLICKHOUSE_ADDR") environment addr_is_set

abbrev entries : Entries
entries = (txt "PORT", txt "80") ∷ (txt "DB", txt "m") ∷ []

entries-AreEntries : AreEntries entries
entries-AreEntries = (
  record { key = ground arith; named = ground arith; value = ground arith; short = omega arith },
  (
    record { key = ground arith; named = ground arith; value = ground arith; short = omega arith },
    tt,
  ),
)

load_dot_env_entries_example :
    ((load_dot_env platform (ok (render entries)) environment).1 ≡ none)
    × (lookup_env (txt "DB") (load_dot_env platform (ok (render entries)) environment).0
        ≡ or_text (lookup_env (txt "DB") environment) (first_given (txt "DB") entries))
load_dot_env_entries_example =
    load_dot_env_entries platform entries (txt "DB") environment entries-AreEntries

abbrev no_durations : Text → Option ℤ
no_durations s = none

abbrev loaded : Config
loaded = overridden no_durations environment defaults

load_ok : (load platform no_durations (λ e. true) (ok []) environment).1 ≡ ok loaded
unfolding load lookup_env chronometrics.Config.Environment.env_any defaults
load_ok = refl

load-IsLoaded_example :
    IsLoaded (load platform no_durations (λ e. true) (ok []) environment).0 loaded
load-IsLoaded_example =
    load-IsLoaded platform no_durations (λ e. true) (ok []) environment loaded load_ok
