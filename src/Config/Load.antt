-- ===== src/Config/Load.antt =====
-- `Load` of internal/config/config.go. `time.ParseDuration` is a parameter.
pub mod Limits
use chronometrics.Common.{
  ℕ, zero, suc, Bool, true, false, ◌||◌, Option, none, some, List, [], ◌∷◌, ◌++◌, if◌then◌else◌,
  Text, txt, join_texts,
}
use chronometrics.Common.Int.{ℤ, pos, negsuc, leb_ℤ, ltb_ℤ, div_ℤ, scale}
use chronometrics.Common.Numerals.{parse_int}
use chronometrics.Errors.{Error, wrapped, other}
use chronometrics.Domain.Json.{Platform, Result, ok, err}
use chronometrics.Config.Types.{
  ServerConfig, BufferConfig, ClickHouseConfig, ValidationConfig, Config,
}
use chronometrics.Config.Environment.{Environment, lookup_env, env_any, or_text}
use chronometrics.Config.DotEnv.{load_dot_env}
use chronometrics.Config.Overrides.{defaults, overridden}

abbrev pub required : List Text
required =
    txt "CHRONOMETRICS_CLICKHOUSE_ADDR"
    ∷ txt "CHRONOMETRICS_CLICKHOUSE_DATABASE"
    ∷ txt "CHRONOMETRICS_CLICKHOUSE_USERNAME"
    ∷ []

abbrev missing_one : Text → Text → List Text → List Text
missing_one key [] rest = key ∷ rest
missing_one key (b ∷ s) rest = rest

unfoldable pub missing : List Text → Environment → List Text
missing [] env = []
missing (key ∷ keys) env = missing_one key (lookup_env key env) (missing keys env)

-- The checks of the ranges.
unfoldable pub check_ranges : Config → Result Config
check_ranges cfg =
    if ltb_ℤ cfg.server.port (pos 1) || ltb_ℤ (pos 65535) cfg.server.port
    then err (other (txt "server port out of range (1-65535)"))
    else if leb_ℤ cfg.buffer.capacity (pos 0)
    then err (other (txt "invalid range in config"))
    else if ltb_ℤ cfg.buffer.flush_batch_size (pos 1)
        || ltb_ℤ (pos 10000) cfg.buffer.flush_batch_size
    then err (other (txt "buffer flush_batch_size out of range (1-10000)"))
    else if ltb_ℤ cfg.buffer.flush_retries (pos 0) || ltb_ℤ (pos 10) cfg.buffer.flush_retries
    then err (other (txt "buffer flush_retries out of range (0-10)"))
    else ok cfg

abbrev pub checked : Config → List Text → Result Config
checked cfg [] = check_ranges cfg
checked cfg (key ∷ keys) =
    err
      (other (txt "missing required environment variables: " ++ join_texts (txt ", ") (key ∷ keys)))

unfoldable pub configure : (Text → Option ℤ) → Environment → Result Config
unfolding overridden missing check_ranges
configure parse_duration env =
    checked (overridden parse_duration env defaults) (missing required env)

-- `Load`: the environment after it, and its result. `is_not_exist` is `os.IsNotExist`.
module _ (p : Platform) (parse_duration : Text → Option ℤ) (is_not_exist : Error → Bool) where
  abbrev pub after_dot_env : Environment × Option Error → Environment × Result Config
  after_dot_env (env, none) = (env, configure parse_duration env)
  after_dot_env (env, some e) =
      if is_not_exist e
      then (env, configure parse_duration env)
      else (env, err (wrapped (txt "load .env") e))

  unfoldable pub load : Result Text → Environment → Environment × Result Config
  unfolding configure load_dot_env
  load file env = after_dot_env (load_dot_env p file env)
