-- ===== src/Repository.antt =====
-- internal/repository/repository.go: `New`, `retryDelay`, and `Connect` with its retried ping. The
-- database is a parameter: what `clickhouse.Open` gives, what each ping gives, and for each wait
-- the error of the context if it ends first.
pub mod Delay
pub mod Attempts
pub mod Migrations
pub mod Health
pub mod Insert
pub mod Query
pub mod Lookup
pub mod Observed
use chronometrics.Common.{
  ℕ, zero, suc, ◌≡◌, Bool, true, false, Option, none, some, List, [], ◌∷◌, ◌++◌, if◌then◌else◌, txt,
}
use chronometrics.Common.Int.{ℤ, pos, negsuc, leb_ℤ, ltb_ℤ, scale}
use chronometrics.Common.Numerals.{decimal}
use chronometrics.Errors.{Error, wrapped}
use chronometrics.Domain.Json.{Result, ok, err}

pub record Config : Type 0 where
  pub query_timeout : ℤ
  pub max_open_conns : ℤ
  pub max_idle_conns : ℤ
  pub conn_max_lifetime : ℤ
  pub max_retries : ℤ
  pub retry_base_delay : ℤ
  pub retry_max_delay : ℤ

-- A positive value, or a default.
abbrev pub default_to : ℤ → ℤ → ℤ
default_to d v = if leb_ℤ v (pos 0) then d else v

abbrev default_timeout : ℤ → ℤ
default_timeout (pos zero) = pos 30000000000
default_timeout t = t

-- The configuration of the repository that `New` makes.
unfoldable pub new : Config → Config
new cfg = record cfg { query_timeout = default_timeout cfg.query_timeout }

unfoldable pub retry_delay : ℕ → ℤ → ℤ → ℤ
retry_delay zero d max = d
retry_delay (suc n) d max =
    let rest = retry_delay n (scale d 2) max in if ltb_ℤ max (scale d 2) then max else rest

-- The connection pool's defaults.
unfoldable pub with_pool : Config → Config
with_pool cfg = record cfg {
  max_open_conns = default_to (pos 10) cfg.max_open_conns;
  max_idle_conns = default_to (pos 5) cfg.max_idle_conns;
  conn_max_lifetime = default_to (pos 3600000000000) cfg.conn_max_lifetime;
}

abbrev retries_of : ℤ → ℕ
retries_of (pos zero) = 3
retries_of (pos (suc n)) = suc n
retries_of (negsuc n) = 3

abbrev pub retries : Config → ℕ
retries cfg = retries_of cfg.max_retries

unfoldable pub delay_after : Config → ℕ → ℤ
unfolding retry_delay
delay_after cfg attempt =
    retry_delay attempt (default_to (pos 500000000) cfg.retry_base_delay)
      (default_to (pos 10000000000) cfg.retry_max_delay)

-- What `Connect` does: its result, the number of pings, the delays that it began
-- to wait for, and whether it has
-- closed the connection.
pub record ConnectReport : Type 0 where
  pub result : Result Config
  pub pings : ℕ
  pub delays : List ℤ
  pub closed : Bool

unfoldable pub connected : Config → ℕ → ConnectReport
connected cfg attempt = record {
  result = ok (new (with_pool cfg));
  pings = suc attempt;
  delays = [];
  closed = false;
}

unfoldable pub gave_up : Config → ℕ → Error → ConnectReport
gave_up cfg attempt e = record {
  result =
      err (wrapped (txt "clickhouse ping after " ++ (decimal (retries cfg) ++ txt " retries")) e);
  pings = suc attempt;
  delays = [];
  closed = true;
}

unfoldable pub stopped : ℕ → Error → ConnectReport
stopped attempt x = record { result = err x; pings = suc attempt; delays = []; closed = true }

abbrev pub with_delay : ℤ → ConnectReport → ConnectReport
with_delay d rest = record rest { delays = d ∷ rest.delays }

module _ (cfg : Config) (ping : ℕ → Option Error) (interrupted : ℕ → Option Error) where
  -- The loop from an attempt on, with the number of attempts that may follow it.
  unfoldable pub ping_attempts : ℕ → ℕ → ConnectReport
  ping_attempts zero attempt = elim (ping attempt) [
    | none ↦ connected cfg attempt
    | some e ↦ gave_up cfg attempt e
  ]
  ping_attempts (suc left) attempt =
      let rest = ping_attempts left (suc attempt) in
      elim (ping attempt) [
        | none ↦ connected cfg attempt
        | some e ↦
            with_delay (delay_after cfg attempt)
              (elim (interrupted attempt) [ none ↦ rest | some x ↦ stopped attempt x ])
      ]

  abbrev opened : Option Error → ConnectReport
  opened none = ping_attempts (retries cfg) 0
  opened (some e) = record {
    result = err (wrapped (txt "open clickhouse") e);
    pings = 0;
    delays = [];
    closed = false;
  }

  -- `Connect`, on what `clickhouse.Open` gives.
  unfoldable pub connect : Option Error → ConnectReport
  unfolding ping_attempts
  connect failed = opened failed
