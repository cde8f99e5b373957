-- ===== src/Config/Load/Limits.antt =====
-- The limits that hold of every loaded configuration (internal/config/config.go), and of the
-- buffer and the retries that it gives (internal/buffer/buffer.go).
use chronometrics.Common.{
  ℕ, zero, suc, ◌≤◌, ◌<◌, ◌≡◌, ◌≢◌, refl, sym, subst, ap, ◌∙◌, inl, inr, Bool, false, Option, none,
  some, List, [], ◌∷◌, arith, Text, txt, Bool-cases,
}
use chronometrics.Common.Int.{ℤ, pos, negsuc, leb_ℤ, ltb_ℤ}
use chronometrics.Errors.{Error}
use chronometrics.Domain.Json.{Platform, Result, ok}
use chronometrics.Config.Types.{Config}
use chronometrics.Config.Environment.{Environment, lookup_env, or_text, env_any}
use chronometrics.Config.DotEnv.{load_dot_env}
use chronometrics.Config.Overrides.{defaults, overridden, override_click_house}
use chronometrics.Config.Load.{
  missing, check_ranges, required, checked, configure, after_dot_env, load,
}
use chronometrics.Buffer.{new, positive_or}
use chronometrics.Buffer.Retry.{rounds}

-- What `Load` has checked.
pub record IsLoaded (env : Environment) (cfg : Config) : Type 0 where
  pub port : (n : ℕ) × (cfg.server.port ≡ pos n) × (1 ≤ n) × (n ≤ 65535)
  pub capacity : (n : ℕ) × (cfg.buffer.capacity ≡ pos n) × (0 < n) × ((new cfg.buffer).capacity ≡ n)
  pub batch :
      (n : ℕ) × (cfg.buffer.flush_batch_size ≡ pos n)
      × (0 < n)
      × (n ≤ 10000)
      × ((new cfg.buffer).batch_size ≡ n)
  pub retries :
      (n : ℕ) × (cfg.buffer.flush_retries ≡ pos n)
      × (n ≤ 10)
      × (rounds cfg.buffer.flush_retries ≤ 10)
  pub addr :
      (cfg.click_house.addr ≢ [])
      × (cfg.click_house.addr ≡ lookup_env (txt "CHRONOMETRICS_CLICKHOUSE_ADDR") env)
  pub database :
      (cfg.click_house.database ≢ [])
      × (cfg.click_house.database ≡ lookup_env (txt "CHRONOMETRICS_CLICKHOUSE_DATABASE") env)
  pub username :
      (cfg.click_house.username ≢ [])
      × (cfg.click_house.username ≡ lookup_env (txt "CHRONOMETRICS_CLICKHOUSE_USERNAME") env)

in_range :
    (z : ℤ) (lo hi : ℕ)
    → ltb_ℤ z (pos lo) ≡ false
    → ltb_ℤ (pos hi) z ≡ false
    → (n : ℕ) × (z ≡ pos n) × (lo ≤ n) × (n ≤ hi)
in_range (pos n) lo hi h k = (n, refl, ground arith, ground arith)
in_range (negsuc n) lo hi h k = cc

-- What the checks leave.
record Passed (cfg c : Config) : Type 0 where
  same : cfg ≡ c
  port_low : ltb_ℤ cfg.server.port (pos 1) ≡ false
  port_high : ltb_ℤ (pos 65535) cfg.server.port ≡ false
  capacity : leb_ℤ cfg.buffer.capacity (pos 0) ≡ false
  batch_low : ltb_ℤ cfg.buffer.flush_batch_size (pos 1) ≡ false
  batch_high : ltb_ℤ (pos 10000) cfg.buffer.flush_batch_size ≡ false
  retries_low : ltb_ℤ cfg.buffer.flush_retries (pos 0) ≡ false
  retries_high : ltb_ℤ (pos 10) cfg.buffer.flush_retries ≡ false

check_ranges-Passed : (cfg c : Config) → check_ranges cfg ≡ ok c → Passed cfg c
unfolding check_ranges
check_ranges-Passed cfg c h = ground arith

positive : (z : ℤ) → leb_ℤ z (pos 0) ≡ false → (n : ℕ) × (z ≡ pos n) × (0 < n)
positive (pos n) h = (n, refl, ground arith)
positive (negsuc n) h = cc

positive_or-pos : (z : ℤ) (n : ℕ) → z ≡ pos n → 0 < n → positive_or 1000 z ≡ n
positive_or-pos z zero e h = absurd (omega arith)
positive_or-pos z (suc n) e h = ap (positive_or 1000) e

rounds-le : (z : ℤ) (n : ℕ) → z ≡ pos n → n ≤ 10 → rounds z ≤ 10
rounds-le z zero e h = rw e (omega arith)
rounds-le z (suc n) e h = rw e h

missing_one-given :
    (key : Text) (keys : List Text) (env : Environment)
    → missing (key ∷ keys) env ≡ []
    → (lookup_env key env ≢ []) × (missing keys env ≡ [])
unfolding missing
missing_one-given key keys env h = ground arith

or_text-given :
    (key d : Text) (env : Environment)
    → lookup_env key env ≢ []
    → or_text (env_any (key ∷ []) env) d ≡ lookup_env key env
unfolding env_any
or_text-given key d env h = ground arith

-- A field whose variable has a value.
given :
    (key d : Text) (env : Environment)
    → lookup_env key env ≢ []
    → let value = or_text (env_any (key ∷ []) env) d in (value ≢ []) × (value ≡ lookup_env key env)
given key d env h = let e = or_text-given key d env h in ((λ z. h (sym e ∙ z)), e)

checked-ok :
    (cfg c : Config) (keys : List Text)
    → checked cfg keys ≡ ok c
    → (keys ≡ []) × (check_ranges cfg ≡ ok c)
checked-ok cfg c [] h = (refl, h)
checked-ok cfg c (key ∷ keys) h = cc

module _ (parse_duration : Text → Option ℤ) (env : Environment) where
  configure-IsLoaded : (c : Config) → configure parse_duration env ≡ ok c → IsLoaded env c
  unfolding configure overridden override_click_house new
  configure-IsLoaded c h =
      let cfg = overridden parse_duration env defaults in
      let (complete, passed) = checked-ok cfg c (missing required env) h in
      let (has_addr, rest) =
        missing_one-given _
          (txt "CHRONOMETRICS_CLICKHOUSE_DATABASE" ∷ txt "CHRONOMETRICS_CLICKHOUSE_USERNAME" ∷ [])
          env complete in
      let (has_database, rest') =
        missing_one-given _ (txt "CHRONOMETRICS_CLICKHOUSE_USERNAME" ∷ []) env rest in
      let (has_username, rest'') = missing_one-given _ [] env rest' in
      let r = check_ranges-Passed cfg c passed in
      let (cap, cap_is, cap_pos) = positive cfg.buffer.capacity r.capacity in
      let (size, size_is, size_pos, size_max) =
        in_range cfg.buffer.flush_batch_size 1 10000 r.batch_low r.batch_high in
      let (tries, tries_is, tries_min, tries_max) =
        in_range cfg.buffer.flush_retries 0 10 r.retries_low r.retries_high in
      subst (IsLoaded env) r.same (record {
        port = in_range cfg.server.port 1 65535 r.port_low r.port_high;
        capacity = (cap, cap_is, cap_pos, positive_or-pos cfg.buffer.capacity cap cap_is cap_pos);
        batch = (
          size,
          size_is,
          size_pos,
          size_max,
          positive_or-pos cfg.buffer.flush_batch_size size size_is size_pos,
        );
        retries = (
          tries,
          tries_is,
          tries_max,
          rounds-le cfg.buffer.flush_retries tries tries_is tries_max,
        );
        addr = given _ _ env has_addr;
        database = given _ _ env has_database;
        username = given _ _ env has_username;
      })

-- Whatever the environment and the .env file hold: a configuration that `Load` returns has a port
-- from 1 to 65535; a positive capacity, which is that of the buffer made from it; a batch size from
-- 1 to 10000, which is that of the buffer; from 0 to 10 retries, so that a batch is written at most
-- ten times; and the address, database and user name that the environment holds, none of them
-- empty.
pub load-IsLoaded :
    (p : Platform) (parse_duration : Text → Option ℤ) (is_not_exist : Error → Bool)
    (file : Result Text) (env : Environment) (c : Config)
    → (load p parse_duration is_not_exist file env).1 ≡ ok c
    → IsLoaded (load p parse_duration is_not_exist file env).0 c
unfolding load
load-IsLoaded p parse_duration is_not_exist file env c h = after_load (load_dot_env p file env) h
  where
    after_load :
        (r : Environment × Option Error)
        → (after_dot_env p parse_duration is_not_exist r).1 ≡ ok c
        → IsLoaded (after_dot_env p parse_duration is_not_exist r).0 c
    after_load (e, none) g = configure-IsLoaded parse_duration e c g
    after_load (e, some x) g = elim (Bool-cases (is_not_exist x)) [
      | inl absent ↦ rw absent (configure-IsLoaded parse_duration e c (rw absent at g))
      | inr broken ↦ absurd (ground arith)
    ]
