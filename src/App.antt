-- ===== src/App.antt =====
-- internal/app/app.go: `Build`. What the system gives is a parameter: the `.env` file and the
-- environment, the answers of the database to `Open` and to the pings, the end of the context, and
-- the files of the migrations with what executing them gives.
pub mod Infrastructure
pub mod Built
pub mod Writes
pub mod Intake
pub mod Acknowledged
pub mod Composed
pub mod Lifecycle
use chronometrics.Common.{ℕ, Bool, true, false, Option, none, some, List, [], Text, txt}
use chronometrics.Common.Int.{ℤ}
use chronometrics.Errors.{Error, wrapped}
use chronometrics.Domain.Json.{Platform, Result, ok, err}
use chronometrics.Config.Types
use chronometrics.Config.Environment.{Environment}
use chronometrics.Config.Load.{load}
use chronometrics.Buffer.{Buffer}
use chronometrics.Repository
use chronometrics.Repository.{ConnectReport, connect}
use chronometrics.Repository.Migrations.{DirEntry, apply_migrations}
use chronometrics.App.Infrastructure.{Service, repository_config, start_buffer, compose, address}

pub record App : Type 0 where
  pub cfg : Types.Config
  pub repo : Repository.Config
  pub buffer : Buffer
  pub service : Service
  pub addr : Text

-- The connection to the database: none, open, or closed again.
pub data Connection : Type 0 where
  unopened : Connection
  opened : Connection
  closed : Connection

-- What the outside gives to one call of `Build`.
pub record Outside : Type 0 where
  pub file : Result Text
  pub env : Environment
  pub failed_open : Option Error
  pub ping : ℕ → Option Error
  pub interrupted : ℕ → Option Error
  pub listing : Result (List DirEntry)
  pub read_file : Text → Result Text
  pub exec : Text → Option Error

-- The result of `Build`, the connection after it, the migrations applied, and the buffer that was
-- started.
pub record BuildReport : Type 0 where
  pub result : Result App
  pub connection : Connection
  pub migrated : List Text
  pub started : Option Buffer

abbrev pub refused : Error → Connection → List Text → BuildReport
refused e connection migrated = record {
  result = err e;
  connection = connection;
  migrated = migrated;
  started = none;
}

-- After `Connect`, on what opening gave and whether it has closed the connection.
abbrev pub after_connect : Option Error → Bool → Connection
after_connect (some e) was_closed = unopened
after_connect none true = closed
after_connect none false = opened

abbrev pub with_buffer : Types.Config → Repository.Config → List Text → Result Buffer → BuildReport
with_buffer cfg repo migrated (err e) = refused e closed migrated
with_buffer cfg repo migrated (ok b) = record {
  result =
      ok (record { cfg = cfg; repo = repo; buffer = b; service = compose cfg; addr = address cfg });
  connection = opened;
  migrated = migrated;
  started = some b;
}

abbrev pub after_migrations :
    Types.Config → Repository.Config → List Text × Option Error → BuildReport
after_migrations cfg repo (migrated, some e) =
    refused (wrapped (txt "run migrations") e) closed migrated
after_migrations cfg repo (migrated, none) = with_buffer cfg repo migrated (start_buffer cfg)

module _ (p : Platform) (parse_duration : Text → Option ℤ) (is_not_exist : Error → Bool)
    (o : Outside) where
  -- `RunMigrations`.
  abbrev pub run_migrations : List Text × Option Error
  run_migrations = apply_migrations o.read_file o.exec (txt "migrations") o.listing

  abbrev pub with_repository : Types.Config → Connection → Result Repository.Config → BuildReport
  with_repository cfg connection (err e) =
      refused (wrapped (txt "connect clickhouse") e) connection []
  with_repository cfg connection (ok repo) = after_migrations cfg repo run_migrations

  abbrev pub connected_to : Types.Config → ConnectReport
  connected_to cfg = connect (repository_config cfg.click_house) o.ping o.interrupted o.failed_open

  abbrev pub with_config : Result Types.Config → BuildReport
  with_config (err e) = refused e unopened []
  with_config (ok cfg) =
      let r = connected_to cfg in
      with_repository cfg (after_connect o.failed_open r.closed) r.result

  unfoldable pub build : BuildReport
  unfolding connect apply_migrations load repository_config start_buffer compose address
  build = with_config (load p parse_duration is_not_exist o.file o.env).1
