-- ===== src/App/Built.antt =====
-- What `Build` leaves behind (internal/app/app.go).
use chronometrics.Common.{◌≡◌, ◌≢◌, refl, Bool, true, not, Option, none, some, List, Text, arith}
use chronometrics.Common.Int.{ℤ}
use chronometrics.Errors.{Error}
use chronometrics.Domain.Json.{Platform, Result, ok, err}
use chronometrics.Config.Types
use chronometrics.Config.Environment.{Environment}
use chronometrics.Config.Load.{load}
use chronometrics.Config.Load.Limits.{IsLoaded, load-IsLoaded}
use chronometrics.Buffer.{Buffer, new, start}
use chronometrics.Repository
use chronometrics.Repository.{ConnectReport, connect}
use chronometrics.Repository.Attempts.{is_ok, connect_closes}
use chronometrics.App.Infrastructure.{repository_config, start_buffer}
use chronometrics.App.{
  App, opened, Outside, BuildReport, after_connect, with_buffer, after_migrations, with_repository,
  with_config, run_migrations, build,
}

-- A service that has started has an open connection, all migrations behind it, and a buffer of its
-- configuration with its goroutines running; a failure leaves neither a connection nor a goroutine.
abbrev pub LeavesNothing : BuildReport → Type 0
LeavesNothing r = (r.connection ≢ opened) × (r.started ≡ none)

start_buffer-started :
    (cfg : Types.Config) (b : Buffer)
    → start_buffer cfg ≡ ok b
    → b ≡ start cfg.buffer true (new cfg.buffer)
unfolding start_buffer
start_buffer-started cfg b h = ground arith

module _ (p : Platform) (parse_duration : Text → Option ℤ) (is_not_exist : Error → Bool)
    (o : Outside) where
  abbrev pub env_after : Environment
  env_after = (load p parse_duration is_not_exist o.file o.env).0

  abbrev pub Built : Result App → BuildReport → Type 0
  Built (err e) r = LeavesNothing r
  Built (ok app) r =
      IsLoaded env_after app.cfg
      × (app.buffer ≡ start app.cfg.buffer true (new app.cfg.buffer))
      × (o.failed_open ≡ none)
      × (r.connection ≡ opened)
      × (run_migrations p parse_duration is_not_exist o ≡ (r.migrated, none))
      × (r.started ≡ some app.buffer)

  with_buffer-Built :
      (cfg : Types.Config) (repo : Repository.Config) (migrated : List Text) (b : Result Buffer)
      → IsLoaded env_after cfg
      → o.failed_open ≡ none
      → run_migrations p parse_duration is_not_exist o ≡ (migrated, none)
      → start_buffer cfg ≡ b
      → let r = with_buffer cfg repo migrated b in Built r.result r
  with_buffer-Built cfg repo migrated (err e) l f m h = ground arith
  with_buffer-Built cfg repo migrated (ok b) l f m h =
      (l, start_buffer-started cfg b h, f, refl, m, refl)

  after_migrations-Built :
      (cfg : Types.Config) (repo : Repository.Config) (m : List Text × Option Error)
      → IsLoaded env_after cfg
      → o.failed_open ≡ none
      → run_migrations p parse_duration is_not_exist o ≡ m
      → let r = after_migrations cfg repo m in Built r.result r
  after_migrations-Built cfg repo (migrated, some e) l f h = ground arith
  after_migrations-Built cfg repo (migrated, none) l f h =
      with_buffer-Built cfg repo migrated (start_buffer cfg) l f h refl

  with_repository-Built :
      (cfg : Types.Config) (closed_it : Bool) (repo : Result Repository.Config)
      → IsLoaded env_after cfg
      → o.failed_open ≡ none
      → closed_it ≡ not (is_ok repo)
      → let r =
          with_repository p parse_duration is_not_exist o cfg (after_connect none closed_it) repo in
        Built r.result r
  with_repository-Built cfg closed_it (err e) l f c = rw c (ground arith)
  with_repository-Built cfg closed_it (ok repo) l f c =
      after_migrations-Built cfg repo (run_migrations p parse_duration is_not_exist o) l f refl

  connected-Built :
      (cfg : Types.Config) (failed : Option Error)
      → IsLoaded env_after cfg
      → o.failed_open ≡ failed
      → let c = connect (repository_config cfg.click_house) o.ping o.interrupted failed in
        let r =
          with_repository p parse_duration is_not_exist o cfg
            (after_connect failed c.closed)
            c.result in
        Built r.result r
  unfolding connect
  connected-Built cfg (some e) l f = ground arith
  connected-Built cfg none l f =
      let repo_cfg = repository_config cfg.click_house in
      with_repository-Built cfg (connect repo_cfg o.ping o.interrupted none).closed
        (connect repo_cfg o.ping o.interrupted none).result l f
        (connect_closes repo_cfg o.ping o.interrupted).0

  with_config-Built :
      (c : Result Types.Config)
      → ((cfg : Types.Config) → c ≡ ok cfg → IsLoaded env_after cfg)
      → let r = with_config p parse_duration is_not_exist o c in Built r.result r
  with_config-Built (err e) loaded = ground arith
  with_config-Built (ok cfg) loaded = connected-Built cfg o.failed_open (loaded cfg refl) refl

  -- `build`, whatever the outside answers. Where it returns an application: the configuration has
  -- the limits of a loaded one, the connection to the database is open, running the migrations gave
  -- no error, and the buffer, made and started from that configuration, is the one that was started.
  -- Where it returns an error: no connection is left open, and no buffer was started.
  pub build_closes : let r = build p parse_duration is_not_exist o in Built r.result r
  unfolding build
  build_closes =
      with_config-Built (load p parse_duration is_not_exist o.file o.env).1
        (λ cfg h. load-IsLoaded p parse_duration is_not_exist o.file o.env cfg h)
