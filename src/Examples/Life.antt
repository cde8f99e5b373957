-- ===== src/Examples/Life.antt =====
-- The life of an application from `Build` to the end.
use chronometrics.Common.{◌≡◌, refl, true, false}
use chronometrics.Domain.Json.{ok}
use chronometrics.App.{build}
use chronometrics.Examples.{platform}
use chronometrics.App.{App}
use chronometrics.App.Lifecycle.{
  returned, cut_off, Life, life_of, goroutine, close_called, close_returned, disconnected, Lived,
  born, then',
}
use chronometrics.App.Lifecycle.Quiet.{IsQuiet, disconnected-IsQuiet}
use chronometrics.App.Infrastructure.{repository_config, compose, address}
use chronometrics.Config.Types.{Config}
use chronometrics.Config.Overrides.{defaults, overridden}
use chronometrics.Repository
use chronometrics.Repository.{with_pool}
use chronometrics.Config.Environment.{lookup_env, env_any}
use chronometrics.Common.Sorting.{sort_strings}
use chronometrics.Repository.Migrations.{sql_files}
use chronometrics.Common.{◌⊎◌, inl}
use chronometrics.Buffer.{
  exited, new, start, ticker_interval, dispatch, drain_step, drained, notice_done, stop_worker,
  close,
}
use chronometrics.Buffer.Steps.{initial, noticed, drained_one, stopped}
use chronometrics.Examples.App.{outside, no_durations}

abbrev cfg : Config
cfg = overridden no_durations outside.env defaults

abbrev app : App
app = record {
  cfg = cfg;
  repo = Repository.new (with_pool (repository_config cfg.click_house));
  buffer = start cfg.buffer true (new cfg.buffer);
  service = compose cfg;
  addr = address cfg;
}

app_built : (build platform no_durations (λ e. true) outside).result ≡ ok app
unfolding build lookup_env env_any defaults Repository.connected sort_strings sql_files
app_built = refl

-- Nothing was published, and everything has ended.
abbrev gone_quiet : Life
gone_quiet = record {
  world = record (initial app.buffer) {
    buffer = record app.buffer {
      done = true;
      runner = exited;
      idle_workers = 0;
      stopped_workers = 4;
    };
  };
  stage = returned;
  connected = false;
}

to_gone : Lived (life_of app) gone_quiet
unfolding life_of initial start new ticker_interval dispatch drain_step drained notice_done
    stop_worker close lookup_env env_any defaults overridden
to_gone =
    let r = then' born (close_called refl) in
    let r = then' r (goroutine _ (noticed _ _ refl) refl) in
    let r = then' r (goroutine _ (drained_one _ _ refl) refl) in
    let r = then' r (goroutine _ (stopped _ _ refl) refl) in
    let r = then' r (goroutine _ (stopped _ _ refl) refl) in
    let r = then' r (goroutine _ (stopped _ _ refl) refl) in
    let r = then' r (goroutine _ (stopped _ _ refl) refl) in
    let r = then' r (close_returned refl refl) in then' r (disconnected (inl refl))

disconnected-IsQuiet_example :
    (gone_quiet.stage ≡ cut_off) ⊎ ((gone_quiet.stage ≡ returned) × IsQuiet gone_quiet.world)
disconnected-IsQuiet_example =
    disconnected-IsQuiet platform no_durations (λ e. true) outside app gone_quiet app_built to_gone
      refl
