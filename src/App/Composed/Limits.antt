-- ===== src/App/Composed/Limits.antt =====
-- The rate of the service that `Build` makes (internal/app/app.go, compose.go).
use chronometrics.Common.{
  ◌*◌, ◌≤◌, ◌≡◌, refl, ap, subst, Bool, Option, none, some, List, arith, Text,
}
use chronometrics.Common.Int.{ℤ, pos}
use chronometrics.Errors.{Error}
use chronometrics.Domain.Json.{Platform, Result, ok, err}
use chronometrics.Buffer.{Buffer}
use chronometrics.Config.Load.{load}
use chronometrics.Config.Types
use chronometrics.Repository
use chronometrics.Repository.{connect}
use chronometrics.Handler.Bulk.{max_bulk}
use chronometrics.Handler.Http.{Ingester}
use chronometrics.Handler.Limiter.{RateLimiter, new_limiter_registry, find_limiter, reset}
use chronometrics.Handler.Router.{Site}
use chronometrics.Handler.Router.Admits.{PlainAnswers}
use chronometrics.Handler.Session.{Visit, serve_all}
use chronometrics.Handler.Session.Truthful.{all_reported}
use chronometrics.Handler.Session.Rate.{accepted_per_tick}
use chronometrics.App.{
  App, Outside, Connection, with_buffer, after_migrations, run_migrations, with_repository,
  connected_to, after_connect, with_config, build,
}
use chronometrics.App.Infrastructure.{compose, start_buffer}
use chronometrics.App.Composed.{Given, handler_of}

-- The service is the one composed from the configuration.
abbrev IsComposed : Result App → Type 0
IsComposed (err e) = Unit
IsComposed (ok app) = app.service ≡ compose app.cfg

with_buffer-IsComposed :
    (cfg : Types.Config) (repo : Repository.Config) (m : List Text) (b : Result Buffer)
    → IsComposed (with_buffer cfg repo m b).result
with_buffer-IsComposed cfg repo m (err e) = tt
with_buffer-IsComposed cfg repo m (ok b) = refl

after_migrations-IsComposed :
    (cfg : Types.Config) (repo : Repository.Config) (m : List Text × Option Error)
    → IsComposed (after_migrations cfg repo m).result
after_migrations-IsComposed cfg repo (m, some e) = tt
after_migrations-IsComposed cfg repo (m, none) =
    with_buffer-IsComposed cfg repo m (start_buffer cfg)

module _ (p : Platform) (parse_duration : Text → Option ℤ) (is_not_exist : Error → Bool)
    (o : Outside) where
  with_repository-IsComposed :
      (cfg : Types.Config) (connection : Connection) (repo : Result Repository.Config)
      → IsComposed (with_repository p parse_duration is_not_exist o cfg connection repo).result
  with_repository-IsComposed cfg connection (err e) = tt
  with_repository-IsComposed cfg connection (ok repo) =
      after_migrations-IsComposed cfg repo (run_migrations p parse_duration is_not_exist o)

  with_config-IsComposed :
      (c : Result Types.Config) → IsComposed (with_config p parse_duration is_not_exist o c).result
  with_config-IsComposed (err e) = tt
  with_config-IsComposed (ok cfg) =
      let r = connected_to p parse_duration is_not_exist o cfg in
      with_repository-IsComposed cfg (after_connect o.failed_open r.closed) r.result

  build-IsComposed : IsComposed (build p parse_duration is_not_exist o).result
  unfolding build
  build-IsComposed = with_config-IsComposed (load p parse_duration is_not_exist o.file o.env).1

  -- The service that `build` returns accepts at most 525000 events from one tick of its rate limiters
  -- to the next, by all requests together: 25000 by single requests, and 1000 by each of 500 bulk
  -- requests.
  pub service_per_tick :
      {S : Type 0} (ingester : Ingester S) (g : Given) (app : App) (vs : List Visit) (site : Site S)
      → PlainAnswers (handler_of ingester g app)
      → (build p parse_duration is_not_exist o).result ≡ ok app
      → site.limiters ≡ reset app.service.limiters
      → all_reported (serve_all (handler_of ingester g app) vs site).1 ≤ 525000
  unfolding handler_of compose new_limiter_registry find_limiter
  service_per_tick ingester g app vs site plain built ticked =
      let made : app.service ≡ compose app.cfg = subst IsComposed built build-IsComposed in
      let single : RateLimiter = record { count = 0; limit = pos 25000 } in
      let bulks : RateLimiter = record { count = 0; limit = pos 500 } in
      let bound =
        accepted_per_tick (handler_of ingester g app) 25000 500 plain vs site app.service.limiters
          single bulks ticked (rw made refl) (rw made refl) refl refl in
      let limit : max_bulk app.service.server.max_bulk_events ≡ 1000 = rw made refl in
      omega (arith, bound, ap (λ n. 500 * n) limit)
