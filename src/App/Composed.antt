-- ===== src/App/Composed.antt =====
-- The service that `Build` makes, as a handler (internal/app/compose.go).
pub mod Limits
use chronometrics.Common.{ℕ, Bool, true, Option, some, Text}
use chronometrics.Domain.Json.{Platform, Result}
use chronometrics.Domain.Query.{QueryParams, MetricResult}
use chronometrics.Buffer.{Buffer}
use chronometrics.Handler.Adapter.{use_case_adapter}
use chronometrics.Handler.Http.{Request, Response, Decoder, Ingester, Counters, HealthStatus}
use chronometrics.Handler.Router.{Site, Handler}
use chronometrics.App.{App}

abbrev no_counts : Counters
no_counts = record {
  ingested_single = 0;
  ingested_bulk = 0;
  errors_validation = 0;
  errors_publish = 0;
  errors_internal = 0;
}

-- What the libraries and the repository give.
pub record Given : Type 0 where
  pub platform : Platform
  pub decoder : Decoder
  pub querier : QueryParams → Result MetricResult
  pub health : HealthStatus
  pub prometheus : Request → Response
  pub unmatched : Text → Request → Response

-- `compose`, around an ingester: the repository is the querier, and the health checker is there;
-- `Build` always makes the metrics.
unfoldable pub handler_of : {S : Type 0} → Ingester S → Given → App → Handler S
handler_of ingester g app = record {
  ingester = ingester;
  querier = g.querier;
  checker = some g.health;
  cfg = app.service.server;
  metrics = true;
  platform = g.platform;
  decoder = g.decoder;
  prometheus = g.prometheus;
  unmatched = g.unmatched;
}

-- The ingester that it makes, at readings of the clock.
unfoldable pub ingester_of : Platform → (ℕ → ℕ) → (ℕ → Bool) → App → Ingester Buffer
ingester_of p now cancelled app = use_case_adapter p app.service.use_case now cancelled

unfoldable pub site_of : {S : Type 0} → S → App → Site S
site_of s app = record { inner = s; counters = no_counts; limiters = app.service.limiters }
