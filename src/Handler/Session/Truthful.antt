-- ===== src/Handler/Session/Truthful.antt =====
-- The counters of ingested events over many requests (internal/handler/ingest.go, bulk.go).
use chronometrics.Common.{ℕ, ◌+◌, ◌≡◌, List, [], ◌∷◌, arith}
use chronometrics.Handler.Http.{Response}
use chronometrics.Handler.Admission.{reported}
use chronometrics.Handler.Router.{Site, Handler, serve}
use chronometrics.Handler.Router.Admits.{PlainAnswers}
use chronometrics.Handler.Router.Counts.{ingested, metered, serve-Truthful}
use chronometrics.Handler.Session.{Visit, serve_one, serve_all}

abbrev pub all_reported : List Response → ℕ
all_reported [] = 0
all_reported (resp ∷ resps) = reported resp + all_reported resps

-- With metrics, over any ingester, after any requests one after another to any paths: the two
-- counters of chronometrics_events_ingested_total have together grown by exactly the number of
-- events that the responses report as accepted.
pub events_counted :
    {S : Type 0} (h : Handler S) (vs : List Visit) (site : Site S)
    → PlainAnswers h
    → let x = serve_all (metered h) vs site in
      ingested x.0.counters ≡ ingested site.counters + all_reported x.1
unfolding serve_all serve_one
events_counted h [] site plain = omega arith
events_counted h (v ∷ vs) site plain =
    let (site', resp) = serve (metered h) v.id v.path v.request site in
    omega
      (arith, serve-Truthful h plain v.id v.path v.request site, events_counted h vs site' plain)
