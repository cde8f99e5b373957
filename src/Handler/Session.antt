-- ===== src/Handler/Session.antt =====
-- Requests one after another through `Router`, each with the calls on the metrics that its end makes
-- (internal/handler/middleware.go).
pub mod Counted
pub mod Truthful
mod Reports
pub mod Rate
use chronometrics.Common.{ℕ, false, List, [], ◌∷◌, ◌++◌, Text}
use chronometrics.Observability.{Call}
use chronometrics.Handler.Http.{Request, Response}
use chronometrics.Handler.Middleware.Recorder.{Output, header, content, recorded, request_calls}
use chronometrics.Handler.Router.{Site, Handler, serve}

-- A request to a path, and the identifier that the middleware gives it.
pub record Visit : Type 0 where
  pub id : Text
  pub path : Text
  pub request : Request

-- What `writeJSON` does to the writer: the header with the status, then the body. The answers of the
-- metrics endpoint and of the mux, which are not of this repository, are taken to do the same.
abbrev pub writes : Response → List Output
writes resp = header resp.status ∷ content ∷ []

module _ {S : Type 0} (h : Handler S) where
  -- The calls at the end have the status that the recorder holds after the writes.
  unfoldable pub serve_one : Visit → Site S → Site S × Response × List Call
  unfolding serve recorded request_calls
  serve_one v site =
      let (site', resp) = serve h v.id v.path v.request site in
      let status = (recorded (writes resp) false).status in
      (site', resp, request_calls h.metrics v.request.method v.path status)

  unfoldable pub serve_all : List Visit → Site S → Site S × List Response × List Call
  unfolding serve_one
  serve_all [] site = (site, [], [])
  serve_all (v ∷ vs) site =
      let (site', resp, calls) = serve_one v site in
      let (final, resps, others) = serve_all vs site' in (final, resp ∷ resps, calls ++ others)
