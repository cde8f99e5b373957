-- ===== src/Handler/Session/Rate.antt =====
-- How many events the service can accept between two ticks of the rate limiters
-- (internal/handler/middleware.go, handler.go, bulk.go).
use native.Mathlib.Nat.{suc-mul}
use chronometrics.Common.{
  ℕ, suc, ◌+◌, ◌-◌, ◌*◌, ◌≤◌, ◌<◌, ◌≡◌, refl, sym, ap, ◌∙◌, inl, inr, false, Bool-cases, Option,
  none, some, List, [], ◌∷◌, ltb, arith, if◌then◌else◌, Text, txt, text_eq, subst,
}
use chronometrics.Common.Int.{pos, ltb_ℤ}
use chronometrics.Handler.Http.{Request, Response, is_post}
use chronometrics.Handler.Admission.{reported}
use chronometrics.Handler.Bulk.{max_bulk}
use chronometrics.Handler.Contract.Conforms.{handle_ingest-conforms}
use chronometrics.Handler.Metrics.{handle_metrics, handle_health}
use chronometrics.Handler.Metrics.Admits.{handle_metrics_reports, handle_health_reports}
use chronometrics.Handler.Single.{handle_ingest}
use chronometrics.Handler.Limiter.{RateLimiter, LimiterRegistry, reset, find_limiter, with_limiter}
use chronometrics.Handler.Limiter.Window.{with_limiter_self, with_limiter_ne, find_limiter-reset}
use chronometrics.Handler.Middleware.{body_limit, limit_body, with_middleware}
use chronometrics.Handler.Router.{
  Site, Handler, Route, events, bulk, metrics, health, prometheus, find_route, patterns,
  through_limiter, ingest_route, bulk_route, route_to, serve,
}
use chronometrics.Handler.Router.Admits.{PlainAnswers}
use chronometrics.Handler.Session.{Visit, serve_one, serve_all}
use chronometrics.Handler.Session.Truthful.{all_reported}
use chronometrics.Handler.Session.Reports.{conforms_report, handle_bulk_report}

-- A limiter in a registry, by its count and its limit.
abbrev Has : Text → ℕ → ℕ → LimiterRegistry → Type 0
Has name c l registry = find_limiter name registry ≡ some (record { count = c; limit = pos l })

module _ {S : Type 0} (h : Handler S) (l k : ℕ) where
  abbrev most : ℕ
  most = max_bulk h.cfg.max_bulk_events

  -- What the two limiters still let through.
  abbrev left : ℕ → ℕ → ℕ
  left c d = (l - c) + (k - d) * most

  -- The limiters of the two routes, after a request that reported so many events.
  record After (n c d : ℕ) (registry : LimiterRegistry) : Type 0 where
    single : ℕ
    bulks : ℕ
    has_single : Has (txt "ingest") single l registry
    has_bulk : Has (txt "bulk") bulks k registry
    spent : n + left single bulks ≤ left c d

  After-none :
      (n c d : ℕ) (registry : LimiterRegistry)
      → n ≡ 0
      → Has (txt "ingest") c l registry
      → Has (txt "bulk") d k registry
      → After n c d registry
  After-none n c d registry e a b = record {
    single = c;
    bulks = d;
    has_single = a;
    has_bulk = b;
    spent = omega (arith, e);
  }

  -- A request to another route.
  other_route :
      (name : Text) (c d : ℕ) (registry : LimiterRegistry)
      → text_eq name (txt "ingest") ≡ false
      → text_eq name (txt "bulk") ≡ false
      → Has (txt "ingest") c l registry
      → Has (txt "bulk") d k registry
      → Has (txt "ingest") c l (with_limiter name registry).0
        × Has (txt "bulk") d k (with_limiter name registry).0
  other_route name c d registry i b hi hb = (
    with_limiter_ne (txt "ingest") name registry i ∙ hi,
    with_limiter_ne (txt "bulk") name registry b ∙ hb,
  )

  After-single :
      (n c d : ℕ) (registry : LimiterRegistry)
      → n ≤ (if (with_limiter (txt "ingest") registry).1 then 1 else 0)
      → Has (txt "ingest") c l registry
      → Has (txt "bulk") d k registry
      → After n c d (with_limiter (txt "ingest") registry).0
  After-single n c d registry few hi hb =
      let (passed, found) = with_limiter_self (txt "ingest") c l registry hi in
      record {
        single = if ltb c l then suc c else c;
        bulks = d;
        has_single = found;
        has_bulk = with_limiter_ne (txt "bulk") (txt "ingest") registry refl ∙ hb;
        spent = ground (arith, passed, few);
      }

  one_less : (d : ℕ) → d < k → most + (k - suc d) * most ≡ (k - d) * most
  one_less d lt =
      let e : k - d ≡ suc (k - suc d) = omega arith in
      rw e (omega (arith, suc-mul (k - suc d) most))

  After-bulk :
      (n c d : ℕ) (registry : LimiterRegistry)
      → n ≤ (if (with_limiter (txt "bulk") registry).1 then most else 0)
      → Has (txt "ingest") c l registry
      → Has (txt "bulk") d k registry
      → After n c d (with_limiter (txt "bulk") registry).0
  After-bulk n c d registry few hi hb =
      let (passed, found) = with_limiter_self (txt "bulk") d k registry hb in
      record {
        single = c;
        bulks = if ltb d k then suc d else d;
        has_single = with_limiter_ne (txt "ingest") (txt "bulk") registry refl ∙ hi;
        has_bulk = found;
        spent = elim (Bool-cases (ltb d k)) [
          | inl below ↦
              let fits : n ≤ most = ground (arith, (rw (passed, below) at few)) in
              rw below (omega (arith, fits, one_less d (ground arith)))
          | inr full ↦
              let none_passes : n ≤ 0 = ground (arith, (rw (passed, full) at few)) in
              rw full (omega (arith, none_passes))
        ];
      }

  -- What a limiter lets through, and that the handler behind it leaves the limiters alone.
  through_report :
      (name : Text) (next : Site S → Site S × Response) (site : Site S) (n : ℕ)
      → ((site' : Site S) → reported (next site').1 ≤ n)
      → reported (through_limiter h name next site).1
        ≤ (if (with_limiter name site.limiters).1 then n else 0)
  through_report name next site n few = elim (Bool-cases (with_limiter name site.limiters).1) [
    | inl passes ↦ rw passes (few (record site { limiters = (with_limiter name site.limiters).0 }))
    | inr full ↦ rw full (omega arith)
  ]

  through_limiters :
      (name : Text) (next : Site S → Site S × Response) (site : Site S)
      → ((site' : Site S) → (next site').0.limiters ≡ site'.limiters)
      → (through_limiter h name next site).0.limiters ≡ (with_limiter name site.limiters).0
  through_limiters name next site same = elim (Bool-cases (with_limiter name site.limiters).1) [
    | inl passes ↦ rw passes (same (record site { limiters = (with_limiter name site.limiters).0 }))
    | inr full ↦ rw full refl
  ]

  -- A response that reports nothing, behind the limiter of another route.
  other-After :
      (name : Text) (answer : Response) (site : Site S) (c d : ℕ)
      → text_eq name (txt "ingest") ≡ false
      → text_eq name (txt "bulk") ≡ false
      → reported answer ≡ 0
      → Has (txt "ingest") c l site.limiters
      → Has (txt "bulk") d k site.limiters
      → let x = through_limiter h name (λ s. (s, answer)) site in
        After (reported x.1) c d x.0.limiters
  other-After name answer site c d i b e hi hb =
      let (a, z) = other_route name c d site.limiters i b hi hb in
      elim (Bool-cases (with_limiter name site.limiters).1) [
        | inl passes ↦ rw passes (After-none (reported answer) c d _ e a z)
        | inr full ↦ rw full (After-none 0 c d _ refl a z)
      ]

  route_to-After :
      PlainAnswers h
      → (route : Option Route) (path : Text) (r : Request) (site : Site S) (c d : ℕ)
      → Has (txt "ingest") c l site.limiters
      → Has (txt "bulk") d k site.limiters
      → let x = route_to h route path r site in After (reported x.1) c d x.0.limiters
  route_to-After plain (some events) path r site c d hi hb =
      subst (After _ c d)
        (sym (through_limiters (txt "ingest") (ingest_route h r) site (λ s. refl)))
        (After-single _ c d site.limiters
          (through_report (txt "ingest") (ingest_route h r) site 1 (λ s.
            conforms_report (is_post r)
              (handle_ingest h.decoder h.ingester h.metrics r s.inner s.counters).2
              (handle_ingest-conforms h.decoder h.ingester h.metrics r s.inner s.counters)))
          hi hb)
  route_to-After plain (some bulk) path r site c d hi hb =
      subst (After _ c d) (sym (through_limiters (txt "bulk") (bulk_route h r) site (λ s. refl))) (
        After-bulk _ c d site.limiters
          (through_report (txt "bulk") (bulk_route h r) site most
            (λ s. handle_bulk_report h.ingester h.metrics h.cfg h.decoder r s.inner s.counters))
          hi hb)
  route_to-After plain (some metrics) path r site c d hi hb =
      other-After (txt "metrics") (handle_metrics h.platform h.querier r) site c d refl refl
        (handle_metrics_reports h.platform h.querier r) hi hb
  route_to-After plain (some health) path r site c d hi hb =
      other-After (txt "health") (handle_health h.checker r) site c d refl refl
        (handle_health_reports h.checker r) hi hb
  route_to-After plain (some prometheus) path r site c d hi hb =
      After-none _ c d site.limiters (plain.0 r) hi hb
  route_to-After plain none path r site c d hi hb =
      After-none _ c d site.limiters (plain.1 path r) hi hb

  serve-After :
      PlainAnswers h
      → (id path : Text) (r : Request) (site : Site S) (c d : ℕ)
      → Has (txt "ingest") c l site.limiters
      → Has (txt "bulk") d k site.limiters
      → let x = serve h id path r site in After (reported x.1) c d x.0.limiters
  unfolding serve with_middleware limit_body
  serve-After plain id path r site c d hi hb =
      elim (Bool-cases (ltb_ℤ (pos (body_limit h.cfg.max_body_bytes)) r.content_length)) [
        | inl long ↦ rw long (After-none 0 c d site.limiters refl hi hb)
        | inr fits ↦ rw fits (
            route_to-After plain (find_route path (patterns h.metrics)) path
              (limit_body h.cfg.max_body_bytes r) site c d hi hb)
      ]

  serve_all_report :
      PlainAnswers h
      → (vs : List Visit) (site : Site S) (c d : ℕ) → Has (txt "ingest") c l site.limiters
      → Has (txt "bulk") d k site.limiters
      → all_reported (serve_all h vs site).1 ≤ left c d
  unfolding serve_all serve_one
  serve_all_report plain [] site c d hi hb = omega arith
  serve_all_report plain (v ∷ vs) site c d hi hb =
      let (site', resp) = serve h v.id v.path v.request site in
      let a = serve-After plain v.id v.path v.request site c d hi hb in
      omega
        (arith, a.spent, serve_all_report plain vs site' a.single a.bulks a.has_single a.has_bulk)

  -- After a tick of the reset goroutine, where the limiter of /events has the limit `l` and that of
  -- /events/bulk the limit `k`: whatever the requests up to the next tick and their paths, all
  -- responses together report at most `l` events and `k` times as many as a bulk request may hold.
  pub accepted_per_tick :
      PlainAnswers h
      → (vs : List Visit) (site : Site S) (registry : LimiterRegistry) (single bulks : RateLimiter)
      → site.limiters ≡ reset registry
      → find_limiter (txt "ingest") registry ≡ some single
      → find_limiter (txt "bulk") registry ≡ some bulks
      → single.limit ≡ pos l
      → bulks.limit ≡ pos k
      → all_reported (serve_all h vs site).1 ≤ l + k * max_bulk h.cfg.max_bulk_events
  accepted_per_tick plain vs site registry single bulks ticked fi fb li lb =
      let hi : Has (txt "ingest") 0 l site.limiters =
        rw (ticked, ← li) (find_limiter-reset (txt "ingest") single registry fi) in
      let hb : Has (txt "bulk") 0 k site.limiters =
        rw (ticked, ← lb) (find_limiter-reset (txt "bulk") bulks registry fb) in
      let whole : k - 0 ≡ k = omega arith in
      omega (arith, serve_all_report plain vs site 0 0 hi hb, ap (λ n. n * most) whole)
