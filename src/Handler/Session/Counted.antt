-- ===== src/Handler/Session/Counted.antt =====
-- The request metrics against the requests and their responses (internal/handler/middleware.go).
use chronometrics.Common.{
  ℕ, suc, ◌+◌, ◌≡◌, refl, sym, ap, ◌∙◌, inl, inr, Bool, true, false, ◌&&◌, Bool-cases, List, [],
  ◌∷◌, ◌++◌, arith, ◌==◌, if◌then◌else◌, Text, text_eq, text_eq_refl, eq_of_text_eq,
}
use chronometrics.Common.Numerals.{decimal, decimal_inj}
use chronometrics.Observability.{Metric, http_requests_total, Call, inc}
use chronometrics.Handler.Http.{Response}
use chronometrics.Handler.Middleware.Recorder.{
  request_calls, recorded, outputs, write_header, new_recorder,
}
use chronometrics.Handler.Router.{Site, Handler, serve}
use chronometrics.Handler.Session.{Visit, serve_one, serve_all}

abbrev texts_eq : List Text → List Text → Bool
texts_eq [] [] = true
texts_eq (s ∷ ss) (t ∷ ts) = text_eq s t && texts_eq ss ts
texts_eq _ _ = false

abbrev is_requests : Metric → Bool
is_requests http_requests_total = true
is_requests _ = false

abbrev is_increment : List Text → Call → Bool
is_increment values (inc m given) = is_requests m && texts_eq given values
is_increment values _ = false

-- The value of the counter of requests for some values of its labels, after calls.
abbrev pub counted : List Text → List Call → ℕ
counted values [] = 0
counted values (c ∷ cs) =
    if is_increment values c then suc (counted values cs) else counted values cs

-- The requests with this method and path that were answered with this status.
abbrev pub answered_with : Text → Text → ℕ → List Visit → List Response → ℕ
answered_with method path status (v ∷ vs) (resp ∷ resps) =
    let rest = answered_with method path status vs resps in
    if text_eq v.request.method method && (text_eq v.path path && (resp.status == status))
    then suc rest
    else rest
answered_with method path status _ _ = 0

text_eq-decimal : (m n : ℕ) → text_eq (decimal m) (decimal n) ≡ (m == n)
text_eq-decimal m n = elim (Bool-cases (m == n)) [
  | inl same ↦
      let e : m ≡ n = ground arith in
      ap (λ k. text_eq (decimal m) (decimal k)) (sym e) ∙ text_eq_refl (decimal m) ∙ sym same
  | inr other ↦ elim (Bool-cases (text_eq (decimal m) (decimal n))) [
    | inl e ↦
        let f : m ≡ n = decimal_inj m n (eq_of_text_eq (decimal m) (decimal n) e) in
        absurd (ground arith)
    | inr e ↦ e ∙ sym other
  ]
]

counted-append :
    (values : List Text) (xs ys : List Call)
    → counted values (xs ++ ys) ≡ counted values xs + counted values ys
counted-append values [] ys = omega arith
counted-append values (x ∷ xs) ys = ground (arith, counted-append values xs ys)

-- The calls of one request.
counted-request_calls :
    (on : Bool) (m p m' p' : Text) (s s' : ℕ)
    → on ≡ true
    → counted (m ∷ p ∷ decimal s ∷ []) (request_calls on m' p' s')
      ≡ (if text_eq m' m && (text_eq p' p && (s' == s)) then 1 else 0)
unfolding request_calls
counted-request_calls on m p m' p' s s' h = rw (h, text_eq-decimal s' s) (ground arith)

answered_with-cons :
    (m p : Text) (s : ℕ) (v : Visit) (vs : List Visit) (resp : Response) (resps : List Response)
    → answered_with m p s (v ∷ vs) (resp ∷ resps)
      ≡ (if text_eq v.request.method m && (text_eq v.path p && (resp.status == s)) then 1 else 0)
        + answered_with m p s vs resps
answered_with-cons m p s v vs resp resps =
    elim (Bool-cases (text_eq v.request.method m && (text_eq v.path p && (resp.status == s)))) [
      | inl same ↦ rw same (omega arith)
      | inr other ↦ rw other (omega arith)
    ]

-- With metrics, after any requests one after another: for every method, path and status, the
-- counter chronometrics_http_requests_total with these labels has been incremented once for each
-- request with that method and path that was answered with that status, and not otherwise. The
-- label is the status that the recorder of the middleware holds after the response is written.
pub requests_counted :
    {S : Type 0} (h : Handler S) (vs : List Visit) (site : Site S) (method path : Text) (status : ℕ)
    → h.metrics ≡ true
    → let x = serve_all h vs site in
      counted (method ∷ path ∷ decimal status ∷ []) x.2 ≡ answered_with method path status vs x.1
unfolding serve_all serve_one recorded outputs write_header new_recorder
requests_counted h [] site method path status on = refl
requests_counted h (v ∷ vs) site method path status on =
    let (site', resp) = serve h v.id v.path v.request site in
    counted-append (method ∷ path ∷ decimal status ∷ [])
      (request_calls h.metrics v.request.method v.path resp.status) (serve_all h vs site').2
    ∙ omega (
      arith,
      counted-request_calls h.metrics method path v.request.method v.path status resp.status on,
      requests_counted h vs site' method path status on,
      answered_with-cons method path status v vs resp (serve_all h vs site').1,
    )
