-- ===== src/Handler/Middleware.antt =====
-- internal/handler/middleware.go: `withMiddleware`; its request metrics are in Recorder, its log is
-- left out.
pub mod Bounded
pub mod Recorder
use chronometrics.Common.{
  ℕ, zero, suc, ◌≤◌, ◌<◌, ◌≡◌, ◌≢◌, ◌⊎◌, inl, inr, refl, ap, ◌∙◌, subst, arith, Bool, true, false,
  Option, none, some, List, [], ◌∷◌, ltb, leb, length, if◌then◌else◌, Bool-cases, Text, txt,
}
use chronometrics.Common.Int.{ℤ, pos, negsuc, ltb_ℤ}
use chronometrics.Errors.{Error, max_bytes}
use chronometrics.Handler.Http.{
  Request, Response, BodyRead, read, read_failed, Header, request_id, payload_too_large,
  internal_error, write_error, with_header,
}

-- The limit of the body: `MaxBodyBytes` where it is positive, else a mebibyte.
abbrev pub body_limit : ℤ → ℕ
body_limit (pos zero) = 1048576
body_limit (pos (suc n)) = suc n
body_limit (negsuc n) = 1048576

-- `http.MaxBytesReader`: reading more than the limit fails with its error; where reading the body
-- itself fails, it does so within the limit.
abbrev pub limited : ℕ → BodyRead → BodyRead
limited n (read_failed e) = read_failed e
limited n (read s) = if ltb n (length s) then read_failed max_bytes else read s

unfoldable pub limit_body : ℤ → Request → Request
limit_body max_body_bytes r = record r { body = limited (body_limit max_body_bytes) r.body }

-- The answer of the next handler; `none` is a panic before it has written one.
abbrev recovered : Text → Option Response → Response
recovered id none =
    with_header (request_id id) (write_error 500 internal_error (txt "internal error"))
recovered id (some resp) = with_header (request_id id) resp

module _ {S : Type 0} (max_body_bytes : ℤ) (next : Request → S → S × Option Response) where
  -- The request id is that of `uuid.NewString`.
  unfoldable pub with_middleware : Text → Request → S → S × Response
  unfolding limit_body
  with_middleware id r s =
      if ltb_ℤ (pos (body_limit max_body_bytes)) r.content_length
      then (s, write_error 413 payload_too_large (txt "request body too large"))
      else (let (s', resp) = next (limit_body max_body_bytes r) s in (s', recovered id resp))
