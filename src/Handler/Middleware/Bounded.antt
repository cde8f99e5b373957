-- ===== src/Handler/Middleware/Bounded.antt =====
-- What `withMiddleware` lets through to POST /events (internal/handler/middleware.go, ingest.go).
use chronometrics.Common.{
  ℕ, ◌≤◌, ◌≡◌, inl, inr, arith, Bool, false, Option, none, some, ltb, length, Bool-cases, Text,
}
use chronometrics.Common.Int.{ℤ, pos, ltb_ℤ}
use chronometrics.Handler.Http.{
  Request, Response, BodyRead, read, read_failed, Counters, Decoder, Ingester,
}
use chronometrics.Handler.Single.{handle_ingest}
use chronometrics.Handler.Single.Accepted.{handle_ingest-Answered, Answered-accepted}
use chronometrics.Domain.Event.{RawEvent}
use chronometrics.Handler.Middleware.{body_limit, limited, limit_body, with_middleware}

limited-read :
    (n : ℕ) (b : BodyRead) (t : Text) → limited n b ≡ read t → (b ≡ read t) × (length t ≤ n)
limited-read n (read_failed e) t h = absurd (ground arith)
limited-read n (read s) t h = elim (Bool-cases (ltb n (length s))) [
  | inl long ↦ absurd (ground arith)
  | inr short ↦ ground arith
]

module _ {S : Type 0} (decoder : Decoder) (ingester : Ingester S) (metrics : Bool) where
  -- The handler of POST /events as the next handler: it never panics.
  abbrev pub route : Request → S × Counters → (S × Counters) × Option Response
  route r (s, c) =
      let (s', c', resp) = handle_ingest decoder ingester metrics r s c in ((s', c'), some resp)

  -- Through the middleware, POST /events answers 202 only to a request whose body was read, is at
  -- most as long as the limit, and decodes to an event that the ingester took without an error; its
  -- declared length is not above the limit.
  pub accepted_body :
      (m : ℤ) (id : Text) (r : Request) (s : S) (c : Counters)
      → (with_middleware m route id r (s, c)).1.status ≡ 202
      → (t : Text) × (raw : RawEvent) × (r.body ≡ read t)
        × (length t ≤ body_limit m)
        × (decoder.decode_event t ≡ some raw)
        × ((ingester.ingest 0 raw s).1 ≡ none)
        × (ltb_ℤ (pos (body_limit m)) r.content_length ≡ false)
  unfolding with_middleware limit_body
  accepted_body m id r s c h = elim (Bool-cases (ltb_ℤ (pos (body_limit m)) r.content_length)) [
    | inl long ↦ absurd (ground (arith, rw long at h))
    | inr fits ↦
        let (t, raw, body, decoded, taken, kept) =
          Answered-accepted metrics c
            (handle_ingest-Answered decoder ingester metrics s c (limit_body m r)) (rw fits at h) in
        let (whole, short) = limited-read (body_limit m) r.body t body in
        (t, raw, whole, short, decoded, taken, fits)
  ]
