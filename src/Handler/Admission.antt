-- ===== src/Handler/Admission.antt =====
-- What a response reports as accepted, and what a request adds to the buffer
-- (internal/handler/types.go, internal/buffer/buffer.go).
use mathlib.Core.List.{append-nil, append_assoc}
use chronometrics.Common.{
  ℕ, ◌+◌, ◌≤◌, max, subst, ◌≡◌, refl, sym, ap, ◌∙◌, List, [], ◌++◌, ◌∷◌, arith, length,
  length-append, none, some, Bool,
}
use chronometrics.Domain.Json.{Platform}
use chronometrics.Domain.Event.{RawEvent, Event}
use chronometrics.Buffer.{Buffer}
use chronometrics.Ingest.{UseCase, ingest, buffer_publisher}
use chronometrics.Ingest.Gate.{ingest_pushes}
use chronometrics.Handler.Http.{
  Response, Body, error_response, status_accepted, bulk_response, metric_response, health_response,
}

-- The number of events that a response reports as accepted.
abbrev pub reported_by : Body → ℕ
reported_by (error_response code msg) = 0
reported_by status_accepted = 1
reported_by (bulk_response r) = r.accepted
reported_by (metric_response r) = 0
reported_by (health_response r) = 0

abbrev pub reported : Response → ℕ
reported r = reported_by r.body

-- So many events were added at the end of the channel, which is not above its capacity by that, and
-- nothing else of the buffer has changed.
abbrev pub Admits : ℕ → Buffer → Buffer → Type 0
Admits n b b' =
    (added : List Event) × ((b' ≡ record b { ch = b.ch ++ added })
      × (length added ≡ n)
      × (length b.ch + n ≤ max b.capacity (length b.ch)))

pub Admits-none : (n : ℕ) (b : Buffer) → n ≡ 0 → Admits n b b
Admits-none n b h = ([], (rw (append-nil b.ch) refl, sym h, omega (arith, h)))

pub Admits-same : (n : ℕ) (b b' : Buffer) → b' ≡ b → n ≡ 0 → Admits n b b'
Admits-same n b b' e h = ([], (e ∙ rw (append-nil b.ch) refl, sym h, omega (arith, h)))

pub Admits-trans :
    (m n : ℕ) (b b' b'' : Buffer) → Admits m b b' → Admits n b' b'' → Admits (m + n) b b''
Admits-trans m n b b' b'' (xs, (e, l, u)) (ys, (f, k, v)) = (
  xs ++ ys,
  (
    f ∙ ap (λ (z : Buffer). record z { ch = z.ch ++ ys }) e ∙ rw (append_assoc b.ch xs ys) refl,
    omega (arith, l, k, length-append xs ys),
    omega (
      arith,
      u,
      l,
      subst (λ (z : Buffer). length z.ch + n ≤ max z.capacity (length z.ch)) e v,
      length-append b.ch xs,
    ),
  ),
)

pub ingest-Admits :
    (p : Platform) (uc : UseCase) (now : ℕ) (cancelled : Bool) (raw : RawEvent) (b : Buffer)
    → (ingest p buffer_publisher uc now cancelled (some raw) b).1 ≡ none
    → Admits 1 b (ingest p buffer_publisher uc now cancelled (some raw) b).0
ingest-Admits p uc now cancelled raw b h =
    let (ev, room, e) = ingest_pushes p uc now cancelled raw b h in
    (ev ∷ [], (e, refl, omega (arith, room)))
