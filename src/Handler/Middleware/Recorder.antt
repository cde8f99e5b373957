-- ===== src/Handler/Middleware/Recorder.antt =====
-- internal/handler/middleware.go: `statusRecorder`, and the request metrics of `withMiddleware`.
use chronometrics.Common.{
  ℕ, ◌≡◌, ◌≢◌, arith, refl, ◌⊎◌, inl, inr, Bool, true, false, Option, none, some, List, [], ◌∷◌,
  Text,
}
use chronometrics.Common.Numerals.{decimal}
use chronometrics.Observability.{Call, inc, observe, http_requests_total, http_request_duration}

-- What a handler does to its `http.ResponseWriter`: `WriteHeader`, or `Write`.
pub data Output : Type 0 where
  header : ℕ → Output
  content : Output

-- The recorder, and the status that the server has sent, which is the first.
pub record Recorder : Type 0 where
  pub status : ℕ
  pub sent : Option ℕ

abbrev first_sent : Option ℕ → ℕ → Option ℕ
first_sent none code = some code
first_sent (some sent) code = some sent

unfoldable pub new_recorder : Recorder
new_recorder = record { status = 200; sent = none }

-- `WriteHeader` of the recorder.
unfoldable pub write_header : ℕ → Recorder → Recorder
write_header code rec = record { status = code; sent = first_sent rec.sent code }

-- `Write` goes to the writer behind: it sends 200 where nothing was sent.
abbrev output : Output → Recorder → Recorder
output (header code) rec = write_header code rec
output content rec = record rec { sent = first_sent rec.sent 200 }

unfoldable pub outputs : List Output → Recorder → Recorder
unfolding write_header
outputs [] rec = rec
outputs (o ∷ os) rec = outputs os (output o rec)

-- After the next handler and the deferred function, which answers a panic.
unfoldable pub recorded : List Output → Bool → Recorder
unfolding outputs write_header new_recorder
recorded os false = outputs os new_recorder
recorded os true = write_header 500 (outputs os new_recorder)

-- What the client gets: 200 where the handler wrote nothing.
abbrev pub received : Option ℕ → ℕ
received none = 200
received (some code) = code

-- The calls on the metrics, if there are any, at the end of a request.
unfoldable pub request_calls : Bool → Text → Text → ℕ → List Call
request_calls false method path status = []
request_calls true method path status =
    inc http_requests_total (method ∷ path ∷ decimal status ∷ [])
    ∷ observe http_request_duration (method ∷ path ∷ [])
    ∷ []

-- At most one header, before anything else.
abbrev no_header : List Output → Bool
no_header [] = true
no_header (content ∷ os) = no_header os
no_header (header code ∷ os) = false

abbrev pub is_proper : List Output → Bool
is_proper [] = true
is_proper (o ∷ os) = no_header os

contents-outputs :
    (os : List Output) (status code : ℕ)
    → no_header os ≡ true
    → outputs os (record { status = status; sent = some code })
      ≡ record { status = status; sent = some code }
unfolding outputs
contents-outputs [] status code h = refl
contents-outputs (content ∷ os) status code h = contents-outputs os status code h
contents-outputs (header c ∷ os) status code h = absurd (ground arith)

-- What a handler that wrote first `o`, and no header after, leaves in the recorder.
proper-outputs :
    (o : Output) (os : List Output)
    → no_header os ≡ true
    → (outputs (o ∷ os) new_recorder).status ≡ received (outputs (o ∷ os) new_recorder).sent
unfolding outputs write_header new_recorder
proper-outputs (header c) os h = rw (contents-outputs os c c h) refl
proper-outputs content os h = rw (contents-outputs os 200 200 h) refl

-- For a handler that writes at most one header, before the body: the status that the recorder gives
-- to the log and the metrics is the one that the client gets, except where the handler panicked
-- after it had written, where 500 is recorded, while the client has the status that was sent.
pub recorded_status :
    (os : List Output) (panicked : Bool)
    → is_proper os ≡ true
    → ((recorded os panicked).status ≡ received (recorded os panicked).sent)
      ⊎ ((panicked ≡ true)
          × (os ≢ [])
          × ((recorded os panicked).status ≡ 500)
          × ((recorded os panicked).sent ≡ (recorded os false).sent))
unfolding recorded outputs write_header new_recorder
recorded_status [] false h = inl refl
recorded_status [] true h = inl refl
recorded_status (o ∷ os) false h = inl (proper-outputs o os h)
recorded_status (header c ∷ os) true h =
    inr (refl, (λ e. absurd (ground arith)), refl, rw (contents-outputs os c c h) refl)
recorded_status (content ∷ os) true h =
    inr (refl, (λ e. absurd (ground arith)), refl, rw (contents-outputs os 200 200 h) refl)
