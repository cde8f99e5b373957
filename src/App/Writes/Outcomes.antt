-- ===== src/App/Writes/Outcomes.antt =====
-- Databases that recover in time, and databases that refuse (internal/buffer/buffer.go).
use chronometrics.Common.{
  ℕ, ◌<◌, ◌≡◌, ◌≢◌, refl, ◌∙◌, inl, inr, true, Option-cases, none, List, [], ◌∷◌, arith, length,
}
use chronometrics.Common.Int.{ℤ}
use chronometrics.Domain.Event.{Event}
use chronometrics.Config.Types.{BufferConfig}
use chronometrics.Buffer.{new, start}
use chronometrics.Buffer.Retry.{rounds, flush_timeout}
use chronometrics.Buffer.Retry.Found.{flush_with_retry-found, flush_with_retry-reached}
use chronometrics.Buffer.Steps.{
  World, initial, Step, admit, received, ticked, noticed, sent, drained_one, took, wrote, gave_up,
  stopped, closed, Reach, here, more, join,
}
use chronometrics.Buffer.Steps.Sizes.{IsBounded}
use chronometrics.Buffer.Steps.Bounds.{run-IsBounded}
use chronometrics.Repository.Insert.{BatchApi, flush}
use chronometrics.App.Writes.{Database, write, Writes, Obeys}
use chronometrics.App.Writes.Stored.{writing-pos}

-- Whatever the batch, one of the attempts that `flushWithRetry` makes is a success.
abbrev pub Recovers : BufferConfig → Database → Type 0
Recovers cfg db =
    (batch : List Event)
    → (k : ℕ) × ((k < rounds cfg.flush_retries)
        × ((flush (db (flush_timeout cfg) k) batch).result ≡ none))

-- Every attempt is refused before a row is appended, as on a context that is done.
abbrev pub Refuses : Database → Type 0
Refuses db = (timeout : ℤ) (i : ℕ) → (db timeout i).prepare ≢ none

write-Recovers :
    (cfg : BufferConfig) (db : Database) (batch : List Event)
    → Recovers cfg db
    → write cfg db batch ≡ none
unfolding write
write-Recovers cfg db batch h =
    let (k, (lt, e)) = h batch in
    flush_with_retry-reached cfg (λ timeout i. (flush (db timeout i) batch).result) k lt e

flush-refused :
    (api : BatchApi) (batch : List Event)
    → 0 < length batch
    → api.prepare ≢ none
    → (flush api batch).result ≢ none
unfolding flush
flush-refused api [] n h e = absurd (omega arith)
flush-refused api (ev ∷ evs) n h e = elim (Option-cases api.prepare) [
  | inl f ↦ h f
  | inr (x, f) ↦ absurd (ground (arith, (rw (f, flush) at e)))
]

write-Refuses :
    (cfg : BufferConfig) (db : Database) (batch : List Event)
    → 0 < length batch
    → Refuses db
    → write cfg db batch ≢ none
unfolding write
write-Refuses cfg db batch n h e =
    let (j, f) = flush_with_retry-found cfg (λ timeout i. (flush (db timeout i) batch).result) e in
    flush-refused (db (flush_timeout cfg) j) batch n (h (flush_timeout cfg) j) f

Step-Recovers :
    (cfg : BufferConfig) {w t : World} (s : Step w t)
    → Writes cfg (Recovers cfg) s
    → t.dropped ≡ w.dropped
Step-Recovers cfg (gave_up w before behind batch q) (db, (a, e)) =
    absurd (e (write-Recovers cfg db batch a))
Step-Recovers cfg (wrote w before behind batch q) o = refl
Step-Recovers cfg (admit w ev b q) o = refl
Step-Recovers cfg (received w b q) o = refl
Step-Recovers cfg (ticked w b q) o = refl
Step-Recovers cfg (noticed w b q) o = refl
Step-Recovers cfg (sent w b q) o = refl
Step-Recovers cfg (drained_one w b q) o = refl
Step-Recovers cfg (took w b batch rest f q) o = refl
Step-Recovers cfg (stopped w b q) o = refl
Step-Recovers cfg (closed w) o = refl

Step-Refuses :
    (cfg : BufferConfig) {w t : World} (s : Step w t)
    → IsBounded w.buffer
    → Writes cfg Refuses s
    → t.flushed ≡ w.flushed
Step-Refuses cfg (wrote w before behind batch q) h (db, (a, e)) =
    absurd (write-Refuses cfg db batch (writing-pos w before behind batch q h) a e)
Step-Refuses cfg (gave_up w before behind batch q) h o = refl
Step-Refuses cfg (admit w ev b q) h o = refl
Step-Refuses cfg (received w b q) h o = refl
Step-Refuses cfg (ticked w b q) h o = refl
Step-Refuses cfg (noticed w b q) h o = refl
Step-Refuses cfg (sent w b q) h o = refl
Step-Refuses cfg (drained_one w b q) h o = refl
Step-Refuses cfg (took w b batch rest f q) h o = refl
Step-Refuses cfg (stopped w b q) h o = refl
Step-Refuses cfg (closed w) h o = refl

pub run-Recovers :
    (cfg : BufferConfig) (t : World) (r : Reach (initial (start cfg true (new cfg))) t)
    → Obeys cfg (Recovers cfg) r
    → t.dropped ≡ []
unfolding initial
run-Recovers cfg t here o = refl
run-Recovers cfg t (more {t = u} r s) (o, v) = Step-Recovers cfg s v ∙ run-Recovers cfg u r o

pub run-Refuses :
    (cfg : BufferConfig) (w t : World)
    → Reach (initial (start cfg true (new cfg))) w
    → (r : Reach w t) → Obeys cfg Refuses r
    → t.flushed ≡ w.flushed
run-Refuses cfg w t r₀ here o = refl
run-Refuses cfg w t r₀ (more {t = u} r s) (o, v) =
    Step-Refuses cfg s (run-IsBounded cfg true u (join r₀ r)) v ∙ run-Refuses cfg w u r₀ r o
