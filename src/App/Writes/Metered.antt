-- ===== src/App/Writes/Metered.antt =====
-- The counter of flushes over a run of the service (internal/buffer/buffer.go).
use chronometrics.Common.{
  ℕ, suc, ◌+◌, ◌≡◌, true, none, List, [], ◌∷◌, ◌++◌, length, Text, text_eq, if◌then◌else◌,
}
use chronometrics.Observability.{Call, inc, buffer_flushes_total, success, error'}
use chronometrics.Config.Types.{BufferConfig}
use chronometrics.Buffer.Observed.{flush_calls, publish_calls}
use chronometrics.Buffer.Steps.{World, Step, admit, wrote, gave_up, Reach, here, more}
use chronometrics.App.Writes.{Database, write, Writes, Obeys}

-- The value of chronometrics_buffer_flushes_total for a result, after calls.
abbrev pub flush_count : Text → List Call → ℕ
flush_count label [] = 0
flush_count label (inc buffer_flushes_total (l ∷ []) ∷ cs) =
    let rest = flush_count label cs in if text_eq l label then suc rest else rest
flush_count label (c ∷ cs) = flush_count label cs

-- The calls of a step: those of `Publish`, and those of `flushWithRetry` at its end.
abbrev step_calls :
    (cfg : BufferConfig) (Allowed : Database → Type 0) {w t : World} (s : Step w t)
    → Writes cfg Allowed s
    → List Call
step_calls cfg Allowed (admit w ev b q) x = publish_calls true none (length b.ch)
step_calls cfg Allowed (wrote w before behind batch q) x =
    flush_calls true (write cfg x.0 batch) (length w.ch)
step_calls cfg Allowed (gave_up w before behind batch q) x =
    flush_calls true (write cfg x.0 batch) (length w.ch)
step_calls cfg Allowed _ x = []

abbrev pub run_calls :
    (cfg : BufferConfig) (Allowed : Database → Type 0) {w t : World} (r : Reach w t)
    → Obeys cfg Allowed r
    → List Call
run_calls cfg Allowed here o = []
run_calls cfg Allowed (more r s) o = run_calls cfg Allowed r o.0 ++ step_calls cfg Allowed s o.1

-- What a step adds to the two series.
record Adds (w t : World) (calls : List Call) : Type 0 where
  good : length t.flushed ≡ length w.flushed + flush_count success calls
  bad : length t.dropped ≡ length w.dropped + flush_count error' calls
