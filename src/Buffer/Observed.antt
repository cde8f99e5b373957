-- ===== src/Buffer/Observed.antt =====
-- internal/buffer/buffer.go: the calls on the metrics in `flushWithRetry` and `Publish`.
use chronometrics.Common.{ℕ, Bool, true, false, Option, none, some, List, [], ◌∷◌}
use chronometrics.Errors.{Error}
use chronometrics.Observability.{
  Call, inc, set, buffer_flushes_total, buffer_depth, success, error',
}

-- At the end of `flushWithRetry`, by its result, with the length of the channel at that time.
unfoldable pub flush_calls : Bool → Option Error → ℕ → List Call
flush_calls false result depth = []
flush_calls true none depth = inc buffer_flushes_total (success ∷ []) ∷ set buffer_depth depth ∷ []
flush_calls true (some e) depth = inc buffer_flushes_total (error' ∷ []) ∷ []

-- In `Publish`, by its result.
unfoldable pub publish_calls : Bool → Option Error → ℕ → List Call
publish_calls false result depth = []
publish_calls true none depth = set buffer_depth depth ∷ []
publish_calls true (some e) depth = []
