-- ===== src/Buffer/CloseCall.antt =====
-- internal/buffer/buffer.go: one call of `Close`. How its wait ends is an argument: the goroutines have
-- ended, or the context has, with its error.
use chronometrics.Common.{◌≡◌, refl, inl, inr, Bool-cases, Option, none, some, if◌then◌else◌}
use chronometrics.Errors.{Error}
use chronometrics.Buffer.{Buffer, close}

pub data Waited : Type 0 where
  finished : Waited
  expired : Error → Waited

abbrev wait_result : Waited → Option Error
wait_result finished = none
wait_result (expired e) = some e

unfoldable pub close_call : Waited → Buffer → Buffer × Option Error
unfolding close
close_call w b = if b.done then (b, none) else (close b, wait_result w)

-- However a first call ends, its wait or its deadline, the second returns no error at once, and
-- changes nothing: it does not wait for the goroutines.
pub close_call-close_call :
    (w w' : Waited) (b : Buffer) → close_call w' (close_call w b).0 ≡ ((close_call w b).0, none)
unfolding close_call close
close_call-close_call w w' b = elim (Bool-cases b.done) [
  | inl before ↦ rw before refl
  | inr first ↦ rw first refl
]
