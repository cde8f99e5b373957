-- ===== src/App/Lifecycle.antt =====
-- internal/app/app.go: `Run` and `shutdown`, as steps beside those of the buffer's goroutines. A
-- handler may still publish at any stage, as `http.Server.Shutdown` gives up at its deadline.
pub mod Quiet
use chronometrics.Common.{◌≡◌, ◌⊎◌, Bool, true, false}
use chronometrics.Buffer.{close, wait_over}
use chronometrics.Buffer.Steps.{World, initial, Step, closed}
use chronometrics.App.{App}

-- Before `a.buffer.Close`, in it, after it has returned nil, and after it has returned the error of
-- its context.
pub data Stage : Type 0 where
  serving : Stage
  waiting : Stage
  returned : Stage
  cut_off : Stage

-- `connected`: the database has not been closed.
pub record Life : Type 0 where
  pub world : World
  pub stage : Stage
  pub connected : Bool

-- After `Build`.
unfoldable pub life_of : App → Life
life_of app = record { world = initial app.buffer; stage = serving; connected = true }

abbrev pub is_close : {w t : World} → Step w t → Bool
is_close (closed w) = true
is_close _ = false

pub data Lives (l : Life) : Life → Type 0 where
  goroutine :
      (t : World) (s : Step l.world t) → is_close s ≡ false → Lives l (record l { world = t })
  close_called :
      l.stage ≡ serving
      → Lives l
          (record l { world = record l.world { buffer = close l.world.buffer }; stage = waiting })
  close_returned :
      l.stage ≡ waiting
      → wait_over l.world.runner l.world.stopped_workers ≡ true
      → Lives l (record l { stage = returned })
  close_expired : l.stage ≡ waiting → Lives l (record l { stage = cut_off })
  disconnected :
      (l.stage ≡ returned) ⊎ (l.stage ≡ cut_off) → Lives l (record l { connected = false })

pub data Lived (l : Life) : Life → Type 0 where
  born : Lived l l
  then' : {k j : Life} → Lived l k → Lives k j → Lived l j
