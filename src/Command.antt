-- ===== src/Command.antt =====
-- cmd/ingestor/main.go: `main`, up to where it returns. The signals end the context that `Run` waits
-- for; logging is left out.
use chronometrics.Common.{◌≡◌, ◌≢◌, subst, ◌⊎◌, Bool, false, Option, none, Text}
use chronometrics.Common.Int.{ℤ}
use chronometrics.Errors.{Error}
use chronometrics.Domain.Json.{Platform, ok, err}
use chronometrics.App.{App, Outside, opened, build}
use chronometrics.App.Built.{Built, build_closes}
use chronometrics.App.Lifecycle.{Life, life_of, returned, cut_off, Lived}
use chronometrics.App.Lifecycle.Quiet.{IsQuiet, disconnected-IsQuiet}

-- `main` returns after a failed setup, or after `Run`, which ends with the database closed.
pub data Exit : Type 0 where
  setup_failed : Error → Exit
  ran : Life → Exit

module _ (p : Platform) (parse_duration : Text → Option ℤ) (is_not_exist : Error → Bool)
    (o : Outside) where
  pub data Main : Exit → Type 0 where
    fails :
        (e : Error) → (build p parse_duration is_not_exist o).result ≡ err e → Main (setup_failed e)
    runs :
        (app : App) (l : Life)
        → (build p parse_duration is_not_exist o).result ≡ ok app
        → Lived (life_of app) l
        → l.connected ≡ false
        → Main (ran l)

  -- What is left behind.
  abbrev pub Leaves : Exit → Type 0
  Leaves (setup_failed e) =
      ((build p parse_duration is_not_exist o).connection ≢ opened)
      × ((build p parse_duration is_not_exist o).started ≡ none)
  Leaves (ran l) =
      (l.connected ≡ false) × ((l.stage ≡ cut_off) ⊎ ((l.stage ≡ returned) × IsQuiet l.world))

  -- However `main` ends, no connection to the database is left open; after a failed setup no buffer
  -- was started; and after `Run`, the goroutines of the buffer have ended and every batch sent was
  -- written or given up on, unless `Close` of the buffer was cut off by its deadline.
  pub main-Leaves : (x : Exit) → Main x → Leaves x
  main-Leaves _ (fails e h) =
      subst (λ r. Built p parse_duration is_not_exist o r (build p parse_duration is_not_exist o)) h
        (build_closes p parse_duration is_not_exist o)
  main-Leaves _ (runs app l h r gone) =
      (gone, disconnected-IsQuiet p parse_duration is_not_exist o app l h r gone)
