-- ===== src/App/Writes/Graceful.antt =====
-- A shutdown in which `http.Server.Shutdown` returns no error before `Close` of the buffer is called:
-- as its documentation says, no handler runs any more (internal/app/app.go).
use mathlib.Core.List.{Perm, append-nil}
use chronometrics.Common.{
  ◌≡◌, ◌≢◌, refl, sym, ap, ◌∙◌, subst, Bool, true, false, List, [], ◌∷◌, ◌++◌, arith, length,
  length-append, flatten, flatten-perm, map,
}
use chronometrics.Config.Types.{BufferConfig}
use chronometrics.Buffer.{exited, new, start, wait_over}
use chronometrics.Buffer.Steps.{
  World, initial, Step, admit, received, ticked, noticed, sent, drained_one, took, wrote, gave_up,
  stopped, closed, Reach, here, more, join,
}
use chronometrics.Buffer.Steps.History.{run-IsOrdered}
use chronometrics.Buffer.Steps.Later.{before_late}
use chronometrics.Repository.Insert.{row}
use chronometrics.App.Writes.{Obeys, database}
use chronometrics.App.Writes.Stored.{rows_of}
use chronometrics.App.Writes.Outcomes.{Recovers}
use chronometrics.App.Writes.Shutdown.{shutdown_stores}

-- No step is that of a handler.
abbrev pub is_admit : {w t : World} → Step w t → Bool
is_admit (admit w ev b q) = true
is_admit _ = false

abbrev pub NoHandlers : {w t : World} → Reach w t → Type 0
NoHandlers here = Unit
NoHandlers (more r s) = NoHandlers r × (is_admit s ≡ false)

Step-accepted : {w t : World} (s : Step w t) → is_admit s ≡ false → t.accepted ≡ w.accepted
Step-accepted (admit w ev b q) h = absurd (ground arith)
Step-accepted (received w b q) h = refl
Step-accepted (ticked w b q) h = refl
Step-accepted (noticed w b q) h = refl
Step-accepted (sent w b q) h = refl
Step-accepted (drained_one w b q) h = refl
Step-accepted (took w b batch rest f q) h = refl
Step-accepted (wrote w before behind batch q) h = refl
Step-accepted (gave_up w before behind batch q) h = refl
Step-accepted (stopped w b q) h = refl
Step-accepted (closed w) h = refl

NoHandlers-accepted : {w t : World} (r : Reach w t) → NoHandlers r → t.accepted ≡ w.accepted
NoHandlers-accepted here n = refl
NoHandlers-accepted (more r s) (n, h) = Step-accepted s h ∙ NoHandlers-accepted r n

-- Where a list begins with the whole, nothing else is in it.
whole : {A : Type 0} (us vs late : List A) → (us ++ vs) ++ late ≡ us → (vs ≡ []) × (late ≡ [])
whole us [] [] e = (refl, refl)
whole us [] (x ∷ late) e =
    absurd (omega (arith, ap length e, length-append (us ++ []) (x ∷ late), length-append us []))
whole us (v ∷ vs) late e =
    absurd
      (omega (arith, ap length e, length-append (us ++ v ∷ vs) late, length-append us (v ∷ vs)))

-- From `Build` on, the workers write through `flushWithRetry` and `Flush`, and each write meets a
-- database with which, for any batch, one of the attempts is a success. From a state in which
-- `runFlush` has not ended, no handler runs any more. Then, once `Close` returns without an error
-- after waiting, no event is lost or doubled: the rows that the databases have acknowledged, over all
-- attempts of all writes, are up to their order the rows of all events that were ever accepted, one
-- for each, and none of these was accepted after `runFlush` had returned.
pub graceful_shutdown :
    (cfg : BufferConfig) (w t : World) (r₀ : Reach (initial (start cfg true (new cfg))) w)
    (r : Reach w t) (o : Obeys cfg (Recovers cfg) (join r₀ r))
    → w.runner ≢ exited
    → NoHandlers r
    → t.runner ≡ exited
    → wait_over t.runner t.stopped_workers ≡ true
    → Perm (flatten (database cfg (Recovers cfg) (join r₀ r) o)) (map row t.accepted)
      × (t.late ≡ [])
graceful_shutdown cfg w t r₀ r o live n e over =
    let (kept, moved, stored, order) = shutdown_stores cfg t (join r₀ r) o e over in
    let (others, begins) =
      before_late w t (flatten t.dispatched) (run-IsOrdered cfg true w r₀) live r order in
    let all : (w.accepted ++ others) ++ t.late ≡ w.accepted =
      ap (λ l. l ++ t.late) (sym begins) ∙ order ∙ NoHandlers-accepted r n in
    let (none_else, none_late) = whole w.accepted others t.late all in
    let sent_all : flatten t.dispatched ≡ t.accepted =
      sym (append-nil (flatten t.dispatched))
      ∙ ap (◌++◌ (flatten t.dispatched)) (sym none_late)
      ∙ order in
    (
      rows_of t.flushed t.accepted (database cfg (Recovers cfg) (join r₀ r) o)
          (subst (Perm (flatten t.flushed)) sent_all (flatten-perm moved)) stored,
      none_late,
    )
