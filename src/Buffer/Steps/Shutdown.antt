-- ===== src/Buffer/Steps/Shutdown.antt =====
-- The state in which `Close` has waited for the goroutines, and what comes after `runFlush` has
-- returned (internal/buffer/buffer.go).
use mathlib.Core.List.{append-nil, Perm}
use chronometrics.Common.{
  ◌≤◌, ◌<◌, ◌≡◌, refl, sym, ap, ◌∙◌, subst, true, false, none, some, List, [], ◌∷◌, ◌++◌, arith,
  ltb, length, flatten,
}
use chronometrics.Domain.Event.{Event}
use chronometrics.Config.Types.{BufferConfig}
use chronometrics.Buffer.{
  Buffer, exited, new, start, publish, take_batch, finish_write, stop_worker, close, wait_over,
}
use chronometrics.Buffer.Steps.{
  World, initial, note_late, Step, admit, received, ticked, noticed, sent, drained_one, took, wrote,
  gave_up, stopped, closed, Reach, here, more,
}
use chronometrics.Buffer.Steps.Bounds.{run-IsBounded}
use chronometrics.Buffer.Steps.Order.{held, LateIs}
use chronometrics.Buffer.Steps.History.{run-IsOrdered}
use chronometrics.Buffer.Steps.Ended.{
  receive-keeps, tick-keeps, notice_done-keeps, send-keeps, drain_step-keeps, is_exited,
  Reach-Ended, initial-Ended,
}

length-zero : {A : Type 0} (xs : List A) → length xs ≡ 0 → xs ≡ []
length-zero [] h = refl
length-zero (x ∷ xs) h = absurd (omega arith)

-- Where `Close` returns without an error after waiting, on a buffer that was started: the channel
-- holds exactly the events accepted after `runFlush` had returned, every other accepted event is
-- in one of the batches sent, in order, and every batch sent was written or given up on.
pub close_accounts :
    (cfg : BufferConfig) (t : World)
    → Reach (initial (start cfg true (new cfg))) t
    → t.runner ≡ exited
    → wait_over t.runner t.stopped_workers ≡ true
    → (flatten t.dispatched ++ t.late ≡ t.accepted)
      × (t.ch ≡ t.late)
      × (t.flush_trigger ≡ [])
      × (t.in_flight ≡ [])
      × Perm (t.flushed ++ t.dropped) t.dispatched
unfolding initial
close_accounts cfg t r e o =
    let ordered = run-IsOrdered cfg true t r in
    let bounded = run-IsBounded cfg true t r in
    let over : 4 ≤ t.stopped_workers = ground arith in
    let none_busy : t.in_flight ≡ [] =
      length-zero t.in_flight (ground (arith, bounded.workers, over)) in
    let late : t.ch ≡ t.late = subst (λ x. LateIs x t.ch t.late) e ordered.tail in
    let queue : t.flush_trigger ≡ [] =
      (Reach-Ended (initial-Ended cfg true) r (omega (arith, over))).1 in
    let nothing : held t.runner ≡ [] = ap held e in
    let all_taken : t.taken ≡ t.dispatched =
      sym (append-nil t.taken) ∙ (rw queue at ordered.queue) in
    (
      (rw (nothing, late) at ordered.order),
      late,
      queue,
      none_busy,
      subst (Perm (t.flushed ++ t.dropped)) all_taken (rw none_busy at ordered.ledger),
    )

take_batch-runner : (b t : Buffer) → take_batch b ≡ some t → t.runner ≡ b.runner
unfolding take_batch
take_batch-runner b t q = ground arith

stop_worker-runner : (b t : Buffer) → stop_worker b ≡ some t → t.runner ≡ b.runner
unfolding stop_worker
stop_worker-runner b t q = ground arith

abbrev KeepsSent : World → World → Type 0
KeepsSent w t = (is_exited t.runner ≡ true) × (t.dispatched ≡ w.dispatched)

-- Once `runFlush` has returned, it stays so, and no batch is sent any more.
Step-after_exit : {w t : World} → Step w t → is_exited w.runner ≡ true → KeepsSent w t
unfolding finish_write close publish
Step-after_exit (admit w ev b q) h = ground arith
Step-after_exit (received w b q) h = absurd (ground (arith, receive-keeps w.buffer b q))
Step-after_exit (ticked w b q) h = absurd (ground (arith, tick-keeps w.buffer b q))
Step-after_exit (noticed w b q) h = absurd (ground (arith, notice_done-keeps w.buffer b q))
Step-after_exit (sent w b q) h = absurd (ground (arith, send-keeps w.buffer b q))
Step-after_exit (drained_one w b q) h = absurd (ground (arith, drain_step-keeps w.buffer b q))
Step-after_exit (took w b batch rest f q) h =
    (ap is_exited (take_batch-runner w.buffer b q) ∙ h, refl)
Step-after_exit (wrote w before behind batch q) h = (h, refl)
Step-after_exit (gave_up w before behind batch q) h = (h, refl)
Step-after_exit (stopped w b q) h = (ap is_exited (stop_worker-runner w.buffer b q) ∙ h, refl)
Step-after_exit (closed w) h = (h, refl)

Reach-after_exit : {w t : World} → is_exited w.runner ≡ true → Reach w t → KeepsSent w t
Reach-after_exit h here = (h, refl)
Reach-after_exit h (more r s) =
    let (still, same) = Reach-after_exit h r in
    let (still', same') = Step-after_exit s still in (still', same' ∙ same)

-- The world after a `Publish` on a live context.
abbrev pub published : World → Event → World
published w ev = record w {
  buffer = (publish false ev w.buffer).0;
  accepted = w.accepted ++ ev ∷ [];
  late = note_late w.runner ev w.late;
}

-- `Publish` does not look at `done`: once `runFlush` has returned, an event that finds room in the
-- channel is accepted with no error, and in every state reached afterwards the batches sent are
-- those that were sent before.
pub publish_after_exit :
    (w t : World) (ev : Event)
    → w.runner ≡ exited
    → length w.ch < w.capacity
    → Reach (published w ev) t
    → ((publish false ev w.buffer).1 ≡ none)
      × ((published w ev).ch ≡ w.ch ++ ev ∷ [])
      × (t.dispatched ≡ w.dispatched)
unfolding publish
publish_after_exit w t ev e room r =
    let fits : ltb (length w.ch) w.capacity ≡ true = ground arith in
    (rw fits, rw fits, (Reach-after_exit {w = published w ev} (rw fits (ap is_exited e)) r).1)
