-- ===== src/App/Lifecycle/Quiet.antt =====
-- The database is closed last (internal/app/app.go).
use mathlib.Core.List.{Perm}
use chronometrics.Common.{
  ℕ, ◌≤◌, ◌≡◌, refl, sym, ◌∙◌, ap, subst, ◌⊎◌, inl, inr, Bool, true, false, Option, none, some, [],
  ◌++◌, arith, Text,
}
use chronometrics.Common.Int.{ℤ}
use chronometrics.Errors.{Error}
use chronometrics.Domain.Json.{Platform, ok}
use chronometrics.Domain.Event.{Event}
use chronometrics.Config.Types.{BufferConfig}
use chronometrics.Buffer.{
  Buffer, Runner, exited, not_started, new, start, dispatch, drained, receive, tick, notice_done,
  send, drain_step, take_batch, publish, stop_worker, finish_write, close, wait_over,
}
use chronometrics.Buffer.Steps.{
  World, initial, Step, admit, received, ticked, noticed, sent, drained_one, took, wrote, gave_up,
  stopped, closed, Reach, here, more,
}
use chronometrics.Buffer.Steps.Bounds.{run-IsBounded}
use chronometrics.Buffer.Steps.Ended.{
  is_exited, Reach-Ended, initial-Ended, receive-keeps, tick-keeps, notice_done-keeps, send-keeps,
  drain_step-keeps, take_batch-needs,
}
use chronometrics.Buffer.Steps.Shutdown.{close_accounts}
use chronometrics.App.{App, Outside, build}
use chronometrics.App.Built.{Built, build_closes}
use chronometrics.App.Lifecycle.{
  serving, returned, cut_off, Life, life_of, Lives, goroutine, close_called, close_returned,
  close_expired, disconnected, Lived, born, then',
}

publish-stopped :
    (ev : Event) (b t : Buffer) (e : Option Error)
    → publish false ev b ≡ (t, e)
    → t.stopped_workers ≡ b.stopped_workers
unfolding publish
publish-stopped ev b t e q = ground arith

stop_worker-stopped :
    (b t : Buffer) → stop_worker b ≡ some t → b.stopped_workers ≤ t.stopped_workers
unfolding stop_worker
stop_worker-stopped b t q = ground arith

-- A worker that has ended does not come back.
Step-stopped : {w t : World} → Step w t → w.stopped_workers ≤ t.stopped_workers
unfolding finish_write close
Step-stopped (admit w ev b q) = omega (arith, publish-stopped ev w.buffer b none q)
Step-stopped (received w b q) = omega (arith, (receive-keeps w.buffer b q).1)
Step-stopped (ticked w b q) = omega (arith, (tick-keeps w.buffer b q).1)
Step-stopped (noticed w b q) = omega (arith, (notice_done-keeps w.buffer b q).1)
Step-stopped (sent w b q) = omega (arith, (send-keeps w.buffer b q).1)
Step-stopped (drained_one w b q) = omega (arith, (drain_step-keeps w.buffer b q).1)
Step-stopped (took w b batch rest f q) = omega (arith, (take_batch-needs w.buffer b q).0)
Step-stopped (wrote w before behind batch q) = omega arith
Step-stopped (gave_up w before behind batch q) = omega arith
Step-stopped (stopped w b q) = stop_worker-stopped w.buffer b q
Step-stopped (closed w) = omega arith

abbrev is_new : Runner → Bool
is_new not_started = true
is_new _ = false

publish-runner :
    (ev : Event) (b t : Buffer) (e : Option Error)
    → publish false ev b ≡ (t, e)
    → t.runner ≡ b.runner
unfolding publish
publish-runner ev b t e q = ground arith

receive-new : (b t : Buffer) → receive b ≡ some t → is_new t.runner ≡ false
unfolding receive dispatch
receive-new b t q = ground arith

tick-new : (b t : Buffer) → tick b ≡ some t → is_new t.runner ≡ false
unfolding tick dispatch
tick-new b t q = ground arith

notice_done-new : (b t : Buffer) → notice_done b ≡ some t → is_new t.runner ≡ false
unfolding notice_done dispatch
notice_done-new b t q = ground arith

send-new : (b t : Buffer) → send b ≡ some t → is_new t.runner ≡ false
unfolding send
send-new b t q = ground arith

drain_step-new : (b t : Buffer) → drain_step b ≡ some t → is_new t.runner ≡ false
unfolding drain_step drained
drain_step-new b t q = ground arith

take_batch-runner : (b t : Buffer) → take_batch b ≡ some t → t.runner ≡ b.runner
unfolding take_batch
take_batch-runner b t q = ground arith

stop_worker-runner : (b t : Buffer) → stop_worker b ≡ some t → t.runner ≡ b.runner
unfolding stop_worker
stop_worker-runner b t q = ground arith

Step-new : {w t : World} → Step w t → is_new w.runner ≡ false → is_new t.runner ≡ false
unfolding finish_write close
Step-new (admit w ev b q) h = ap is_new (publish-runner ev w.buffer b none q) ∙ h
Step-new (received w b q) h = receive-new w.buffer b q
Step-new (ticked w b q) h = tick-new w.buffer b q
Step-new (noticed w b q) h = notice_done-new w.buffer b q
Step-new (sent w b q) h = send-new w.buffer b q
Step-new (drained_one w b q) h = drain_step-new w.buffer b q
Step-new (took w b batch rest f q) h = ap is_new (take_batch-runner w.buffer b q) ∙ h
Step-new (wrote w before behind batch q) h = h
Step-new (gave_up w before behind batch q) h = h
Step-new (stopped w b q) h = ap is_new (stop_worker-runner w.buffer b q) ∙ h
Step-new (closed w) h = h

-- What holds of the service at every moment of its life.
record IsOrderly (cfg : BufferConfig) (l : Life) : Type 0 where
  path : Reach (initial (start cfg true (new cfg))) l.world
  started : is_new l.world.runner ≡ false
  clean : l.stage ≡ returned → 4 ≤ l.world.stopped_workers
  last : l.connected ≡ false → (l.stage ≡ returned) ⊎ (l.stage ≡ cut_off)

waited-four : (r : Runner) (n : ℕ) → is_new r ≡ false → wait_over r n ≡ true → 4 ≤ n
waited-four r n h k = ground arith

Lives-IsOrderly : (cfg : BufferConfig) {l k : Life} → Lives l k → IsOrderly cfg l → IsOrderly cfg k
unfolding close
Lives-IsOrderly cfg {l} (goroutine t s no_close) h = record {
  path = more h.path s;
  started = Step-new s h.started;
  clean = λ e. omega (arith, h.clean e, Step-stopped s);
  last = h.last;
}
Lives-IsOrderly cfg {l} (close_called e) h = record {
  path = more h.path (closed l.world);
  started = h.started;
  clean = λ f. absurd (ground (arith, f));
  last = λ f. absurd (ground (arith, h.last f, e));
}
Lives-IsOrderly cfg {l} (close_returned e over) h = record {
  path = h.path;
  started = h.started;
  clean = λ f. waited-four l.world.runner l.world.stopped_workers h.started over;
  last = λ f. inl refl;
}
Lives-IsOrderly cfg {l} (close_expired e) h = record {
  path = h.path;
  started = h.started;
  clean = λ f. absurd (ground (arith, f));
  last = λ f. inr refl;
}
Lives-IsOrderly cfg {l} (disconnected e) h = record {
  path = h.path;
  started = h.started;
  clean = h.clean;
  last = λ f. e;
}

Lived-IsOrderly : (cfg : BufferConfig) {l k : Life} → Lived l k → IsOrderly cfg l → IsOrderly cfg k
Lived-IsOrderly cfg born h = h
Lived-IsOrderly cfg (then' r s) h = Lives-IsOrderly cfg s (Lived-IsOrderly cfg r h)

exited_of : (r : Runner) → is_exited r ≡ true → r ≡ exited
exited_of r h = ground arith

-- All of the buffer's goroutines have ended, and every batch sent was written or given up on.
abbrev pub IsQuiet : World → Type 0
IsQuiet w =
    (w.runner ≡ exited)
    × (w.idle_workers ≡ 0)
    × (w.in_flight ≡ [])
    × (w.flush_trigger ≡ [])
    × Perm (w.flushed ++ w.dropped) w.dispatched

run-IsQuiet :
    (cfg : BufferConfig) (w : World)
    → Reach (initial (start cfg true (new cfg))) w
    → 4 ≤ w.stopped_workers
    → IsQuiet w
unfolding initial
run-IsQuiet cfg w r four =
    let e = exited_of w.runner (Reach-Ended (initial-Ended cfg true) r (omega (arith, four))).0 in
    let (order, tail, queue, busy, ledger) = close_accounts cfg w r e (ground (arith, e, four)) in
    let bounded = run-IsBounded cfg true w r in
    (e, ground (arith, bounded.workers, e, four), busy, queue, ledger)

start-new : (cfg : BufferConfig) → is_new (start cfg true (new cfg)).runner ≡ false
unfolding start
start-new cfg = ground arith

started_from :
    (cfg : BufferConfig) (b : Buffer)
    → b ≡ start cfg true (new cfg)
    → IsOrderly cfg (record { world = initial b; stage = serving; connected = true })
unfolding initial
started_from cfg b e = record {
  path = subst (λ x. Reach (initial (start cfg true (new cfg))) (initial x)) (sym e) here;
  started = ap (λ (x : Buffer). is_new x.runner) e ∙ start-new cfg;
  clean = λ f. absurd (ground (arith, f));
  last = λ f. absurd (ground (arith, f));
}

-- In the life of an application that `build` returned, with publishers, the buffer's goroutines and
-- `shutdown` in any interleaving: once the connection to the database is closed, either `Close` of
-- the buffer had returned the error of its context, or it had returned nil, and then `runFlush` and
-- the workers have all ended, no batch is queued or being written, and every batch sent was written
-- or given up on.
pub disconnected-IsQuiet :
    (p : Platform) (parse_duration : Text → Option ℤ) (is_not_exist : Error → Bool) (o : Outside)
    (app : App) (l : Life)
    → (build p parse_duration is_not_exist o).result ≡ ok app
    → Lived (life_of app) l
    → l.connected ≡ false
    → (l.stage ≡ cut_off) ⊎ ((l.stage ≡ returned) × IsQuiet l.world)
unfolding life_of
disconnected-IsQuiet p parse_duration is_not_exist o app l h r gone =
    let report = build p parse_duration is_not_exist o in
    let built : Built p parse_duration is_not_exist o (ok app) report =
      subst (λ x. Built p parse_duration is_not_exist o x report) h
        (build_closes p parse_duration is_not_exist o) in
    let orderly =
      Lived-IsOrderly app.cfg.buffer r (started_from app.cfg.buffer app.buffer built.1) in
    elim (orderly.last gone) [
      | inr cut ↦ inl cut
      | inl clean ↦
          inr (clean, run-IsQuiet app.cfg.buffer l.world orderly.path (orderly.clean clean))
    ]
