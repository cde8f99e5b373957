-- ===== src/Buffer/Steps/Ended.antt =====
-- A worker ends only after `runFlush` has returned (internal/buffer/buffer.go).
use chronometrics.Common.{
  ◌<◌, ◌≡◌, ◌≢◌, ap, subst, inl, inr, Bool, true, false, none, some, [], arith, ltb, Bool-cases,
  length,
}
use chronometrics.Domain.Event.{Event}
use chronometrics.Config.Types.{BufferConfig}
use chronometrics.Buffer.{
  Buffer, Runner, exited, new, start, publish, receive, tick, notice_done, send, drain_step,
  take_batch, finish_write, stop_worker, close,
}
use chronometrics.Buffer.Steps.{
  World, Step, admit, received, ticked, noticed, sent, drained_one, took, wrote, gave_up, stopped,
  closed, Reach, here, more,
}

abbrev pub is_exited : Runner → Bool
is_exited exited = true
is_exited _ = false

-- A worker ends only when `flushTrigger` is closed and empty, and it stays so.
abbrev pub Ended : Buffer → Type 0
Ended b = 0 < b.stopped_workers → (is_exited b.runner ≡ true) × (b.flush_trigger ≡ [])

-- What the steps of `runFlush` leave alone; they do not happen once it has returned.
abbrev pub KeepsWorkers : Buffer → Buffer → Type 0
KeepsWorkers b t = (is_exited b.runner ≡ false) × (t.stopped_workers ≡ b.stopped_workers)

pub receive-keeps : (b t : Buffer) → receive b ≡ some t → KeepsWorkers b t
unfolding receive
receive-keeps b t q = ground arith

pub tick-keeps : (b t : Buffer) → tick b ≡ some t → KeepsWorkers b t
unfolding tick
tick-keeps b t q = ground arith

pub notice_done-keeps : (b t : Buffer) → notice_done b ≡ some t → KeepsWorkers b t
unfolding notice_done
notice_done-keeps b t q = ground arith

pub send-keeps : (b t : Buffer) → send b ≡ some t → KeepsWorkers b t
unfolding send
send-keeps b t q = ground arith

pub drain_step-keeps : (b t : Buffer) → drain_step b ≡ some t → KeepsWorkers b t
unfolding drain_step
drain_step-keeps b t q = ground arith

keeps-Ended : (b t : Buffer) → KeepsWorkers b t → Ended b → Ended t
keeps-Ended b t k h s = absurd (ground (arith, h (omega (arith, k.1))))

publish-Ended : (ev : Event) (b t : Buffer) → publish false ev b ≡ (t, none) → Ended b → Ended t
unfolding publish
publish-Ended ev b t q h s = elim (Bool-cases (ltb (length b.ch) b.capacity)) [
  | inl room ↦ subst Ended (ap (λ r. r.0) (rw room at q)) h s
  | inr full ↦ absurd (ground arith)
]

pub take_batch-needs :
    (b t : Buffer)
    → take_batch b ≡ some t
    → (t.stopped_workers ≡ b.stopped_workers) × (b.flush_trigger ≢ [])
unfolding take_batch
take_batch-needs b t q = ground arith

take_batch-Ended : (b t : Buffer) → take_batch b ≡ some t → Ended b → Ended t
take_batch-Ended b t q h s =
    let (same, busy) = take_batch-needs b t q in absurd (busy (h (omega (arith, same))).1)

stop_worker-Ended : (b t : Buffer) → stop_worker b ≡ some t → Ended t
unfolding stop_worker
stop_worker-Ended b t q s = ground arith

pub Step-Ended : {w t : World} → Step w t → Ended w.buffer → Ended t.buffer
unfolding finish_write close
Step-Ended (admit w ev b q) h = publish-Ended ev w.buffer b q h
Step-Ended (received w b q) h = keeps-Ended w.buffer b (receive-keeps w.buffer b q) h
Step-Ended (ticked w b q) h = keeps-Ended w.buffer b (tick-keeps w.buffer b q) h
Step-Ended (noticed w b q) h = keeps-Ended w.buffer b (notice_done-keeps w.buffer b q) h
Step-Ended (sent w b q) h = keeps-Ended w.buffer b (send-keeps w.buffer b q) h
Step-Ended (drained_one w b q) h = keeps-Ended w.buffer b (drain_step-keeps w.buffer b q) h
Step-Ended (took w b batch rest f q) h = take_batch-Ended w.buffer b q h
Step-Ended (wrote w before behind batch q) h = h
Step-Ended (gave_up w before behind batch q) h = h
Step-Ended (stopped w b q) h = stop_worker-Ended w.buffer b q
Step-Ended (closed w) h = h

pub Reach-Ended : {w t : World} → Ended w.buffer → Reach w t → Ended t.buffer
Reach-Ended h here = h
Reach-Ended h (more r s) = Step-Ended s (Reach-Ended h r)

pub initial-Ended : (cfg : BufferConfig) (given : Bool) → Ended (start cfg given (new cfg))
unfolding start new
initial-Ended cfg false s = absurd (omega arith)
initial-Ended cfg true s = absurd (omega arith)
