-- ===== src/Buffer/Steps/Work.antt =====
-- A measure of the work that is left, which every step of `runFlush` and the workers lowers
-- (internal/buffer/buffer.go).
use chronometrics.Common.{
  ℕ, ◌+◌, ◌*◌, ◌<◌, ◌≡◌, ◌⊎◌, inl, inr, ap, Bool, true, false, some, List, [], ◌∷◌, ◌++◌, arith,
  length, length-append,
}
use chronometrics.Domain.Event.{Event}
use chronometrics.Buffer.{
  Buffer, resume, drain, Runner, collecting, sending, draining, receive, tick, notice_done, send,
  drain_step, dispatch, drained, take_batch, finish_write, stop_worker, receive_from, tick_at,
  send_at,
}
use chronometrics.Buffer.Steps.{
  World, Step, admit, received, ticked, noticed, sent, drained_one, took, wrote, gave_up, stopped,
  closed,
}

-- The steps that `runFlush` has still to do, apart from what stands in the channel.
abbrev pub runner_work : Runner → ℕ
runner_work (collecting []) = 2
runner_work (collecting (e ∷ es)) = 6
runner_work (sending out resume) = 5
runner_work (sending out drain) = 4
runner_work (draining []) = 1
runner_work (draining (e ∷ es)) = 5
runner_work _ = 0

-- A bound on the steps that are left: five for an event in the channel, two for a batch queued or
-- being written, one for an idle worker.
abbrev pub work_left : Buffer → ℕ
work_left b =
    5 * length b.ch
    + runner_work b.runner
    + 2 * length b.flush_trigger
    + 2 * length b.in_flight
    + b.idle_workers

receive_from-falls :
    (b t : Buffer) (r : Runner) (c : List Event)
    → receive_from b r c ≡ some t
    → work_left t < work_left (record b { runner = r; ch = c })
unfolding dispatch
receive_from-falls b t (collecting []) (e ∷ rest) q = ground arith
receive_from-falls b t (collecting (x ∷ xs)) (e ∷ rest) q = ground arith
receive_from-falls b t _ c q = cc

pub receive-falls : (b t : Buffer) → receive b ≡ some t → work_left t < work_left b
unfolding receive
receive-falls b t q = receive_from-falls b t b.runner b.ch q

-- A tick with an empty batch changes nothing.
tick_at-falls :
    (b t : Buffer) (r : Runner)
    → tick_at b r ≡ some t
    → (t ≡ record b { runner = r }) ⊎ (work_left t < work_left (record b { runner = r }))
unfolding dispatch
tick_at-falls b t (collecting []) q = inl (ground arith)
tick_at-falls b t (collecting (x ∷ xs)) q = inr (ground arith)
tick_at-falls b t _ q = cc

pub tick-falls : (b t : Buffer) → tick b ≡ some t → (t ≡ b) ⊎ (work_left t < work_left b)
unfolding tick
tick-falls b t q = tick_at-falls b t b.runner q

pub notice_done-falls : (b t : Buffer) → notice_done b ≡ some t → work_left t < work_left b
unfolding notice_done dispatch
notice_done-falls b t q = ground arith

send_at-falls :
    (b t : Buffer) (r : Runner)
    → send_at b r ≡ some t
    → work_left t < work_left (record b { runner = r })
send_at-falls b t (sending out resume) q = ground (arith, length-append b.flush_trigger (out ∷ []))
send_at-falls b t (sending out drain) q = ground (arith, length-append b.flush_trigger (out ∷ []))
send_at-falls b t _ q = cc

pub send-falls : (b t : Buffer) → send b ≡ some t → work_left t < work_left b
unfolding send
send-falls b t q = send_at-falls b t b.runner q

pub drain_step-falls : (b t : Buffer) → drain_step b ≡ some t → work_left t < work_left b
unfolding drain_step drained
drain_step-falls b t q = ground arith

pub take_batch-falls : (b t : Buffer) → take_batch b ≡ some t → work_left t < work_left b
unfolding take_batch
take_batch-falls b t q = ground arith

pub stop_worker-falls : (b t : Buffer) → stop_worker b ≡ some t → work_left t < work_left b
unfolding stop_worker
stop_worker-falls b t q = ground arith

pub finish_write-falls :
    (b : Buffer) (before behind : List (List Event)) (batch : List Event)
    → b.in_flight ≡ before ++ batch ∷ behind
    → work_left (finish_write before behind b) < work_left b
unfolding finish_write
finish_write-falls b before behind batch q =
    omega (arith, ap length q, length-append before (batch ∷ behind), length-append before behind)

-- `Publish` and `Close` come from outside.
abbrev pub is_external : {w t : World} → Step w t → Bool
is_external (admit w ev b q) = true
is_external (closed w) = true
is_external _ = false

-- Every step of `runFlush` or of a worker lowers the work that is left, but for a tick that finds
-- an empty batch, which changes nothing: without `Publish` and `Close`, and apart from such ticks,
-- no run goes on for ever.
pub work_falls :
    {w t : World} (s : Step w t)
    → is_external s ≡ false
    → (t ≡ w) ⊎ (work_left t.buffer < work_left w.buffer)
work_falls (admit w ev b q) h = cc
work_falls (closed w) h = cc
work_falls (received w b q) h = inr (receive-falls w.buffer b q)
work_falls (ticked w b q) h = elim (tick-falls w.buffer b q) [
  | inl e ↦ inl (ap (λ x. record w { buffer = x }) e)
  | inr f ↦ inr f
]
work_falls (noticed w b q) h = inr (notice_done-falls w.buffer b q)
work_falls (sent w b q) h = inr (send-falls w.buffer b q)
work_falls (drained_one w b q) h = inr (drain_step-falls w.buffer b q)
work_falls (took w b batch rest f q) h = inr (take_batch-falls w.buffer b q)
work_falls (wrote w before behind batch q) h =
    inr (finish_write-falls w.buffer before behind batch q)
work_falls (gave_up w before behind batch q) h =
    inr (finish_write-falls w.buffer before behind batch q)
work_falls (stopped w b q) h = inr (stop_worker-falls w.buffer b q)
