-- ===== src/Buffer/Outbox/Stutters.antt =====
-- The steps of the buffer that its clients do not see (internal/buffer/buffer.go).
use mathlib.Core.List.{append_assoc}
use chronometrics.Common.{◌≡◌, Bool, true, some, List, [], ◌∷◌, ◌++◌, arith}
use chronometrics.Domain.Event.{Event}
use chronometrics.Buffer.{
  resume, drain, Buffer, Runner, collecting, draining, receive_from, tick_at, notice_done_at,
  drain_step_at,
}
use chronometrics.Buffer.Steps.Order.{held, held-dispatch, held-drained}
use chronometrics.Buffer.Outbox.{Past, outbox_of}

-- A step that leaves the waiting events and the batches alone.
pub record Stutters (b t : Buffer) : Type 0 where
  pub waiting : held t.runner ++ t.ch ≡ held b.runner ++ b.ch
  pub queue : t.flush_trigger ≡ b.flush_trigger
  pub writing : t.in_flight ≡ b.in_flight
  pub capacity : t.capacity ≡ b.capacity
  pub batch_size : t.batch_size ≡ b.batch_size

pub receive_from-Stutters :
    (b t : Buffer) (r : Runner) (c : List Event)
    → receive_from b r c ≡ some t
    → Stutters (record b { runner = r; ch = c }) t
receive_from-Stutters b t (collecting batch) (e ∷ rest) q =
    ground (arith, held-dispatch (batch ++ e ∷ []) resume, append_assoc batch (e ∷ []) rest)
receive_from-Stutters b t _ c q = cc

pub tick_at-Stutters :
    (b t : Buffer) (r : Runner) → tick_at b r ≡ some t → Stutters (record b { runner = r }) t
tick_at-Stutters b t (collecting batch) q = ground (arith, held-dispatch batch resume)
tick_at-Stutters b t _ q = cc

pub notice_done_at-Stutters :
    (b t : Buffer) (r : Runner) (d : Bool)
    → notice_done_at b r d ≡ some t
    → Stutters (record b { runner = r }) t
notice_done_at-Stutters b t (collecting batch) true q = ground (arith, held-dispatch batch drain)
notice_done_at-Stutters b t _ _ q = cc

pub drain_step_at-Stutters :
    (b t : Buffer) (r : Runner) (c : List Event)
    → drain_step_at b r c ≡ some t
    → Stutters (record b { runner = r; ch = c }) t
drain_step_at-Stutters b t (draining batch) [] q = ground (arith, held-drained batch)
drain_step_at-Stutters b t (draining batch) (e ∷ rest) q =
    ground (arith, held-drained batch, append_assoc batch (e ∷ []) rest)
drain_step_at-Stutters b t _ c q = cc

pub Stutters-outbox :
    (past : Past) (b t : Buffer) → Stutters b t → outbox_of past t ≡ outbox_of past b
Stutters-outbox past b t h = ground (arith, h.waiting, h.queue, h.writing)
