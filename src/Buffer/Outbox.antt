-- ===== src/Buffer/Outbox.antt =====
-- What internal/buffer/buffer.go promises to its clients, without goroutines: an outbox, in which
-- accepted events wait in order, are cut off at the front as batches, and each batch is settled
-- once, in any order. The outbox keeps the record of what it did.
pub mod Stutters
pub mod Refines
use mathlib.Core.List.{Perm}
use mathlib.Core.List.Perm
use mathlib.Core.Quot
use mathlib.Core.Quot.{Quot, Quot-set}
use chronometrics.Common.{ℕ, ◌+◌, ◌≤◌, ◌<◌, ◌≡◌, List, [], ◌∷◌, ◌++◌, length}
use chronometrics.Domain.Event.{Event}
use chronometrics.Buffer.{Buffer}
use chronometrics.Buffer.Steps.{World}
use chronometrics.Buffer.Steps.Order.{held}

-- Batches in no order.
abbrev pub Batches : Type 0
Batches = Quot (Perm {A = List Event})

abbrev pub batches : List (List Event) → Batches
batches = Quot.mk

unfoldable pub put : List Event → Batches → Batches
put batch = Quot.lift Quot-set (λ l. batches (batch ∷ l)) (λ k l p. Quot.sound (Perm.cons batch p))

-- The events accepted, in order; the batches cut off, in order; and those delivered and given up, in
-- the order of the ends of their writes.
pub record Past : Type 0 where
  pub accepted : List Event
  pub cut_off : List (List Event)
  pub delivered : List (List Event)
  pub given_up : List (List Event)

pub record Outbox : Type 0 where
  pub waiting : List Event
  pub pending : Batches
  pub past : Past

abbrev pub empty : Outbox
empty = record {
  waiting = [];
  pending = batches [];
  past = record { accepted = []; cut_off = []; delivered = []; given_up = [] };
}

-- What a step adds to the record.
abbrev pub with_accepted : Event → Past → Past
with_accepted ev p = record p { accepted = p.accepted ++ ev ∷ [] }

abbrev pub with_cut : List Event → Past → Past
with_cut batch p = record p { cut_off = p.cut_off ++ batch ∷ [] }

abbrev pub with_delivered : List Event → Past → Past
with_delivered batch p = record p { delivered = p.delivered ++ batch ∷ [] }

abbrev pub with_given_up : List Event → Past → Past
with_given_up batch p = record p { given_up = p.given_up ++ batch ∷ [] }

-- At most `room` events wait, and a batch has at most `n` of them.
pub data Promise (room n : ℕ) (o : Outbox) : Outbox → Type 0 where
  accept :
      (ev : Event)
      → length o.waiting < room
      → Promise room n o
          (record o { waiting = o.waiting ++ ev ∷ []; past = with_accepted ev o.past })
  cut :
      (batch rest : List Event)
      → o.waiting ≡ batch ++ rest
      → 0 < length batch
      → length batch ≤ n
      → Promise room n o
          (record { waiting = rest; pending = put batch o.pending; past = with_cut batch o.past })
  deliver :
      (batch : List Event) (others : Batches)
      → o.pending ≡ put batch others
      → Promise room n o (record o { pending = others; past = with_delivered batch o.past })
  give_up :
      (batch : List Event) (others : Batches)
      → o.pending ≡ put batch others
      → Promise room n o (record o { pending = others; past = with_given_up batch o.past })

pub data Promises (room n : ℕ) (o : Outbox) : Outbox → Type 0 where
  start : Promises room n o o
  next : {p q : Outbox} → Promises room n o p → Promise room n p q → Promises room n o q

-- The outbox that a buffer stands for, after some past.
abbrev pub outbox_of : Past → Buffer → Outbox
outbox_of past b = record {
  waiting = held b.runner ++ b.ch;
  pending = batches (b.in_flight ++ b.flush_trigger);
  past = past;
}

-- What has passed through the buffer.
abbrev pub past_of : World → Past
past_of w = record {
  accepted = w.accepted;
  cut_off = w.dispatched;
  delivered = w.flushed;
  given_up = w.dropped;
}

abbrev pub outbox : World → Outbox
outbox w = outbox_of (past_of w) w.buffer
