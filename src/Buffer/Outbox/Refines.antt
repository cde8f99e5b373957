-- ===== src/Buffer/Outbox/Refines.antt =====
-- The buffer keeps the promise of an outbox (internal/buffer/buffer.go).
use mathlib.Core.List.{append_assoc, perm_middle, perm_append_singleton}
use mathlib.Core.Option.{some_inj}
use mathlib.Core.Quot
use chronometrics.Common.{
  ℕ, suc, ◌+◌, ◌≤◌, ◌<◌, ◌≡◌, refl, sym, ap, ◌∙◌, subst, ◌⊎◌, inl, inr, Bool, true, false, none,
  some, List, [], ◌∷◌, ◌++◌, arith, ltb, Bool-cases, length, length-append,
}
use chronometrics.Domain.Event.{Event}
use chronometrics.Config.Types.{BufferConfig}
use chronometrics.Buffer.{
  positive_or, Next, Buffer, Runner, collecting, sending, draining, new, start, publish, receive,
  tick, notice_done, send_at, send, drain_step, take_batch_at, take_batch, finish_write,
  stop_worker, close, after, ticker_interval,
}
use chronometrics.Buffer.Steps.{
  sent_by, World, initial, Step, admit, received, ticked, noticed, sent, drained_one, took, wrote,
  gave_up, stopped, closed, Reach, here, more,
}
use chronometrics.Buffer.Steps.Order.{held}
use chronometrics.Buffer.Steps.History.{held-after}
use chronometrics.Buffer.Steps.Sizes.{IsBounded, HoldsBatch}
use chronometrics.Buffer.Steps.Bounds.{Reach-IsBounded, start-new-IsBounded}
use chronometrics.Buffer.Outbox.{
  batches, put, Past, Outbox, empty, with_accepted, with_cut, Promise, accept, cut, deliver,
  give_up, Promises, next, outbox_of, past_of, outbox,
}
use chronometrics.Common.Int.{leb_ℤ, pos}
use chronometrics.Buffer.Outbox.Stutters.{
  Stutters, receive_from-Stutters, tick_at-Stutters, notice_done_at-Stutters,
  drain_step_at-Stutters, Stutters-outbox,
}

-- A step from one buffer to another, which stand for two outboxes, is no step of the outbox, or one
-- that it promises.
record Refined (b t : Buffer) (o p : Outbox) : Type 0 where
  moves : (p ≡ o) ⊎ Promise (b.capacity + b.batch_size) b.batch_size o p
  capacity : t.capacity ≡ b.capacity
  batch_size : t.batch_size ≡ b.batch_size

Stutters-Refined :
    (past : Past) (b t : Buffer) → Stutters b t → Refined b t (outbox_of past b) (outbox_of past t)
Stutters-Refined past b t h = record {
  moves = inl (Stutters-outbox past b t h);
  capacity = h.capacity;
  batch_size = h.batch_size;
}

held-short : (n : ℕ) (r : Runner) → 0 < n → HoldsBatch n r → length (held r) ≤ n
held-short n (collecting batch) s h = omega (arith, h)
held-short n (sending out to) s h = h.1
held-short n (draining batch) s h = h
held-short n _ s h = omega arith

-- `Publish` accepts an event into the outbox.
publish-Refined :
    (past : Past) (ev : Event) (b t : Buffer)
    → publish false ev b ≡ (t, none)
    → IsBounded b
    → Refined b t (outbox_of past b) (outbox_of (with_accepted ev past) t)
unfolding publish
publish-Refined past ev b t q h = elim (Bool-cases (ltb (length b.ch) b.capacity)) [
  | inr full ↦ absurd (ground arith)
  | inl room ↦
      subst (λ t. Refined b t (outbox_of past b) (outbox_of (with_accepted ev past) t))
        (ap (λ r. r.0) (rw room at q))
        (record {
          moves = inr (
              subst (Promise (b.capacity + b.batch_size) b.batch_size (outbox_of past b))
                (ap
                  (λ l. record {
                    waiting = l;
                    pending = batches (b.in_flight ++ b.flush_trigger);
                    past = with_accepted ev past;
                  })
                  (append_assoc (held b.runner) b.ch (ev ∷ [])))
                (accept ev (
                  ground (
                    arith,
                    length-append (held b.runner) b.ch,
                    held-short b.batch_size b.runner h.sized h.batch,
                  ))));
          capacity = refl;
          batch_size = refl;
        })
]

-- Where a batch stands among the others makes no difference.
put_last :
    (batch : List Event) (xs ys : List (List Event))
    → put batch (batches (xs ++ ys)) ≡ batches (xs ++ (ys ++ batch ∷ []))
unfolding put
put_last batch xs ys =
    sym (Quot.sound (perm_append_singleton batch (xs ++ ys)))
    ∙ ap batches (append_assoc xs ys (batch ∷ []))

put_middle :
    (batch : List Event) (xs ys zs : List (List Event))
    → put batch (batches ((xs ++ ys) ++ zs)) ≡ batches ((xs ++ batch ∷ ys) ++ zs)
unfolding put
put_middle batch xs ys zs =
    ap (λ l. batches (batch ∷ l)) (append_assoc xs ys zs)
    ∙ sym (Quot.sound (perm_middle xs (ys ++ zs)))
    ∙ ap batches (sym (append_assoc xs (batch ∷ ys) zs))

take_first :
    (batch : List Event) (xs ys : List (List Event))
    → batches ((batch ∷ xs) ++ ys) ≡ batches (xs ++ batch ∷ ys)
take_first batch xs ys = sym (Quot.sound (perm_middle xs ys))

-- `dispatch` cuts a batch off.
send_cuts :
    (past : Past) (b : Buffer) (out : List Event) (to : Next)
    → IsBounded (record b { runner = sending out to })
    → let b' = record b { runner = sending out to } in
      let t = record b { flush_trigger = b.flush_trigger ++ out ∷ []; runner = after to } in
      Refined b' t (outbox_of past b') (outbox_of (with_cut out past) t)
send_cuts past b out to h = record {
  moves = inr (
      subst
        (Promise (b.capacity + b.batch_size) b.batch_size
          (outbox_of past (record b { runner = sending out to })))
        (ap (λ p. record { waiting = b.ch; pending = p; past = with_cut out past })
            (put_last out b.in_flight b.flush_trigger)
          ∙ ap
              (λ l. record {
                waiting = l ++ b.ch;
                pending = batches (b.in_flight ++ (b.flush_trigger ++ out ∷ []));
                past = with_cut out past;
              })
              (sym (held-after to)))
        (cut out b.ch refl h.batch.0 h.batch.1));
  capacity = refl;
  batch_size = refl;
}

-- The record after `send`, which sends what `runFlush` holds out.
abbrev past_sent : Runner → Past → Past
past_sent r past = record past { cut_off = sent_by r past.cut_off }

send_at-Refined :
    (past : Past) (b t : Buffer) (r : Runner)
    → send_at b r ≡ some t
    → IsBounded (record b { runner = r })
    → Refined
        (record b { runner = r })
        t
        (outbox_of past (record b { runner = r }))
        (outbox_of (past_sent r past) t)
send_at-Refined past b t (sending out to) q h = elim (Bool-cases (ltb (length b.flush_trigger) 4)) [
  | inr full ↦ absurd (ground arith)
  | inl room ↦
      let b' : Buffer = record b { runner = sending out to } in
      subst (λ t. Refined b' t (outbox_of past b') (outbox_of (with_cut out past) t))
        (some_inj.0 (rw room at q)) (send_cuts past b out to h)
]
send_at-Refined past b t _ q h = cc

take_batch_at-Refined :
    (past : Past) (b t : Buffer) (idle : ℕ) (queue : List (List Event))
    → take_batch_at b idle queue ≡ some t
    → let b' = record b { idle_workers = idle; flush_trigger = queue } in
      Refined b' t (outbox_of past b') (outbox_of past t)
take_batch_at-Refined past b t (suc idle) (batch ∷ rest) q =
    let b' : Buffer = record b { idle_workers = suc idle; flush_trigger = batch ∷ rest } in
    subst (λ t. Refined b' t (outbox_of past b') (outbox_of past t)) (some_inj.0 q)
      (record {
        moves = inl (
            ap (λ p. record { waiting = held b.runner ++ b.ch; pending = p; past = past })
              (take_first batch b.in_flight rest));
        capacity = refl;
        batch_size = refl;
      })
take_batch_at-Refined past b t _ _ q = cc

stop_worker-Refined :
    (past : Past) (b t : Buffer)
    → stop_worker b ≡ some t
    → Refined b t (outbox_of past b) (outbox_of past t)
unfolding stop_worker
stop_worker-Refined past b t q = Stutters-Refined past b t (ground arith)

-- The batch of a write is one of those pending.
pending-put :
    (b : Buffer) (before behind : List (List Event)) (batch : List Event)
    → b.in_flight ≡ before ++ batch ∷ behind
    → batches (b.in_flight ++ b.flush_trigger)
      ≡ put batch (batches ((before ++ behind) ++ b.flush_trigger))
pending-put b before behind batch q =
    ap (λ l. batches (l ++ b.flush_trigger)) q
    ∙ sym (put_middle batch before behind b.flush_trigger)

Step-Refined :
    {w t : World} → Step w t → IsBounded w.buffer → Refined w.buffer t.buffer (outbox w) (outbox t)
unfolding receive tick notice_done send drain_step take_batch close finish_write
Step-Refined (admit w ev b q) h = publish-Refined (past_of w) ev w.buffer b q h
Step-Refined (received w b q) h =
    Stutters-Refined (past_of w) w.buffer b (receive_from-Stutters w.buffer b w.runner w.ch q)
Step-Refined (ticked w b q) h =
    Stutters-Refined (past_of w) w.buffer b (tick_at-Stutters w.buffer b w.runner q)
Step-Refined (noticed w b q) h =
    Stutters-Refined (past_of w) w.buffer b (notice_done_at-Stutters w.buffer b w.runner w.done q)
Step-Refined (sent w b q) h = send_at-Refined (past_of w) w.buffer b w.runner q h
Step-Refined (drained_one w b q) h =
    Stutters-Refined (past_of w) w.buffer b (drain_step_at-Stutters w.buffer b w.runner w.ch q)
Step-Refined (took w b batch rest f q) h =
    take_batch_at-Refined (past_of w) w.buffer b w.idle_workers w.flush_trigger q
Step-Refined (wrote w before behind batch q) h = record {
  moves = inr (deliver batch _ (pending-put w.buffer before behind batch q));
  capacity = refl;
  batch_size = refl;
}
Step-Refined (gave_up w before behind batch q) h = record {
  moves = inr (give_up batch _ (pending-put w.buffer before behind batch q));
  capacity = refl;
  batch_size = refl;
}
Step-Refined (stopped w b q) h = stop_worker-Refined (past_of w) w.buffer b q
Step-Refined (closed w) h = record { moves = inl refl; capacity = refl; batch_size = refl }

-- The sizes that a configuration gives.
abbrev pub room : BufferConfig → ℕ
room cfg = positive_or 1000 cfg.capacity + positive_or 1000 cfg.flush_batch_size

-- What a run has done to the outbox, with the sizes unchanged.
record IsPromised (cfg : BufferConfig) (w : World) : Type 0 where
  run : Promises (room cfg) (positive_or 1000 cfg.flush_batch_size) empty (outbox w)
  capacity : w.capacity ≡ positive_or 1000 cfg.capacity
  batch_size : w.batch_size ≡ positive_or 1000 cfg.flush_batch_size

start-IsPromised :
    (cfg : BufferConfig) (given : Bool) → IsPromised cfg (initial (start cfg given (new cfg)))
unfolding initial start new
start-IsPromised cfg false = record { run = Promises.start; capacity = refl; batch_size = refl }
start-IsPromised cfg true = elim (Bool-cases (leb_ℤ (ticker_interval cfg) (pos 0))) [
  | inl bad ↦ rw bad (record { run = Promises.start; capacity = refl; batch_size = refl })
  | inr good ↦ rw good (record { run = Promises.start; capacity = refl; batch_size = refl })
]

Refined-IsPromised :
    (cfg : BufferConfig) (w t : World)
    → Refined w.buffer t.buffer (outbox w) (outbox t)
    → IsPromised cfg w
    → IsPromised cfg t
Refined-IsPromised cfg w t r h = record {
  run = extended r.moves;
  capacity = r.capacity ∙ h.capacity;
  batch_size = r.batch_size ∙ h.batch_size;
}
  where
    extended :
        (outbox t ≡ outbox w)
          ⊎ Promise (w.capacity + w.batch_size) w.batch_size (outbox w) (outbox t)
        → Promises (room cfg) (positive_or 1000 cfg.flush_batch_size) empty (outbox t)
    extended (inl same) =
        subst (Promises (room cfg) (positive_or 1000 cfg.flush_batch_size) empty) (sym same) h.run
    extended (inr m) = next h.run (
        subst (λ n. Promise (positive_or 1000 cfg.capacity + n) n (outbox w) (outbox t))
          h.batch_size
          (subst (λ c. Promise (c + w.batch_size) w.batch_size (outbox w) (outbox t)) h.capacity m))

Reach-IsPromised :
    (cfg : BufferConfig) {w t : World}
    → IsBounded w.buffer
    → IsPromised cfg w
    → Reach w t
    → IsPromised cfg t
Reach-IsPromised cfg h k here = k
Reach-IsPromised cfg h k (more {t} {u} r s) =
    Refined-IsPromised cfg t u (Step-Refined s (Reach-IsBounded h r)) (Reach-IsPromised cfg h k r)

-- Whatever the goroutines of a new buffer do, in any interleaving, some run of the outbox from the
-- empty one ends in the outbox that the buffer then stands for, with the same past: it has accepted
-- exactly the events that `Publish` took, in that order, cut off exactly the batches that were
-- sent, in that order, delivered exactly the batches written and given up exactly those whose write
-- failed, each in that order; what waits are the events that `runFlush` holds and those of the
-- channel, and the pending batches are those queued or with a worker, in no order. In such a run an
-- event is accepted behind those waiting, of which there are at most the capacity and a batch, a
-- batch of one up to the batch size is cut off their front, and a batch is delivered or given up
-- only where it is pending, and then no more.
pub run_refines :
    (cfg : BufferConfig) (given : Bool) (t : World)
    → Reach (initial (start cfg given (new cfg))) t
    → Promises (room cfg) (positive_or 1000 cfg.flush_batch_size) empty (outbox t)
unfolding initial
run_refines cfg given t r =
    (Reach-IsPromised cfg (start-new-IsBounded cfg given) (start-IsPromised cfg given) r).run
