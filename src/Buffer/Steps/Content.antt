-- ===== src/Buffer/Steps/Content.antt =====
-- What holds of every event that `Publish` took holds of every event in a batch
-- (internal/buffer/buffer.go).
use mathlib.Core.Option.{some_inj}
use chronometrics.Common.{
  ℕ, suc, ◌≡◌, refl, sym, ap, ◌∙◌, subst, inl, inr, Bool, true, false, some, List, [], ◌∷◌, ◌++◌,
  arith, ltb, Bool-cases, length, flatten, All, All-append, All-split, All-flatten,
}
use chronometrics.Domain.Event.{Event}
use chronometrics.Config.Types.{BufferConfig}
use chronometrics.Buffer.{
  Buffer, Runner, collecting, sending, draining, exited, new, start, publish, receive_from, receive,
  tick_at, tick, notice_done_at, notice_done, send_at, send, drain_step_at, drain_step,
  take_batch_at, take_batch, finish_write, stop_worker_at, stop_worker, close,
}
use chronometrics.Buffer.Steps.{
  World, initial, Step, admit, received, ticked, noticed, sent, drained_one, took, wrote, gave_up,
  stopped, closed, Reach, here, more,
}
use chronometrics.Buffer.Steps.Order.{IsOrdered}
use chronometrics.Buffer.Steps.History.{run-IsOrdered}

-- The steps of publishers, of `runFlush` and of a worker that ends leave alone what is being
-- written.
publish_in_flight :
    (ev : Event) (b t : Buffer) → (publish false ev b).0 ≡ t → t.in_flight ≡ b.in_flight
unfolding publish
publish_in_flight ev b t q = elim (Bool-cases (ltb (length b.ch) b.capacity)) [
  | inl room ↦ sym (ap (λ (x : Buffer). x.in_flight) (rw room at q))
  | inr full ↦ sym (ap (λ (x : Buffer). x.in_flight) (rw full at q))
]

receive_in_flight :
    (b t : Buffer) (r : Runner) (c : List Event)
    → receive_from b r c ≡ some t
    → t.in_flight ≡ b.in_flight
receive_in_flight b t (collecting batch) (e ∷ rest) q = sym (ap (λ x. x.in_flight) (some_inj.0 q))
receive_in_flight b t _ c q = cc

tick_in_flight : (b t : Buffer) (r : Runner) → tick_at b r ≡ some t → t.in_flight ≡ b.in_flight
tick_in_flight b t (collecting batch) q = sym (ap (λ x. x.in_flight) (some_inj.0 q))
tick_in_flight b t _ q = cc

notice_done_in_flight :
    (b t : Buffer) (r : Runner) (d : Bool)
    → notice_done_at b r d ≡ some t
    → t.in_flight ≡ b.in_flight
notice_done_in_flight b t (collecting batch) true q = sym (ap (λ x. x.in_flight) (some_inj.0 q))
notice_done_in_flight b t _ _ q = cc

send_in_flight : (b t : Buffer) (r : Runner) → send_at b r ≡ some t → t.in_flight ≡ b.in_flight
send_in_flight b t (sending out to) q = elim (Bool-cases (ltb (length b.flush_trigger) 4)) [
  | inl room ↦ sym (ap (λ x. x.in_flight) (some_inj.0 (rw room at q)))
  | inr none_left ↦ absurd (ground arith)
]
send_in_flight b t _ q = cc

drain_step_in_flight :
    (b t : Buffer) (r : Runner) (c : List Event)
    → drain_step_at b r c ≡ some t
    → t.in_flight ≡ b.in_flight
drain_step_in_flight b t (draining batch) [] q = sym (ap (λ x. x.in_flight) (some_inj.0 q))
drain_step_in_flight b t (draining batch) (e ∷ rest) q =
    elim (Bool-cases (ltb (length batch) b.batch_size)) [
      | inl below ↦ sym (ap (λ x. x.in_flight) (some_inj.0 (rw below at q)))
      | inr full ↦ sym (ap (λ x. x.in_flight) (some_inj.0 (rw full at q)))
    ]
drain_step_in_flight b t _ c q = cc

stop_worker_in_flight :
    (b t : Buffer) (idle : ℕ) (queue : List (List Event)) (r : Runner)
    → stop_worker_at b idle queue r ≡ some t
    → t.in_flight ≡ b.in_flight
stop_worker_in_flight b t (suc idle) [] exited q = sym (ap (λ x. x.in_flight) (some_inj.0 q))
stop_worker_in_flight b t _ _ _ q = cc

take_batch_in_flight :
    (b t : Buffer) (idle : ℕ) (queue rest : List (List Event)) (batch : List Event)
    → queue ≡ batch ∷ rest
    → take_batch_at b idle queue ≡ some t
    → t.in_flight ≡ batch ∷ b.in_flight
take_batch_in_flight b t (suc idle) (x ∷ xs) rest batch e q =
    sym (ap (λ x. x.in_flight) (some_inj.0 q)) ∙ cc
take_batch_in_flight b t idle queue rest batch e q = cc

module _ (P : Event → Type 0) where
  -- It holds of every event that is being written, was written or was given up on.
  pub record Holds (w : World) : Type 0 where
    pub writing : All (All P) w.in_flight
    pub written : All (All P) w.flushed
    pub lost : All (All P) w.dropped

  Holds-same :
      (w t : World)
      → Holds w
      → t.in_flight ≡ w.in_flight
      → t.flushed ≡ w.flushed
      → t.dropped ≡ w.dropped
      → Holds t
  Holds-same w t h a b c = record {
    writing = subst (All (All P)) (sym a) h.writing;
    written = subst (All (All P)) (sym b) h.written;
    lost = subst (All (All P)) (sym c) h.lost;
  }

  -- The batch of a write that ends, and those that go on.
  split_writing :
      (w : World) (before behind : List (List Event)) (batch : List Event)
      → w.in_flight ≡ before ++ batch ∷ behind
      → Holds w
      → All P batch × All (All P) (before ++ behind)
  split_writing w before behind batch q h =
      let (a, b) = All-split (All P) before (batch ∷ behind) (subst (All (All P)) q h.writing) in
      (b.0, All-append (All P) before behind a b.1)

  queued_holds : (w : World) → IsOrdered w → All P w.accepted → All (All P) w.flush_trigger
  queued_holds w o h =
      (All-split (All P) w.taken w.flush_trigger (
        subst (All (All P)) (sym o.queue) (
          All-flatten P w.dispatched
            (All-split P (flatten w.dispatched) _ (subst (All P) (sym o.order) h)).0))).1

  Step-Holds : {w t : World} (s : Step w t) → IsOrdered w → All P w.accepted → Holds w → Holds t
  unfolding receive tick notice_done send drain_step take_batch stop_worker finish_write close
  Step-Holds (admit w ev b q) o a h =
      Holds-same w _ h (publish_in_flight ev w.buffer b (ap (λ x. x.0) q)) refl refl
  Step-Holds (received w b q) o a h =
      Holds-same w _ h (receive_in_flight w.buffer b w.runner w.ch q) refl refl
  Step-Holds (ticked w b q) o a h =
      Holds-same w _ h (tick_in_flight w.buffer b w.runner q) refl refl
  Step-Holds (noticed w b q) o a h =
      Holds-same w _ h (notice_done_in_flight w.buffer b w.runner w.done q) refl refl
  Step-Holds (sent w b q) o a h = Holds-same w _ h (send_in_flight w.buffer b w.runner q) refl refl
  Step-Holds (drained_one w b q) o a h =
      Holds-same w _ h (drain_step_in_flight w.buffer b w.runner w.ch q) refl refl
  Step-Holds (took w b batch rest f q) o a h = record {
    writing =
        subst (All (All P))
          (sym (take_batch_in_flight w.buffer b w.idle_workers w.flush_trigger rest batch f q))
          ((subst (All (All P)) f (queued_holds w o a)).0, h.writing);
    written = h.written;
    lost = h.lost;
  }
  Step-Holds (wrote w before behind batch q) o a h =
      let (x, others) = split_writing w before behind batch q h in
      record {
        writing = others;
        written = All-append (All P) w.flushed (batch ∷ []) h.written (x, tt);
        lost = h.lost;
      }
  Step-Holds (gave_up w before behind batch q) o a h =
      let (x, others) = split_writing w before behind batch q h in
      record {
        writing = others;
        written = h.written;
        lost = All-append (All P) w.dropped (batch ∷ []) h.lost (x, tt);
      }
  Step-Holds (stopped w b q) o a h =
      Holds-same w _ h (stop_worker_in_flight w.buffer b w.idle_workers w.flush_trigger w.runner q)
        refl refl
  Step-Holds (closed w) o a h = Holds-same w _ h refl refl refl

  -- It holds of the event that a step takes, and of all events that a run takes.
  abbrev pub Takes : {w t : World} → Step w t → Type 0
  Takes (admit w ev b q) = P ev
  Takes _ = Unit

  abbrev pub AllTaken : {w t : World} → Reach w t → Type 0
  AllTaken here = Unit
  AllTaken (more r s) = AllTaken r × Takes s

  Step-accepted : {w t : World} (s : Step w t) → Takes s → All P w.accepted → All P t.accepted
  Step-accepted (admit w ev b q) x a = All-append P w.accepted (ev ∷ []) a (x, tt)
  Step-accepted (received w b q) x a = a
  Step-accepted (ticked w b q) x a = a
  Step-accepted (noticed w b q) x a = a
  Step-accepted (sent w b q) x a = a
  Step-accepted (drained_one w b q) x a = a
  Step-accepted (took w b batch rest f q) x a = a
  Step-accepted (wrote w before behind batch q) x a = a
  Step-accepted (gave_up w before behind batch q) x a = a
  Step-accepted (stopped w b q) x a = a
  Step-accepted (closed w) x a = a

  initial-Holds : (cfg : BufferConfig) (given : Bool) → Holds (initial (start cfg given (new cfg)))
  unfolding initial start new
  initial-Holds cfg false = record { writing = tt; written = tt; lost = tt }
  initial-Holds cfg true = record { writing = tt; written = tt; lost = tt }

  -- From a new buffer, in any interleaving: what holds of every event taken holds of every accepted
  -- event, and of every event of a batch that is being written, was written or was given up on.
  pub run-Holds :
      (cfg : BufferConfig) (given : Bool) (t : World)
      (r : Reach (initial (start cfg given (new cfg))) t)
      → AllTaken r
      → All P t.accepted × Holds t
  unfolding initial
  run-Holds cfg given t here x = (tt, initial-Holds cfg given)
  run-Holds cfg given t (more {t = u} r s) (x, y) =
      let (a, h) = run-Holds cfg given u r x in
      (Step-accepted s y a, Step-Holds s (run-IsOrdered cfg given u r) a h)
