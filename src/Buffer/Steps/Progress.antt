-- ===== src/Buffer/Steps/Progress.antt =====
-- `Close` comes to an end: the work left falls with each step, and a step is there while any work
-- is left (internal/buffer/buffer.go).
use chronometrics.Common.{
  ℕ, zero, suc, ◌<◌, ◌≡◌, refl, ◌⊎◌, inl, inr, ap, ◌∙◌, Bool, true, false, some, List, [], ◌∷◌,
  ◌++◌, arith, ltb, Bool-cases, length,
}
use chronometrics.Domain.Event.{Event}
use chronometrics.Buffer.{
  Buffer, Next, resume, drain, Runner, not_started, collecting, sending, draining, exited, crashed,
  notice_done, send, drain_step, dispatch, drained, after, take_batch, finish_write, stop_worker,
  wait_over, drain_step_at,
}
use chronometrics.Buffer.Steps.{
  sent_by, World, Step, noticed, sent, drained_one, took, wrote, stopped,
}
use chronometrics.Buffer.Steps.Sizes.{IsBounded, worker_count}
use chronometrics.Buffer.Steps.Work.{
  work_left, notice_done-falls, send-falls, drain_step-falls, take_batch-falls, stop_worker-falls,
  finish_write-falls,
}
use chronometrics.Buffer.Steps.Ended.{Ended}

-- `runFlush` runs, or has returned.
abbrev pub is_started : Runner → Bool
is_started not_started = false
is_started crashed = false
is_started _ = true

dispatch-is_started : (batch : List Event) → is_started (dispatch batch drain) ≡ true
unfolding dispatch
dispatch-is_started [] = refl
dispatch-is_started (e ∷ es) = refl

after-is_started : (to : Next) → is_started (after to) ≡ true
after-is_started resume = refl
after-is_started drain = refl

drained-is_started : (batch : List Event) → is_started (drained batch) ≡ true
unfolding drained
drained-is_started [] = refl
drained-is_started (e ∷ es) = refl

drain_step_at-some :
    (b : Buffer) (batch c : List Event)
    → (t : Buffer) × (drain_step_at b (draining batch) c ≡ some t)
      × (t.done ≡ b.done)
      × (is_started t.runner ≡ true)
drain_step_at-some b batch [] = (_, refl, refl, drained-is_started batch)
drain_step_at-some b batch (e ∷ rest) = elim (Bool-cases (ltb (length batch) b.batch_size)) [
  | inl below ↦
      (record b { ch = rest; runner = draining (batch ++ e ∷ []) }, rw below refl, refl, refl)
  | inr full ↦ (
    record b { ch = e ∷ rest; runner = drained batch },
    rw full refl,
    refl,
    drained-is_started batch,
  )
]

drain_step-some :
    (b : Buffer) (batch : List Event)
    → b.runner ≡ draining batch
    → (t : Buffer) × (drain_step b ≡ some t) × (t.done ≡ b.done) × (is_started t.runner ≡ true)
unfolding drain_step
drain_step-some b batch e =
    let (t, q, same, started) = drain_step_at-some b batch b.ch in
    (t, ap (λ r. drain_step_at b r b.ch) e ∙ q, same, started)

ℕ-cases : (n : ℕ) → (n ≡ 0) ⊎ ((k : ℕ) × (n ≡ suc k))
ℕ-cases zero = inl refl
ℕ-cases (suc k) = inr (k, refl)

List-cases {ℓ} :
    {A : Type ℓ} (xs : List A) → (xs ≡ []) ⊎ ((x : A) × (rest : List A) × (xs ≡ x ∷ rest))
List-cases [] = inl refl
List-cases (x ∷ rest) = inr (x, rest, refl)

Runner-cases :
    (r : Runner)
    → is_started r ≡ true
    → ((batch : List Event) × (r ≡ collecting batch))
      ⊎ ((out : List Event) × (to : Next) × (r ≡ sending out to))
      ⊎ ((batch : List Event) × (r ≡ draining batch))
      ⊎ (r ≡ exited)
Runner-cases (collecting batch) h = inl (batch, refl)
Runner-cases (sending out to) h = inr (inl (out, to, refl))
Runner-cases (draining batch) h = inr (inr (inl (batch, refl)))
Runner-cases exited h = inr (inr (inr refl))
Runner-cases _ h = cc

started-worker_count : (r : Runner) → is_started r ≡ true → worker_count r ≡ 4
started-worker_count r h = ground arith

-- A step that keeps `done` and the accepted events, and after which less work is left.
pub record Advance (w : World) : Type 0 where
  pub next : World
  pub step : Step w next
  pub falls : work_left next.buffer < work_left w.buffer
  pub still_done : next.done ≡ true
  pub still_started : is_started next.runner ≡ true
  pub same_accepted : next.accepted ≡ w.accepted

abbrev pub IsFinished : World → Type 0
IsFinished w = (w.runner ≡ exited) × (wait_over w.runner w.stopped_workers ≡ true)

module _ (w : World) (d : w.done ≡ true) (s : is_started w.runner ≡ true) where
  -- `runFlush` takes a step.
  run_step :
      (b : Buffer)
      → Step w (record w { buffer = b })
      → work_left b < work_left w.buffer
      → b.done ≡ w.done
      → is_started b.runner ≡ true
      → Advance w
  run_step b step f e g = record {
    next = record w { buffer = b };
    step = step;
    falls = f;
    still_done = e ∙ d;
    still_started = g;
    same_accepted = refl;
  }

  finish_advances :
      (batch : List Event) (rest : List (List Event)) → w.in_flight ≡ batch ∷ rest → Advance w
  unfolding finish_write
  finish_advances batch rest e = record {
    next = record w { buffer = finish_write [] rest w.buffer; flushed = w.flushed ++ batch ∷ [] };
    step = wrote w [] rest batch e;
    falls = finish_write-falls w.buffer [] rest batch e;
    still_done = d;
    still_started = s;
    same_accepted = refl;
  }

  take_advances :
      (n : ℕ) (batch : List Event) (rest : List (List Event))
      → w.idle_workers ≡ suc n
      → w.flush_trigger ≡ batch ∷ rest
      → Advance w
  unfolding take_batch
  take_advances n batch rest i e =
      let b : Buffer = record w.buffer {
        idle_workers = n;
        flush_trigger = rest;
        in_flight = batch ∷ w.in_flight;
      } in
      let q : take_batch w.buffer ≡ some b = ground (arith, i, e) in
      record {
        next = record w { buffer = b; taken = w.taken ++ batch ∷ [] };
        step = took w b batch rest e q;
        falls = take_batch-falls w.buffer b q;
        still_done = d;
        still_started = s;
        same_accepted = refl;
      }

  stop_advances :
      (n : ℕ) → w.idle_workers ≡ suc n → w.flush_trigger ≡ [] → w.runner ≡ exited → Advance w
  unfolding stop_worker
  stop_advances n i e x =
      let b : Buffer = record w.buffer {
        idle_workers = n;
        stopped_workers = suc w.stopped_workers;
      } in
      let q : stop_worker w.buffer ≡ some b = ground (arith, i, e, x) in
      run_step b (stopped w b q) (stop_worker-falls w.buffer b q) refl s

  notice_advances : (batch : List Event) → w.runner ≡ collecting batch → Advance w
  unfolding notice_done
  notice_advances batch e =
      let b : Buffer = record w.buffer { runner = dispatch batch drain } in
      let q : notice_done w.buffer ≡ some b = ground (arith, e, d) in
      run_step b (noticed w b q) (notice_done-falls w.buffer b q) refl (dispatch-is_started batch)

  drain_advances : (batch : List Event) → w.runner ≡ draining batch → Advance w
  drain_advances batch e =
      let (b, q, same, started) = drain_step-some w.buffer batch e in
      run_step b (drained_one w b q) (drain_step-falls w.buffer b q) same started

  -- With a batch queued, some worker is idle or busy.
  queue_advances :
      (batch : List Event) (rest : List (List Event))
      → IsBounded w.buffer
      → Ended w.buffer
      → w.flush_trigger ≡ batch ∷ rest
      → Advance w
  queue_advances batch rest h k e = elim (ℕ-cases w.idle_workers) [
    | inr (n, i) ↦ take_advances n batch rest i e
    | inl i ↦ elim (List-cases w.in_flight) [
      | inr (x, xs, f) ↦ finish_advances x xs f
      | inl f ↦
          absurd (
            all_stopped (omega (arith, h.workers, started-worker_count w.runner s, ap length f, i)))
    ]
  ]
    where
      all_stopped : w.stopped_workers ≡ 4 → ⊥
      all_stopped four = ground (arith, (k (omega (arith, four))).1)

  send_advances :
      (out : List Event) (to : Next)
      → IsBounded w.buffer
      → Ended w.buffer
      → w.runner ≡ sending out to
      → Advance w
  unfolding send
  send_advances out to h k e = elim (Bool-cases (ltb (length w.flush_trigger) 4)) [
    | inl room ↦
        let b : Buffer = record w.buffer {
          flush_trigger = w.flush_trigger ++ out ∷ [];
          runner = after to;
        } in
        let q : send w.buffer ≡ some b = ground (arith, e, room) in
        record {
          next = record w { buffer = b; dispatched = sent_by w.runner w.dispatched };
          step = sent w b q;
          falls = send-falls w.buffer b q;
          still_done = d;
          still_started = after-is_started to;
          same_accepted = refl;
        }
    | inr full ↦ elim (List-cases w.flush_trigger) [
      | inl f ↦ absurd (ground (arith, f))
      | inr (batch, rest, f) ↦ queue_advances batch rest h k f
    ]
  ]

  exited_advances :
      IsBounded w.buffer → Ended w.buffer → w.runner ≡ exited → Advance w ⊎ IsFinished w
  exited_advances h k e = elim (List-cases w.flush_trigger) [
    | inr (batch, rest, f) ↦ inl (queue_advances batch rest h k f)
    | inl none_queued ↦ elim (ℕ-cases w.idle_workers) [
      | inr (n, i) ↦ inl (stop_advances n i none_queued e)
      | inl i ↦ elim (List-cases w.in_flight) [
        | inr (x, xs, f) ↦ inl (finish_advances x xs f)
        | inl f ↦ inr (e, ground (arith, h.workers, started-worker_count w.runner s, f, i, e))
      ]
    ]
  ]

  -- A step is there, or `Close` need wait no longer.
  pub progress : IsBounded w.buffer → Ended w.buffer → Advance w ⊎ IsFinished w
  progress h k = elim (Runner-cases w.runner s) [
    | inl (batch, e) ↦ inl (notice_advances batch e)
    | inr (inl (out, to, e)) ↦ inl (send_advances out to h k e)
    | inr (inr (inl (batch, e))) ↦ inl (drain_advances batch e)
    | inr (inr (inr e)) ↦ exited_advances h k e
  ]
