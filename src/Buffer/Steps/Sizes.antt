-- ===== src/Buffer/Steps/Sizes.antt =====
-- The sizes that hold of the buffer at every moment, and that `runFlush` keeps them
-- (internal/buffer/buffer.go).
use mathlib.Core.Option.{some_inj}
use chronometrics.Common.{
  subst, sym, ◌∙◌, ltb, leb, if◌then◌else◌, Bool-cases, inl, inr, ℕ, ◌+◌, ◌≤◌, ◌<◌, ◌≡◌, refl, Bool,
  true, false, some, List, [], ◌∷◌, ◌++◌, arith, length, length-append, All, All-append,
}
use chronometrics.Domain.Event.{Event}
use chronometrics.Buffer.{
  Next, resume, drain, dispatch, receive_from, tick_at, notice_done_at, send_at, drain_step_at,
  drained, after, Buffer, Runner, collecting, sending, draining, not_started, new, publish, receive,
  tick, notice_done, send, drain_step,
}

-- A batch that may be written: not empty, and at most a full one.
abbrev pub IsBatch : ℕ → List Event → Type 0
IsBatch n batch = (0 < length batch) × (length batch ≤ n)

abbrev pub HoldsBatch : ℕ → Runner → Type 0
HoldsBatch n (collecting batch) = length batch < n
HoldsBatch n (sending out next) = IsBatch n out
HoldsBatch n (draining batch) = length batch ≤ n
HoldsBatch n _ = Unit

abbrev pub worker_count : Runner → ℕ
worker_count not_started = 0
worker_count _ = 4

pub record IsBounded (b : Buffer) : Type 0 where
  pub sized : 0 < b.batch_size
  pub room : length b.ch ≤ b.capacity
  pub queue : length b.flush_trigger ≤ 4
  pub batch : HoldsBatch b.batch_size b.runner
  pub queued : All (IsBatch b.batch_size) b.flush_trigger
  pub writing : All (IsBatch b.batch_size) b.in_flight
  pub workers : length b.in_flight + b.idle_workers + b.stopped_workers ≡ worker_count b.runner

pub publish-IsBounded :
    (c : Bool) (ev : Event) (b : Buffer) → IsBounded b → IsBounded (publish c ev b).0
unfolding publish
publish-IsBounded true ev b h = h
publish-IsBounded false ev b h = ground (arith, length-append b.ch (ev ∷ []))

dispatch-HoldsBatch :
    (n : ℕ) (batch : List Event) (to : Next)
    → 0 < n
    → length batch ≤ n
    → HoldsBatch n (dispatch batch to) × (worker_count (dispatch batch to) ≡ 4)
unfolding dispatch
dispatch-HoldsBatch n [] resume s h = ground arith
dispatch-HoldsBatch n [] drain s h = ground arith
dispatch-HoldsBatch n (e ∷ es) to s h = ground arith

-- After a new event in the batch: sent on if it is full, else still collected.
collected-HoldsBatch :
    (n : ℕ) (batch : List Event) (e : Event)
    → length batch < n
    → let batch' = batch ++ e ∷ [] in
      let r = if leb n (length batch') then dispatch batch' resume else collecting batch' in
      HoldsBatch n r × (worker_count r ≡ 4)
collected-HoldsBatch n batch e h =
    ground (arith, length-append batch (e ∷ []), dispatch-HoldsBatch n (batch ++ e ∷ []) resume)

drained-HoldsBatch :
    (n : ℕ) (batch : List Event)
    → length batch ≤ n
    → HoldsBatch n (drained batch) × (worker_count (drained batch) ≡ 4)
unfolding drained
drained-HoldsBatch n [] h = ground arith
drained-HoldsBatch n (e ∷ es) h = ground arith

after-HoldsBatch :
    (n : ℕ) (to : Next) → 0 < n → HoldsBatch n (after to) × (worker_count (after to) ≡ 4)
after-HoldsBatch n resume h = ground arith
after-HoldsBatch n drain h = ground arith

-- The invariant for a new runner and a shorter channel, all else kept.
step_runner-IsBounded :
    (b : Buffer) (r : Runner) (c : List Event)
    → IsBounded b
    → worker_count b.runner ≡ 4
    → length c ≤ length b.ch
    → HoldsBatch b.batch_size r × (worker_count r ≡ 4)
    → IsBounded (record b { runner = r; ch = c })
step_runner-IsBounded b r c h w short new = record {
  sized = h.sized;
  room = omega (arith, h.room);
  queue = h.queue;
  batch = new.0;
  queued = h.queued;
  writing = h.writing;
  workers = h.workers ∙ w ∙ sym new.1;
}

abbrev with_runner : Buffer → Runner → List Event → Buffer
with_runner b r c = record b { runner = r; ch = c }

receive_from-IsBounded :
    (b t : Buffer) (r : Runner) (c : List Event)
    → receive_from b r c ≡ some t
    → IsBounded (with_runner b r c)
    → IsBounded t
receive_from-IsBounded b t (collecting batch) (e ∷ rest) q h = subst IsBounded (some_inj.0 q) (
    step_runner-IsBounded (with_runner b (collecting batch) (e ∷ rest)) _ rest h refl (omega arith)
      (collected-HoldsBatch b.batch_size batch e h.batch))
receive_from-IsBounded b t _ c q h = cc

pub receive-IsBounded : (b t : Buffer) → receive b ≡ some t → IsBounded b → IsBounded t
unfolding receive
receive-IsBounded b t q h = receive_from-IsBounded b t b.runner b.ch q h

tick_at-IsBounded :
    (b t : Buffer) (r : Runner)
    → tick_at b r ≡ some t
    → IsBounded (with_runner b r b.ch)
    → IsBounded t
tick_at-IsBounded b t (collecting batch) q h = subst IsBounded (some_inj.0 q) (
    step_runner-IsBounded (with_runner b (collecting batch) b.ch) _ b.ch h refl (omega arith)
      (dispatch-HoldsBatch b.batch_size batch resume h.sized (omega (arith, h.batch))))
tick_at-IsBounded b t _ q h = cc

pub tick-IsBounded : (b t : Buffer) → tick b ≡ some t → IsBounded b → IsBounded t
unfolding tick
tick-IsBounded b t q h = tick_at-IsBounded b t b.runner q h

notice_done_at-IsBounded :
    (b t : Buffer) (r : Runner) (d : Bool)
    → notice_done_at b r d ≡ some t
    → IsBounded (with_runner b r b.ch)
    → IsBounded t
notice_done_at-IsBounded b t (collecting batch) true q h = subst IsBounded (some_inj.0 q) (
    step_runner-IsBounded (with_runner b (collecting batch) b.ch) _ b.ch h refl (omega arith)
      (dispatch-HoldsBatch b.batch_size batch drain h.sized (omega (arith, h.batch))))
notice_done_at-IsBounded b t _ _ q h = cc

pub notice_done-IsBounded : (b t : Buffer) → notice_done b ≡ some t → IsBounded b → IsBounded t
unfolding notice_done
notice_done-IsBounded b t q h = notice_done_at-IsBounded b t b.runner b.done q h

drain_step_at-IsBounded :
    (b t : Buffer) (r : Runner) (c : List Event)
    → drain_step_at b r c ≡ some t
    → IsBounded (with_runner b r c)
    → IsBounded t
drain_step_at-IsBounded b t (draining batch) [] q h = subst IsBounded (some_inj.0 q) (
    step_runner-IsBounded (with_runner b (draining batch) []) _ [] h refl (omega arith)
      (drained-HoldsBatch b.batch_size batch h.batch))
drain_step_at-IsBounded b t (draining batch) (e ∷ rest) q h =
    subst IsBounded (some_inj.0 q) (elim (Bool-cases (ltb (length batch) b.batch_size)) [
      | inl below ↦ rw below (
          step_runner-IsBounded from _ rest h refl (omega arith)
            (ground (arith, length-append batch (e ∷ [])), refl))
      | inr full ↦ rw full (
          step_runner-IsBounded from _ (e ∷ rest) h refl (omega arith)
            (drained-HoldsBatch b.batch_size batch h.batch))
    ])
  where
    from : Buffer
    from = with_runner b (draining batch) (e ∷ rest)
drain_step_at-IsBounded b t _ c q h = cc

pub drain_step-IsBounded : (b t : Buffer) → drain_step b ≡ some t → IsBounded b → IsBounded t
unfolding drain_step
drain_step-IsBounded b t q h = drain_step_at-IsBounded b t b.runner b.ch q h

send_at-IsBounded :
    (b t : Buffer) (r : Runner)
    → send_at b r ≡ some t
    → IsBounded (with_runner b r b.ch)
    → IsBounded t
send_at-IsBounded b t (sending out to) q h = elim (Bool-cases (ltb (length b.flush_trigger) 4)) [
  | inl room ↦ subst IsBounded (some_inj.0 (rw room at q)) (record {
    sized = h.sized;
    room = h.room;
    queue = ground (arith, length-append b.flush_trigger (out ∷ []));
    batch = (after-HoldsBatch b.batch_size to h.sized).0;
    queued = All-append (IsBatch b.batch_size) b.flush_trigger (out ∷ []) h.queued (h.batch, tt);
    writing = h.writing;
    workers = h.workers ∙ sym (after-HoldsBatch b.batch_size to h.sized).1;
  })
  | inr none_left ↦ absurd (ground arith)
]
send_at-IsBounded b t _ q h = cc

pub send-IsBounded : (b t : Buffer) → send b ≡ some t → IsBounded b → IsBounded t
unfolding send
send-IsBounded b t q h = send_at-IsBounded b t b.runner q h
