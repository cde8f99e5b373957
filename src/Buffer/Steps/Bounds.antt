-- ===== src/Buffer/Steps/Bounds.antt =====
-- The workers, and every step of a run, keep the sizes (internal/buffer/buffer.go).
use mathlib.Core.Option.{some_inj}
use chronometrics.Common.{
  zero, ap, subst, Bool-cases, inl, inr, ℕ, suc, ◌<◌, ◌≡◌, refl, Bool, true, false, some, List, [],
  ◌∷◌, ◌++◌, arith, length, length-append, All,
}
use chronometrics.Common.Int.{ℤ, pos, negsuc, leb_ℤ}
use chronometrics.Domain.Event.{Event}
use chronometrics.Config.Types.{BufferConfig}
use chronometrics.Buffer.{
  positive_or, ticker_interval, take_batch_at, stop_worker_at, Buffer, Runner, exited, new, start,
  take_batch, finish_write, stop_worker, close,
}
use chronometrics.Buffer.Steps.{
  World, initial, Step, admit, received, ticked, noticed, sent, drained_one, took, wrote, gave_up,
  stopped, closed, Reach, here, more,
}
use chronometrics.Buffer.Steps.Sizes.{
  IsBatch, IsBounded, publish-IsBounded, receive-IsBounded, tick-IsBounded, notice_done-IsBounded,
  drain_step-IsBounded, send-IsBounded,
}

take_batch_at-IsBounded :
    (b t : Buffer) (idle : ℕ) (queue : List (List Event))
    → take_batch_at b idle queue ≡ some t
    → IsBounded (record b { idle_workers = idle; flush_trigger = queue })
    → IsBounded t
take_batch_at-IsBounded b t zero queue q h = cc
take_batch_at-IsBounded b t (suc idle) [] q h = cc
take_batch_at-IsBounded b t (suc idle) (batch ∷ rest) q h = subst IsBounded (some_inj.0 q) (record {
  sized = h.sized;
  room = h.room;
  queue = omega (arith, h.queue);
  batch = h.batch;
  queued = h.queued.1;
  writing = (h.queued.0, h.writing);
  workers = omega (arith, h.workers);
})

take_batch-IsBounded : (b t : Buffer) → take_batch b ≡ some t → IsBounded b → IsBounded t
unfolding take_batch
take_batch-IsBounded b t q h = take_batch_at-IsBounded b t b.idle_workers b.flush_trigger q h

stop_worker_at-IsBounded :
    (b t : Buffer) (idle : ℕ) (queue : List (List Event)) (r : Runner)
    → stop_worker_at b idle queue r ≡ some t
    → b.idle_workers ≡ idle
    → IsBounded b
    → IsBounded t
stop_worker_at-IsBounded b t (suc idle) [] exited q e h = subst IsBounded (some_inj.0 q) (record {
  sized = h.sized;
  room = h.room;
  queue = h.queue;
  batch = h.batch;
  queued = h.queued;
  writing = h.writing;
  workers = omega (arith, h.workers, e);
})
stop_worker_at-IsBounded b t _ _ _ q e h = cc

stop_worker-IsBounded : (b t : Buffer) → stop_worker b ≡ some t → IsBounded b → IsBounded t
unfolding stop_worker
stop_worker-IsBounded b t q h =
    stop_worker_at-IsBounded b t b.idle_workers b.flush_trigger b.runner q refl h

All-split :
    (n : ℕ) (before behind : List (List Event)) (batch : List Event)
    → All (IsBatch n) (before ++ batch ∷ behind)
    → All (IsBatch n) (before ++ behind)
All-split n [] behind batch h = h.1
All-split n (x ∷ before) behind batch h = (h.0, All-split n before behind batch h.1)

finish_write-IsBounded :
    (b : Buffer) (before behind : List (List Event)) (batch : List Event)
    → b.in_flight ≡ before ++ batch ∷ behind
    → IsBounded b
    → IsBounded (finish_write before behind b)
unfolding finish_write
finish_write-IsBounded b before behind batch q h = record {
  sized = h.sized;
  room = h.room;
  queue = h.queue;
  batch = h.batch;
  queued = h.queued;
  writing =
      All-split b.batch_size before behind batch (subst (All (IsBatch b.batch_size)) q h.writing);
  workers = omega (
    arith,
    h.workers,
    ap length q,
    length-append before (batch ∷ behind),
    length-append before behind,
  );
}

-- Every step of any goroutine keeps the sizes.
pub Step-IsBounded : {w t : World} → Step w t → IsBounded w.buffer → IsBounded t.buffer
unfolding close
Step-IsBounded (admit w ev b q) h =
    subst IsBounded (ap (λ r. r.0) q) (publish-IsBounded false ev w.buffer h)
Step-IsBounded (received w b q) h = receive-IsBounded w.buffer b q h
Step-IsBounded (ticked w b q) h = tick-IsBounded w.buffer b q h
Step-IsBounded (noticed w b q) h = notice_done-IsBounded w.buffer b q h
Step-IsBounded (sent w b q) h = send-IsBounded w.buffer b q h
Step-IsBounded (drained_one w b q) h = drain_step-IsBounded w.buffer b q h
Step-IsBounded (took w b batch rest f q) h = take_batch-IsBounded w.buffer b q h
Step-IsBounded (wrote w before behind batch q) h =
    finish_write-IsBounded w.buffer before behind batch q h
Step-IsBounded (gave_up w before behind batch q) h =
    finish_write-IsBounded w.buffer before behind batch q h
Step-IsBounded (stopped w b q) h = stop_worker-IsBounded w.buffer b q h
Step-IsBounded (closed w) h = record {
  sized = h.sized;
  room = h.room;
  queue = h.queue;
  batch = h.batch;
  queued = h.queued;
  writing = h.writing;
  workers = h.workers;
}

positive_or-pos : (z : ℤ) → 0 < positive_or 1000 z
positive_or-pos (pos zero) = omega arith
positive_or-pos (pos (suc n)) = omega arith
positive_or-pos (negsuc n) = omega arith

pub start-new-IsBounded :
    (cfg : BufferConfig) (given : Bool) → IsBounded (start cfg given (new cfg))
unfolding start new
start-new-IsBounded cfg false = record {
  sized = positive_or-pos cfg.flush_batch_size;
  room = omega arith;
  queue = omega arith;
  batch = tt;
  queued = tt;
  writing = tt;
  workers = refl;
}
start-new-IsBounded cfg true = elim (Bool-cases (leb_ℤ (ticker_interval cfg) (pos 0))) [
  | inl bad ↦ rw bad (record {
    sized = positive_or-pos cfg.flush_batch_size;
    room = omega arith;
    queue = omega arith;
    batch = tt;
    queued = tt;
    writing = tt;
    workers = refl;
  })
  | inr good ↦ rw good (record {
    sized = positive_or-pos cfg.flush_batch_size;
    room = omega arith;
    queue = omega arith;
    batch = positive_or-pos cfg.flush_batch_size;
    queued = tt;
    writing = tt;
    workers = refl;
  })
]

pub Reach-IsBounded : {w t : World} → IsBounded w.buffer → Reach w t → IsBounded t.buffer
Reach-IsBounded h here = h
Reach-IsBounded h (more r s) = Step-IsBounded s (Reach-IsBounded h r)

-- From a new buffer, started or not, in any interleaving of publishers, `runFlush`, the workers
-- and `Close`: the channel never holds more than its capacity nor `flushTrigger` more than four
-- batches, every batch sent or being written has between one event and the batch size, and the
-- workers busy, idle and ended are the four that were started, or none.
pub run-IsBounded :
    (cfg : BufferConfig) (given : Bool) (t : World)
    → Reach (initial (start cfg given (new cfg))) t
    → IsBounded t.buffer
unfolding initial
run-IsBounded cfg given t r = Reach-IsBounded (start-new-IsBounded cfg given) r
