-- ===== src/Buffer/Steps/History.antt =====
-- No accepted event is lost, doubled or reordered on its way to a batch, and no batch on its way
-- to a worker (internal/buffer/buffer.go).
use mathlib.Core.List.{append-nil, append_assoc, Perm, perm_middle, perm_append_singleton}
use mathlib.Core.List.Perm
use mathlib.Core.Option.{some_inj}
use chronometrics.Common.{
  ℕ, zero, suc, ◌≡◌, refl, sym, ap, ◌∙◌, subst, inl, inr, Bool, true, false, none, some, List, [],
  ◌∷◌, ◌++◌, arith, ltb, Bool-cases, length, flatten, flatten-append,
}
use chronometrics.Domain.Event.{Event}
use chronometrics.Config.Types.{BufferConfig}
use chronometrics.Common.Int.{leb_ℤ, pos}
use chronometrics.Buffer.{
  Next, resume, drain, Buffer, Runner, sending, exited, new, start, publish, after, receive, tick,
  notice_done, send_at, send, drain_step, take_batch_at, take_batch, finish_write, stop_worker_at,
  stop_worker, close, ticker_interval,
}
use chronometrics.Buffer.Steps.{
  World, initial, note_late, sent_by, Step, admit, received, ticked, noticed, sent, drained_one,
  took, wrote, gave_up, stopped, closed, Reach, here, more,
}
use chronometrics.Buffer.Steps.Sizes.{IsBounded}
use chronometrics.Buffer.Steps.Bounds.{Step-IsBounded, start-new-IsBounded}
use chronometrics.Buffer.Steps.Order.{
  held, LateIs, IsOrdered, at_runner, with_buffer, receive_from-IsOrdered, tick_at-IsOrdered,
  notice_done_at-IsOrdered, drain_step_at-IsOrdered,
}

LateIs-admit :
    (r : Runner) (ch late : List Event) (ev : Event)
    → LateIs r ch late
    → LateIs r (ch ++ ev ∷ []) (note_late r ev late)
LateIs-admit exited ch late ev h = ap (λ l. l ++ ev ∷ []) h
LateIs-admit _ ch late ev h = h

admit-IsOrdered :
    (w : World) (ev : Event) (b : Buffer)
    → publish false ev w.buffer ≡ (b, none)
    → IsOrdered w
    → IsOrdered (record w {
      buffer = b;
      accepted = w.accepted ++ ev ∷ [];
      late = note_late w.runner ev w.late;
    })
unfolding publish
admit-IsOrdered w ev b q h = elim (Bool-cases (ltb (length w.ch) w.capacity)) [
  | inl room ↦
      subst
        (λ b. IsOrdered (record w {
          buffer = b;
          accepted = w.accepted ++ ev ∷ [];
          late = note_late w.runner ev w.late;
        }))
        (ap (λ r. r.0) (rw room at q))
        (record {
          order =
              ap (◌++◌ (flatten w.dispatched)) (sym (append_assoc (held w.runner) w.ch (ev ∷ [])))
              ∙ sym (append_assoc (flatten w.dispatched) (held w.runner ++ w.ch) (ev ∷ []))
              ∙ ap (λ l. l ++ ev ∷ []) h.order;
          queue = h.queue;
          ledger = h.ledger;
          tail = LateIs-admit w.runner w.ch w.late ev h.tail;
        })
  | inr full ↦ absurd (ground arith)
]

LateIs-after : (to : Next) (c late : List Event) → late ≡ [] → LateIs (after to) c late
LateIs-after resume c late h = h
LateIs-after drain c late h = h

pub held-after : (to : Next) → held (after to) ≡ []
held-after resume = refl
held-after drain = refl

send_at-IsOrdered :
    (w : World) (t : Buffer) (r : Runner)
    → send_at w.buffer r ≡ some t
    → IsOrdered (at_runner w r w.ch)
    → IsOrdered (record w { buffer = t; dispatched = sent_by r w.dispatched })
send_at-IsOrdered w t (sending out to) q h = elim (Bool-cases (ltb (length w.flush_trigger) 4)) [
  | inl room ↦
      subst (λ b. IsOrdered (record w { buffer = b; dispatched = w.dispatched ++ out ∷ [] }))
        (some_inj.0 (rw room at q))
        (record {
          order =
              rw
                (
                  flatten-append w.dispatched (out ∷ []),
                  held-after to,
                  append-nil out,
                  append_assoc (flatten w.dispatched) out w.ch,
                )
                h.order;
          queue =
              sym (append_assoc w.taken w.flush_trigger (out ∷ []))
              ∙ ap (λ l. l ++ out ∷ []) h.queue;
          ledger = h.ledger;
          tail = LateIs-after to w.ch w.late h.tail;
        })
  | inr none_left ↦ absurd (ground arith)
]
send_at-IsOrdered w t _ q h = cc

take_batch_at-IsOrdered :
    (w : World) (t : Buffer) (idle : ℕ) (queue rest : List (List Event)) (batch : List Event)
    → queue ≡ batch ∷ rest
    → take_batch_at w.buffer idle queue ≡ some t
    → IsOrdered (record w { buffer = record w.buffer { flush_trigger = queue } })
    → IsOrdered (record w { buffer = t; taken = w.taken ++ batch ∷ [] })
take_batch_at-IsOrdered w t zero queue rest batch e q h = cc
take_batch_at-IsOrdered w t (suc idle) [] rest batch e q h = cc
take_batch_at-IsOrdered w t (suc idle) (x ∷ xs) rest batch e q h =
    subst (λ b. IsOrdered (record w { buffer = b; taken = w.taken ++ batch ∷ [] })) (some_inj.0 q)
      (record {
        order = h.order;
        queue = rw (append_assoc w.taken (batch ∷ []) xs) (cc h.queue);
        ledger =
            Perm.trans (Perm.cons' (cc) h.ledger) (Perm.symm (perm_append_singleton batch w.taken));
        tail = h.tail;
      })

-- A batch moves from those in flight to any place among the finished ones.
finish_write-ledger :
    (before behind xs ys taken : List (List Event)) (batch : List Event)
    → Perm ((before ++ batch ∷ behind) ++ (xs ++ ys)) taken
    → Perm ((before ++ behind) ++ (xs ++ batch ∷ ys)) taken
finish_write-ledger before behind xs ys taken batch h =
    Perm.trans placed (Perm.trans (Perm.symm taken_out) h)
  where
    taken_out :
        Perm ((before ++ batch ∷ behind) ++ (xs ++ ys)) (batch ∷ (before ++ (behind ++ (xs ++ ys))))
    taken_out =
        rw (append_assoc before (batch ∷ behind) (xs ++ ys))
          (perm_middle before (behind ++ (xs ++ ys)))

    regroup : ((before ++ behind) ++ xs) ++ ys ≡ before ++ (behind ++ (xs ++ ys))
    regroup = simp append_assoc

    placed :
        Perm ((before ++ behind) ++ (xs ++ batch ∷ ys)) (batch ∷ (before ++ (behind ++ (xs ++ ys))))
    placed =
        rw (← regroup, ← append_assoc (before ++ behind) xs (batch ∷ ys))
          (perm_middle ((before ++ behind) ++ xs) ys)

finish_flushed-IsOrdered :
    (w : World) (before behind : List (List Event)) (batch : List Event)
    → w.in_flight ≡ before ++ batch ∷ behind
    → IsOrdered w
    → IsOrdered (record w {
      buffer = finish_write before behind w.buffer;
      flushed = w.flushed ++ batch ∷ [];
    })
unfolding finish_write
finish_flushed-IsOrdered w before behind batch q h = record {
  order = h.order;
  queue = h.queue;
  ledger = rw (append_assoc w.flushed (batch ∷ []) w.dropped) (
      finish_write-ledger before behind w.flushed w.dropped w.taken batch
        (subst (λ l. Perm (l ++ (w.flushed ++ w.dropped)) w.taken) q h.ledger));
  tail = h.tail;
}

finish_dropped-IsOrdered :
    (w : World) (before behind : List (List Event)) (batch : List Event)
    → w.in_flight ≡ before ++ batch ∷ behind
    → IsOrdered w
    → IsOrdered (record w {
      buffer = finish_write before behind w.buffer;
      dropped = w.dropped ++ batch ∷ [];
    })
unfolding finish_write
finish_dropped-IsOrdered w before behind batch q h = record {
  order = h.order;
  queue = h.queue;
  ledger = rw (← append_assoc w.flushed w.dropped (batch ∷ [])) (
      finish_write-ledger before behind (w.flushed ++ w.dropped) [] w.taken batch (
        rw (append-nil (w.flushed ++ w.dropped))
          (subst (λ l. Perm (l ++ (w.flushed ++ w.dropped)) w.taken) q h.ledger)));
  tail = h.tail;
}

stop_worker_at-IsOrdered :
    (w : World) (t : Buffer) (idle : ℕ) (queue : List (List Event)) (r : Runner)
    → stop_worker_at w.buffer idle queue r ≡ some t
    → IsOrdered w
    → IsOrdered (with_buffer w t)
stop_worker_at-IsOrdered w t (suc idle) [] exited q h =
    subst (λ b. IsOrdered (with_buffer w b)) (some_inj.0 q)
      (record { order = h.order; queue = h.queue; ledger = h.ledger; tail = h.tail })
stop_worker_at-IsOrdered w t _ _ _ q h = cc

Step-IsOrdered : {w t : World} → Step w t → IsBounded w.buffer → IsOrdered w → IsOrdered t
unfolding receive tick notice_done send drain_step take_batch stop_worker close
Step-IsOrdered (admit w ev b q) s h = admit-IsOrdered w ev b q h
Step-IsOrdered (received w b q) s h = receive_from-IsOrdered w b w.runner w.ch q h
Step-IsOrdered (ticked w b q) s h = tick_at-IsOrdered w b w.runner q h
Step-IsOrdered (noticed w b q) s h = notice_done_at-IsOrdered w b w.runner w.done q h
Step-IsOrdered (sent w b q) s h = send_at-IsOrdered w b w.runner q h
Step-IsOrdered (drained_one w b q) s h = drain_step_at-IsOrdered w b w.runner w.ch q s.sized h
Step-IsOrdered (took w b batch rest f q) s h =
    take_batch_at-IsOrdered w b w.idle_workers w.flush_trigger rest batch f q h
Step-IsOrdered (wrote w before behind batch q) s h =
    finish_flushed-IsOrdered w before behind batch q h
Step-IsOrdered (gave_up w before behind batch q) s h =
    finish_dropped-IsOrdered w before behind batch q h
Step-IsOrdered (stopped w b q) s h =
    stop_worker_at-IsOrdered w b w.idle_workers w.flush_trigger w.runner q h
Step-IsOrdered (closed w) s h = record {
  order = h.order;
  queue = h.queue;
  ledger = h.ledger;
  tail = h.tail;
}

-- The start of a history.
initial-IsOrdered :
    (cfg : BufferConfig) (given : Bool) → IsOrdered (initial (start cfg given (new cfg)))
unfolding initial start new
initial-IsOrdered cfg false = record { order = refl; queue = refl; ledger = Perm.nil; tail = refl }
initial-IsOrdered cfg true = elim (Bool-cases (leb_ℤ (ticker_interval cfg) (pos 0))) [
  | inl bad ↦ rw bad (record { order = refl; queue = refl; ledger = Perm.nil; tail = refl })
  | inr good ↦ rw good (record { order = refl; queue = refl; ledger = Perm.nil; tail = refl })
]

-- Both invariants, after any steps.
pub Reach-both :
    {w t : World} → IsBounded w.buffer → IsOrdered w → Reach w t → IsBounded t.buffer × IsOrdered t
Reach-both b h here = (b, h)
Reach-both b h (more r s) =
    let (b', h') = Reach-both b h r in (Step-IsBounded s b', Step-IsOrdered s b' h')

-- From a new buffer, in any interleaving: the events of the batches sent, then those that
-- `runFlush` holds, then those in the channel are the accepted events in their order, each once;
-- the batches taken by workers and then those queued are the batches sent, in their order; and the
-- batches taken are those being written, written, or given up, each once.
pub run-IsOrdered :
    (cfg : BufferConfig) (given : Bool) (t : World)
    → Reach (initial (start cfg given (new cfg))) t
    → IsOrdered t
unfolding initial
run-IsOrdered cfg given t r =
    (Reach-both (start-new-IsBounded cfg given) (initial-IsOrdered cfg given) r).1
