-- ===== src/Buffer/Steps/Order.antt =====
-- What becomes of an event that `Publish` accepts (internal/buffer/buffer.go).
use mathlib.Core.List.{append_assoc, Perm}
use mathlib.Core.Option.{some_inj}
use chronometrics.Common.{
  ℕ, ◌≤◌, ◌<◌, ◌≡◌, refl, sym, ap, ◌∙◌, subst, inl, inr, Bool, true, some, List, [], ◌∷◌, ◌++◌,
  arith, ltb, leb, Bool-cases, length, flatten,
}
use chronometrics.Domain.Event.{Event}
use chronometrics.Buffer.{
  Next, resume, drain, Buffer, Runner, collecting, sending, draining, exited, dispatch, drained,
  receive_from, tick_at, notice_done_at, drain_step_at,
}
use chronometrics.Buffer.Steps.{World}

-- The events that `runFlush` holds.
abbrev pub held : Runner → List Event
held (collecting batch) = batch
held (sending out to) = out
held (draining batch) = batch
held _ = []

-- The events that are late: all that stand in the channel once `runFlush` has returned.
abbrev pub LateIs : Runner → List Event → List Event → Type 0
LateIs exited ch late = ch ≡ late
LateIs _ ch late = late ≡ []

pub record IsOrdered (w : World) : Type 0 where
  pub order : flatten w.dispatched ++ (held w.runner ++ w.ch) ≡ w.accepted
  pub queue : w.taken ++ w.flush_trigger ≡ w.dispatched
  pub ledger : Perm (w.in_flight ++ (w.flushed ++ w.dropped)) w.taken
  pub tail : LateIs w.runner w.ch w.late

pub held-dispatch : (batch : List Event) (to : Next) → held (dispatch batch to) ≡ batch
unfolding dispatch
held-dispatch [] resume = refl
held-dispatch [] drain = refl
held-dispatch (e ∷ es) to = refl

pub held-drained : (batch : List Event) → held (drained batch) ≡ batch
unfolding drained
held-drained [] = refl
held-drained (e ∷ es) = refl

LateIs-dispatch :
    (batch : List Event) (to : Next) (ch late : List Event)
    → late ≡ []
    → LateIs (dispatch batch to) ch late
unfolding dispatch
LateIs-dispatch [] resume ch late h = h
LateIs-dispatch [] drain ch late h = h
LateIs-dispatch (e ∷ es) to ch late h = h

-- A step of `runFlush` that keeps the history: the events that it holds and the channel are the
-- same sequence as before.
pub runner_step-IsOrdered :
    (w : World) (r : Runner) (c : List Event)
    → IsOrdered w
    → held r ++ c ≡ held w.runner ++ w.ch
    → LateIs r c w.late
    → IsOrdered (record w { buffer = record w.buffer { runner = r; ch = c } })
runner_step-IsOrdered w r c h e l = record {
  order = ap (λ l. flatten w.dispatched ++ l) e ∙ h.order;
  queue = h.queue;
  ledger = h.ledger;
  tail = l;
}

abbrev pub at_runner : World → Runner → List Event → World
at_runner w r c = record w { buffer = record w.buffer { runner = r; ch = c } }

abbrev pub with_buffer : World → Buffer → World
with_buffer w b = record w { buffer = b }

pub receive_from-IsOrdered :
    (w : World) (t : Buffer) (r : Runner) (c : List Event)
    → receive_from w.buffer r c ≡ some t
    → IsOrdered (at_runner w r c)
    → IsOrdered (with_buffer w t)
receive_from-IsOrdered w t (collecting batch) (e ∷ rest) q h =
    subst (λ b. IsOrdered (with_buffer w b)) (some_inj.0 q)
      (elim (Bool-cases (leb w.batch_size (length (batch ++ e ∷ [])))) [
        | inl full ↦ rw full (
            runner_step-IsOrdered from (dispatch (batch ++ e ∷ []) resume) rest h
              (rw (held-dispatch (batch ++ e ∷ []) resume) (append_assoc batch (e ∷ []) rest))
              (LateIs-dispatch (batch ++ e ∷ []) resume rest w.late h.tail))
        | inr part ↦ rw part (
            runner_step-IsOrdered from (collecting (batch ++ e ∷ [])) rest h
              (append_assoc batch (e ∷ []) rest) h.tail)
      ])
  where
    from : World
    from = at_runner w (collecting batch) (e ∷ rest)
receive_from-IsOrdered w t _ c q h = cc

pub tick_at-IsOrdered :
    (w : World) (t : Buffer) (r : Runner)
    → tick_at w.buffer r ≡ some t
    → IsOrdered (at_runner w r w.ch)
    → IsOrdered (with_buffer w t)
tick_at-IsOrdered w t (collecting batch) q h =
    subst (λ b. IsOrdered (with_buffer w b)) (some_inj.0 q)
      (runner_step-IsOrdered (at_runner w (collecting batch) w.ch) (dispatch batch resume) w.ch h
        (rw (held-dispatch batch resume)) (LateIs-dispatch batch resume w.ch w.late h.tail))
tick_at-IsOrdered w t _ q h = cc

pub notice_done_at-IsOrdered :
    (w : World) (t : Buffer) (r : Runner) (d : Bool)
    → notice_done_at w.buffer r d ≡ some t
    → IsOrdered (at_runner w r w.ch)
    → IsOrdered (with_buffer w t)
notice_done_at-IsOrdered w t (collecting batch) true q h =
    subst (λ b. IsOrdered (with_buffer w b)) (some_inj.0 q)
      (runner_step-IsOrdered (at_runner w (collecting batch) w.ch) (dispatch batch drain) w.ch h
        (rw (held-dispatch batch drain)) (LateIs-dispatch batch drain w.ch w.late h.tail))
notice_done_at-IsOrdered w t _ _ q h = cc

drained-LateIs :
    (n : ℕ) (batch c late : List Event)
    → 0 < n
    → n ≤ length batch
    → late ≡ []
    → LateIs (drained batch) c late
unfolding drained
drained-LateIs n [] c late s h l = absurd (omega arith)
drained-LateIs n (e ∷ es) c late s h l = l

drained_empty-LateIs : (batch late : List Event) → late ≡ [] → LateIs (drained batch) [] late
unfolding drained
drained_empty-LateIs [] late l = sym l
drained_empty-LateIs (e ∷ es) late l = l

pub drain_step_at-IsOrdered :
    (w : World) (t : Buffer) (r : Runner) (c : List Event)
    → drain_step_at w.buffer r c ≡ some t
    → 0 < w.batch_size
    → IsOrdered (at_runner w r c)
    → IsOrdered (with_buffer w t)
drain_step_at-IsOrdered w t (draining batch) [] q s h =
    subst (λ b. IsOrdered (with_buffer w b)) (some_inj.0 q)
      (runner_step-IsOrdered (at_runner w (draining batch) []) (drained batch) [] h
        (rw (held-drained batch)) (drained_empty-LateIs batch w.late h.tail))
drain_step_at-IsOrdered w t (draining batch) (e ∷ rest) q s h =
    subst (λ b. IsOrdered (with_buffer w b)) (some_inj.0 q)
      (elim (Bool-cases (ltb (length batch) w.batch_size)) [
        | inl below ↦ rw below (
            runner_step-IsOrdered from (draining (batch ++ e ∷ [])) rest h
              (append_assoc batch (e ∷ []) rest) h.tail)
        | inr full ↦ rw full (
            runner_step-IsOrdered from (drained batch) (e ∷ rest) h (rw (held-drained batch))
              (drained-LateIs w.batch_size batch (e ∷ rest) w.late s (ground arith) h.tail))
      ])
  where
    from : World
    from = at_runner w (draining batch) (e ∷ rest)
drain_step_at-IsOrdered w t _ c q s h = cc
