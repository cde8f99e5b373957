-- ===== src/Buffer/Steps/Later.antt =====
-- What stands before the events that are late (internal/buffer/buffer.go).
use mathlib.Core.List.{append-nil, append_assoc}
use chronometrics.Common.{
  ◌+◌, ◌≤◌, ◌<◌, ◌≡◌, ◌≢◌, refl, sym, ap, ◌∙◌, true, false, none, List, [], ◌∷◌, ◌++◌, arith, ltb,
  length, length-append, append_prefix,
}
use chronometrics.Domain.Event.{Event}
use chronometrics.Buffer.{
  Buffer, Runner, not_started, collecting, sending, draining, exited, crashed, publish,
}
use chronometrics.Buffer.Steps.{
  World, note_late, Step, admit, received, ticked, noticed, sent, drained_one, took, wrote, gave_up,
  stopped, closed, Reach, here, more,
}
use chronometrics.Buffer.Steps.Order.{LateIs, IsOrdered}

pub note_late-ne :
    (r : Runner) (ev : Event) (late : List Event) → r ≢ exited → note_late r ev late ≡ late
note_late-ne not_started ev late h = refl
note_late-ne (collecting batch) ev late h = refl
note_late-ne (sending out to) ev late h = refl
note_late-ne (draining batch) ev late h = refl
note_late-ne crashed ev late h = refl
note_late-ne exited ev late h = absurd (h refl)

LateIs-ne : (r : Runner) (ch late : List Event) → r ≢ exited → LateIs r ch late → late ≡ []
LateIs-ne not_started ch late h l = l
LateIs-ne (collecting batch) ch late h l = l
LateIs-ne (sending out to) ch late h l = l
LateIs-ne (draining batch) ch late h l = l
LateIs-ne crashed ch late h l = l
LateIs-ne exited ch late h l = absurd (h refl)

-- `Publish` where there is room.
pub publish_room :
    (ev : Event) (b : Buffer)
    → length b.ch < b.capacity
    → publish false ev b ≡ (record b { ch = b.ch ++ ev ∷ [] }, none)
unfolding publish
publish_room ev b h = let room : ltb (length b.ch) b.capacity ≡ true = ground arith in rw room refl

-- In a run, events are accepted behind the others, and of these at most the new ones are late.
record Grown (w t : World) : Type 0 where
  behind : List Event
  grown : t.accepted ≡ w.accepted ++ behind
  few : length t.late ≤ length w.late + length behind

Grown-same : (w t : World) → t.accepted ≡ w.accepted → t.late ≡ w.late → Grown w t
Grown-same w t a l = record {
  behind = [];
  grown = a ∙ sym (append-nil w.accepted);
  few = omega (arith, ap length l);
}

note_late_few :
    (r : Runner) (ev : Event) (late : List Event) → length (note_late r ev late) ≤ length late + 1
note_late_few exited ev late = omega (arith, length-append late (ev ∷ []))
note_late_few not_started ev late = omega arith
note_late_few (collecting batch) ev late = omega arith
note_late_few (sending out to) ev late = omega arith
note_late_few (draining batch) ev late = omega arith
note_late_few crashed ev late = omega arith

Step-Grown : {w t : World} → Step w t → Grown w t
Step-Grown (admit w ev b q) = record {
  behind = ev ∷ [];
  grown = refl;
  few = note_late_few w.runner ev w.late;
}
Step-Grown (received w b q) = Grown-same w _ refl refl
Step-Grown (ticked w b q) = Grown-same w _ refl refl
Step-Grown (noticed w b q) = Grown-same w _ refl refl
Step-Grown (sent w b q) = Grown-same w _ refl refl
Step-Grown (drained_one w b q) = Grown-same w _ refl refl
Step-Grown (took w b batch rest f q) = Grown-same w _ refl refl
Step-Grown (wrote w before behind batch q) = Grown-same w _ refl refl
Step-Grown (gave_up w before behind batch q) = Grown-same w _ refl refl
Step-Grown (stopped w b q) = Grown-same w _ refl refl
Step-Grown (closed w) = Grown-same w _ refl refl

Reach-Grown : {w t : World} → Reach w t → Grown w t
Reach-Grown {w} here = Grown-same w w refl refl
Reach-Grown {w} {t} (more r s) =
    let g = Reach-Grown r in
    let h = Step-Grown s in
    record {
      behind = g.behind ++ h.behind;
      grown = h.grown ∙ ap (λ l. l ++ h.behind) g.grown ∙ append_assoc w.accepted g.behind h.behind;
      few = omega (arith, g.few, h.few, length-append g.behind h.behind);
    }

-- What was accepted before `runFlush` had ended stands before all late events.
pub before_late :
    (w t : World) (sent_events : List Event)
    → IsOrdered w
    → w.runner ≢ exited
    → Reach w t
    → sent_events ++ t.late ≡ t.accepted
    → (others : List Event) × (sent_events ≡ w.accepted ++ others)
before_late w t sent_events o live r e =
    let g = Reach-Grown r in
    append_prefix sent_events t.late w.accepted g.behind (e ∙ g.grown)
      (omega (arith, g.few, ap length (LateIs-ne w.runner w.ch w.late live o.tail)))
