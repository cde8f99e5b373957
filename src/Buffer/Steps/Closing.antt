-- ===== src/Buffer/Steps/Closing.antt =====
-- After `Close`, the goroutines end (internal/buffer/buffer.go).
use chronometrics.Common.{ℕ, zero, suc, ◌≤◌, ◌≡◌, refl, ◌∙◌, inl, inr, true, arith}
use chronometrics.Config.Types.{BufferConfig}
use chronometrics.Buffer.{new, start}
use chronometrics.Buffer.Steps.{World, initial, Step, Reach, here, more}
use chronometrics.Buffer.Steps.Sizes.{IsBounded}
use chronometrics.Buffer.Steps.Bounds.{Step-IsBounded, run-IsBounded}
use chronometrics.Buffer.Steps.Ended.{Ended, Step-Ended, Reach-Ended, initial-Ended}
use chronometrics.Buffer.Steps.Work.{work_left}
use chronometrics.Buffer.Steps.Progress.{is_started, IsFinished, progress}

abbrev pub steps : {w t : World} → Reach w t → ℕ
steps here = 0
steps (more r s) = suc (steps r)

prepend : {w u t : World} → Step w u → Reach u t → Reach w t
prepend s here = more here s
prepend s (more r s') = more (prepend s r) s'

steps-prepend : {w u t : World} (s : Step w u) (r : Reach u t) → steps (prepend s r) ≡ suc (steps r)
unfolding prepend
steps-prepend s here = refl
steps-prepend s (more r s') = omega (arith, steps-prepend s r)

-- A run to the end, of at most as many steps as there is work left.
pub record Finishes (w : World) : Type 0 where
  pub last : World
  pub run : Reach w last
  pub short : steps run ≤ work_left w.buffer
  pub finished : IsFinished last
  pub same_accepted : last.accepted ≡ w.accepted

finish_from :
    (n : ℕ) (w : World)
    → work_left w.buffer ≤ n
    → IsBounded w.buffer
    → Ended w.buffer
    → w.done ≡ true
    → is_started w.runner ≡ true
    → Finishes w
finish_from zero w m h k d s = elim (progress w d s h k) [
  | inl a ↦ absurd (omega (arith, a.falls))
  | inr f ↦ record { last = w; run = here; short = omega arith; finished = f; same_accepted = refl }
]
finish_from (suc n) w m h k d s = elim (progress w d s h k) [
  | inr f ↦ record { last = w; run = here; short = omega arith; finished = f; same_accepted = refl }
  | inl a ↦
      let f =
        finish_from n a.next (omega (arith, a.falls)) (Step-IsBounded a.step h)
          (Step-Ended a.step k) a.still_done a.still_started in
      record {
        last = f.last;
        run = prepend a.step f.run;
        short = omega (arith, steps-prepend a.step f.run, f.short, a.falls);
        finished = f.finished;
        same_accepted = f.same_accepted ∙ a.same_accepted;
      }
]

-- From every state of a started buffer in which `Close` was called, `runFlush` and the workers can
-- go on without any further `Publish` until they have all ended, so that `Close` returns, in at
-- most as many steps as there is work left; they are never blocked for good.
pub close-Finishes :
    (cfg : BufferConfig) (w : World)
    → Reach (initial (start cfg true (new cfg))) w
    → w.done ≡ true
    → is_started w.runner ≡ true
    → Finishes w
unfolding initial
close-Finishes cfg w r d s =
    finish_from (work_left w.buffer) w (omega arith) (run-IsBounded cfg true w r)
      (Reach-Ended (initial-Ended cfg true) r) d s
