-- ===== src/App/Acknowledged.antt =====
-- From a response to the database: what becomes of the events that a response reports as accepted
-- (internal/handler, internal/buffer/buffer.go, internal/repository/insert.go). A request is one
-- step here, so that the goroutines of the buffer do nothing between the events of a bulk request.
use mathlib.Core.List.{append-nil, append_assoc, Perm}
use chronometrics.Common.{
  ℕ, ◌+◌, ◌≤◌, ◌≡◌, ◌≢◌, refl, sym, ap, ◌∙◌, subst, Bool, true, List, [], ◌∷◌, ◌++◌, arith, Text,
  length, length-append, max, drop, drop-append, flatten, flatten-perm, map,
}
use chronometrics.Domain.Event.{Event}
use chronometrics.Config.Types.{BufferConfig}
use chronometrics.Buffer.{Buffer, exited, new, start, wait_over}
use chronometrics.Buffer.Steps.{World, initial, admit, Reach, here, more, join}
use chronometrics.Buffer.Steps.History.{run-IsOrdered}
use chronometrics.Repository.Insert.{row}
use chronometrics.Buffer.Steps.Sizes.{IsBounded}
use chronometrics.Buffer.Steps.Bounds.{run-IsBounded}
use chronometrics.Buffer.Steps.Later.{note_late-ne, publish_room, before_late}
use chronometrics.Ingest.{UseCase}
use chronometrics.Handler.Http.{Request}
use chronometrics.Handler.Admission.{reported}
use chronometrics.Handler.Router.{Site, Handler, serve}
use chronometrics.Handler.Router.Admits.{over_buffer, PlainAnswers, serve-Admits}
use chronometrics.App.Writes.{Database, Obeys, database}
use chronometrics.App.Writes.Stored.{rows_of, run-database, Reach-database}
use chronometrics.App.Writes.Outcomes.{Recovers}
use chronometrics.App.Writes.Shutdown.{shutdown_stores}

-- The world after a request that took the buffer to another: what it added to the channel was
-- accepted.
abbrev pub after_request : World → Buffer → World
after_request w b = record w { buffer = b; accepted = w.accepted ++ drop (length w.ch) b.ch }

abbrev with_events : World → List Event → World
with_events w evs = record w {
  buffer = record w.buffer { ch = w.ch ++ evs };
  accepted = w.accepted ++ evs;
}

after_request-with_events :
    (w : World) (evs : List Event) (b : Buffer)
    → b ≡ record w.buffer { ch = w.ch ++ evs }
    → after_request w b ≡ with_events w evs
after_request-with_events w evs b e = rw (e, drop-append w.ch evs) refl

module _ (cfg : BufferConfig) (Allowed : Database → Type 0) where
  Obeys-join :
      {w u t : World} (r : Reach w u) (r' : Reach u t)
      → Obeys cfg Allowed r
      → Obeys cfg Allowed r'
      → Obeys cfg Allowed (join r r')
  Obeys-join r here o o' = o
  Obeys-join r (more r' s) o (o', x) = (Obeys-join r r' o o', x)

  -- The events are published one after another where there is room for all.
  admit_all :
      (evs : List Event) (w : World)
      → w.runner ≢ exited
      → length w.ch + length evs ≤ w.capacity
      → (r : Reach w (with_events w evs)) × Obeys cfg Allowed r
  admit_all [] w live room =
      subst (λ u. (r : Reach w u) × Obeys cfg Allowed r)
        (rw (append-nil w.ch, append-nil w.accepted) refl) (here, tt)
  admit_all (ev ∷ evs) w live room =
      let one : World = with_events w (ev ∷ []) in
      let (first, o) : (r : Reach w one) × Obeys cfg Allowed r =
        subst (λ u. (r : Reach w u) × Obeys cfg Allowed r)
          (rw (note_late-ne w.runner ev w.late live) refl)
          (
            more here (admit w ev one.buffer (publish_room ev w.buffer (omega (arith, room)))),
            (tt, tt),
          ) in
      let fits : length one.ch + length evs ≤ one.capacity =
        omega (arith, room, length-append w.ch (ev ∷ [])) in
      let (others, o') = admit_all evs one live fits in
      subst (λ u. (r : Reach w u) × Obeys cfg Allowed r)
        (rw (append_assoc w.ch (ev ∷ []) evs, append_assoc w.accepted (ev ∷ []) evs) refl)
        (join first others, Obeys-join first others o o')

-- The service over the in-memory buffer, from `Build` on. A request is answered in a state in which
-- `runFlush` has not ended; later `Close` returns without an error after waiting; and each write, before
-- or after the request, meets a database with which, for any batch, one of the attempts is a
-- success. Then the request has added to the channel as many events as its response reports as
-- accepted, and the rows that the databases have acknowledged at the end, over all attempts of all
-- writes before and after the request, are up to their order the rows of all the events accepted
-- before the request, of those that it added, and of events accepted later, one row for each.
pub serve-database :
    (cfg : BufferConfig) (h : Handler Buffer) (uc : UseCase) (now : ℕ → ℕ) (cancelled : ℕ → Bool)
    (id path : Text) (req : Request) (site : Site Buffer) (w t : World)
    → PlainAnswers h
    → (r₀ : Reach (initial (start cfg true (new cfg))) w) (o₀ : Obeys cfg (Recovers cfg) r₀)
    → w.runner ≢ exited
    → site.inner ≡ w.buffer
    → (r : Reach
        (after_request w (serve (over_buffer uc now cancelled h) id path req site).0.inner)
        t)
      (o : Obeys cfg (Recovers cfg) r)
    → t.runner ≡ exited
    → wait_over t.runner t.stopped_workers ≡ true
    → let x = serve (over_buffer uc now cancelled h) id path req site in
      (added : List Event) × (later : List Event) × (length added ≡ reported x.1)
      × (x.0.inner.ch ≡ w.ch ++ added)
      × Perm
          (flatten (database cfg (Recovers cfg) r₀ o₀ ++ database cfg (Recovers cfg) r o))
          (map row ((w.accepted ++ added) ++ later))
serve-database cfg h uc now cancelled id path req site w t plain r₀ o₀ live same r o e over =
    let x = serve (over_buffer uc now cancelled h) id path req site in
    let (added, (put, count, room)) = serve-Admits h uc now cancelled plain id path req site in
    let put' : x.0.inner ≡ record w.buffer { ch = w.ch ++ added } =
      put ∙ ap (λ (b : Buffer). record b { ch = b.ch ++ added }) same in
    let to_after : after_request w x.0.inner ≡ with_events w added =
      after_request-with_events w added x.0.inner put' in
    let within = (run-IsBounded cfg true w r₀).room in
    let fits : length w.ch + length added ≤ w.capacity = omega (
      arith,
      count,
      within,
      subst (λ (b : Buffer). length b.ch + reported x.1 ≤ max b.capacity (length b.ch)) same room,
    ) in
    let (step, o₁) = admit_all cfg (Recovers cfg) added w live fits in
    let (rest, o₂) : (r' : Reach (with_events w added) t) × Obeys cfg (Recovers cfg) r' =
      subst (λ u. (r' : Reach u t) × Obeys cfg (Recovers cfg) r') to_after (r, o) in
    let before = join r₀ step in
    let o₃ = Obeys-join cfg (Recovers cfg) r₀ step o₀ o₁ in
    let (kept, moved, stored, order) =
      shutdown_stores cfg t (join before rest) (Obeys-join cfg (Recovers cfg) before rest o₃ o₂) e
        over in
    let sized : IsBounded (after_request w x.0.inner).buffer =
      subst (λ u. IsBounded u.buffer) (sym to_after) (run-IsBounded cfg true _ before) in
    let (later, prefix') =
      before_late (with_events w added) t (flatten t.dispatched) (run-IsOrdered cfg true _ before)
        live rest order in
    (
      added,
      later,
      count,
      ap (λ (b : Buffer). b.ch) put',
      rows_of t.flushed ((w.accepted ++ added) ++ later) _
          (subst (Perm (flatten t.flushed)) prefix' (flatten-perm moved))
          (ap (λ l. l ++ database cfg (Recovers cfg) r o) (run-database cfg (Recovers cfg) w r₀ o₀)
            ∙ sym (Reach-database cfg (Recovers cfg) r o sized)),
    )
