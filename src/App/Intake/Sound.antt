-- ===== src/App/Intake/Sound.antt =====
-- What is in the database: only rows of complete events within the time window, each with the hash of
-- its own payload (internal/ingest/usecase.go, internal/domain/event.go, internal/repository/insert.go).
use mathlib.Core.List.{append_cancel_left}
use chronometrics.Common.{
  ℕ, ◌+◌, ◌/◌, ◌≤◌, ◌≡◌, refl, sym, ap, ◌∙◌, subst, inl, inr, true, false, none, [], ◌∷◌, ◌++◌,
  arith, ltb, Bool-cases, length, All, map, is_blank,
}
use chronometrics.Common.Int.{ℤ, pos, negsuc, i64_max, IsInt64}
use chronometrics.Domain.Json.{Platform, Result-cases, ok}
use chronometrics.Domain.Event.{Event, normalize_timestamp}
use chronometrics.Domain.Event.Window.{IsAcceptable, InWindow, normalize_timestamp-pos}
use chronometrics.Domain.Payload.{
  priority_text, compute_payload_hash, metadata_text, build_event, to_event,
}
use chronometrics.Config.Types.{BufferConfig}
use chronometrics.Buffer.{Buffer, new, start, publish}
use chronometrics.Ingest.Gate.{ingest_accepts}
use chronometrics.Buffer.Steps.{
  World, initial, Step, admit, received, ticked, noticed, sent, drained_one, took, wrote, gave_up,
  stopped, closed, Reach, here, more,
}
use chronometrics.Buffer.Steps.Content.{Takes, AllTaken, run-Holds}
use chronometrics.Repository.Insert.{row}
use chronometrics.App.Writes.{Database, Obeys, database}
use chronometrics.App.Writes.Stored.{run-database}
use chronometrics.App.Intake.{Call, IsTimely, Calls, Ingested}

-- `Publish` put the event at the end of the channel.
publish_puts :
    (ev : Event) (b b' : Buffer) → publish false ev b ≡ (b', none) → b'.ch ≡ b.ch ++ ev ∷ []
unfolding publish
publish_puts ev b b' q = elim (Bool-cases (ltb (length b.ch) b.capacity)) [
  | inl room ↦ sym (ap (λ x. x.0.ch) (rw room at q))
  | inr full ↦ absurd (ground arith)
]

module _ (p : Platform) (f q since until : ℕ) where
  -- An event with a name, a user, a time within the windows of some reading of the clock, and the
  -- hash of its own payload.
  pub record IsSound (ev : Event) : Type 0 where
    pub name_given : is_blank ev.event_name ≡ false
    pub name_short : length ev.event_name ≤ 100
    pub user_given : is_blank ev.user_id ≡ false
    pub recent : since ≤ ev.timestamp_ms + q / 1000000
    pub not_ahead : ev.timestamp_ms ≤ until + f / 1000000
    pub hashed :
        ev.payload_hash
        ≡ compute_payload_hash p ev.channel ev.campaign_id ev.tags
            (priority_text ev.priority)
            ev.metadata

  window_time :
      (now : ℕ) (t : ℤ)
      → since ≤ now
      → now ≤ until
      → IsInt64 t
      → InWindow now t f q
      → (since ≤ normalize_timestamp t + q / 1000000)
        × (normalize_timestamp t ≤ until + f / 1000000)
  window_time now (pos t) a b h w = ground (arith, normalize_timestamp-pos t h)
  window_time now (negsuc t) a b h w = absurd w

  -- What an acceptable raw event is converted to.
  to_event-IsSound :
      (c : Call) (ev : Event)
      → IsTimely since until c
      → IsAcceptable c.now c.raw f q
      → to_event p c.raw ≡ ok ev
      → IsSound ev
  unfolding to_event build_event compute_payload_hash
  to_event-IsSound c ev h a e = elim (Result-cases (metadata_text p c.raw.metadata)) [
    | inr (x, m) ↦ absurd (ground (arith, (rw (m, to_event) at e)))
    | inl (text, m) ↦
        let made : build_event p c.raw text ≡ ev = ground (arith, (rw (m, to_event) at e)) in
        let (recent, not_ahead) =
          window_time c.now c.raw.timestamp h.after h.before h.stamp a.in_window in
        subst IsSound made (record {
          name_given = a.name_given;
          name_short = a.name_short;
          user_given = a.user_given;
          recent = recent;
          not_ahead = not_ahead;
          hashed = refl;
        })
  ]

  module _ (sane : until ≤ i64_max) (ahead : f ≤ i64_max) (back : q / 1000000 ≤ since) where
    Calls-Takes : {w t : World} (s : Step w t) → Calls p f q since until s → Takes IsSound s
    Calls-Takes (admit w ev b q') (c, (h, e)) =
        let (ev', a, m, live, room, after) =
          ingest_accepts p f q c.now c.cancelled c.raw w.buffer (omega (arith, h.before)) ahead
            (omega (arith, h.after)) h.stamp (ap (λ x. x.1) e) in
        let same : ev' ∷ [] ≡ ev ∷ [] =
          append_cancel_left w.ch (ev' ∷ []) (ev ∷ [])
            (sym (ap (λ x. x.ch) after) ∙ ap (λ x. x.0.ch) e ∙ publish_puts ev w.buffer b q') in
        to_event-IsSound c ev h a (m ∙ ground (arith, same))
    Calls-Takes (received w b q') c = tt
    Calls-Takes (ticked w b q') c = tt
    Calls-Takes (noticed w b q') c = tt
    Calls-Takes (sent w b q') c = tt
    Calls-Takes (drained_one w b q') c = tt
    Calls-Takes (took w b batch rest g q') c = tt
    Calls-Takes (wrote w before behind batch q') c = tt
    Calls-Takes (gave_up w before behind batch q') c = tt
    Calls-Takes (stopped w b q') c = tt
    Calls-Takes (closed w) c = tt

    Ingested-AllTaken :
        {w t : World} (r : Reach w t) → Ingested p f q since until r → AllTaken IsSound r
    Ingested-AllTaken here i = tt
    Ingested-AllTaken (more r s) (i, c) = (Ingested-AllTaken r i, Calls-Takes s c)

    -- In any run of a started buffer whose events all come from calls of `Ingest`, with windows of `f`
    -- nanoseconds ahead and `q` back, at readings of the clock between `since` and `until`, with the
    -- windows in range and starting after 1970, and whose writes go through `flushWithRetry` and
    -- `Flush` to any databases: the rows that the databases have acknowledged, over all attempts of all
    -- writes, are exactly those of the batches written, each whole and once, in the order of the
    -- writes; and each event of these batches has a name that is not blank, of at most 100 bytes, a
    -- user id that is not blank, a time not before `since` less the window back nor after `until` plus
    -- the window ahead, and the hash of its own payload.
    pub database-IsSound :
        (cfg : BufferConfig) (Allowed : Database → Type 0) (t : World)
        (r : Reach (initial (start cfg true (new cfg))) t) (o : Obeys cfg Allowed r)
        → Ingested p f q since until r
        → (database cfg Allowed r o ≡ map (map row) t.flushed) × All (All IsSound) t.flushed
    database-IsSound cfg Allowed t r o i =
        let (all, h) = run-Holds IsSound cfg true t r (Ingested-AllTaken r i) in
        (run-database cfg Allowed t r o, h.written)
