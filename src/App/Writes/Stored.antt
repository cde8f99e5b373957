-- ===== src/App/Writes/Stored.antt =====
-- What is in the database after a run (internal/buffer/buffer.go, internal/repository/insert.go).
use mathlib.Core.List.{Perm, append-nil, append_assoc, map-append}
use mathlib.Core.List.Perm
use chronometrics.Common.{
  ℕ, zero, suc, ◌<◌, ◌≡◌, ◌≢◌, refl, sym, ap, ◌∙◌, ◌⊎◌, inl, inr, true, Option, none, some,
  Option-cases, List, [], ◌∷◌, ◌++◌, map, arith, length, All, subst, flatten,
}
use chronometrics.Errors.{Error}
use chronometrics.Domain.Event.{Event}
use chronometrics.Config.Types.{BufferConfig}
use chronometrics.Buffer.{new, start}
use chronometrics.Buffer.Retry.{
  rounds, first_backoff, next_backoff, flush_timeout, flush_attempts, flush_with_retry,
}
use chronometrics.Buffer.Retry.Attempts.{rounds-pos}
use chronometrics.Buffer.Steps.{
  World, initial, Step, admit, received, ticked, noticed, sent, drained_one, took, wrote, gave_up,
  stopped, closed, Reach, here, more,
}
use chronometrics.Buffer.Steps.Sizes.{IsBatch, IsBounded}
use chronometrics.Buffer.Steps.Bounds.{start-new-IsBounded, Reach-IsBounded}
use chronometrics.Repository.Insert.{Row, BatchApi, row, flush}
use chronometrics.Repository.Insert.Whole.{flush_whole}
use chronometrics.App.Writes.{
  Database, write, Writes, Obeys, committed, gather, attempted, written_rows, step_rows, database,
}

-- A success left the rows, and an error left nothing.
abbrev WholeOrNone : List Row → Option Error → List (List Row) → Type 0
WholeOrNone rows result left =
    ((result ≡ none) × (left ≡ rows ∷ [])) ⊎ ((result ≢ none) × (left ≡ []))

some_ne : {result : Option Error} {x : Error} → result ≡ some x → result ≢ none
some_ne e f = ground (arith, e, f)

-- `Flush` of a batch that is not empty.
flush-WholeOrNone :
    (api : BatchApi) (batch : List Event)
    → 0 < length batch
    → WholeOrNone (map row batch) (flush api batch).result (committed api (flush api batch))
flush-WholeOrNone api batch n = elim (flush_whole api batch) [
  | inl (a, b, c) ↦ elim (Option-cases (api.send (map row batch))) [
    | inl e ↦ inl (b ∙ e, rw (a, e) refl)
    | inr (x, e) ↦ inr (some_ne (b ∙ e), rw (a, e) refl)
  ]
  | inr (inl (x, a, b, c)) ↦ inr (some_ne b, rw a refl)
  | inr (inr (a, b, c, d)) ↦ absurd (ground (arith, n, a))
]

-- The attempts leave the rows once if one succeeds, and else nothing, where those before left nothing.
flush_attempts-WholeOrNone :
    (rows : List Row) (outcome : ℕ → Option Error) (f : ℕ → List (List Row))
    → ((j : ℕ) → WholeOrNone rows (outcome j) (f j))
    → (left i backoff : ℕ) (last : Option Error) → (left ≡ 0 → last ≢ none)
    → gather f i ≡ []
    → let r = flush_attempts outcome left i backoff last in
      WholeOrNone rows r.result (gather f r.attempts)
unfolding flush_attempts
flush_attempts-WholeOrNone rows outcome f h zero i backoff last tried clean =
    inr (tried refl, clean)
flush_attempts-WholeOrNone rows outcome f h (suc left) i backoff last tried clean =
    elim (Option-cases (outcome i)) [
      | inl e ↦ elim (h i) [
        | inl (a, b) ↦ rw (e, flush_attempts) (inl (refl, rw (clean, b) refl))
        | inr (a, b) ↦ absurd (a e)
      ]
      | inr (x, e) ↦ elim (h i) [
        | inl (a, b) ↦ absurd (some_ne e a)
        | inr (a, b) ↦
            rw (e, flush_attempts)
              (flush_attempts-WholeOrNone rows outcome f h left (suc i) (next_backoff backoff)
                (some x) (λ z. some_ne refl) (rw (clean, b) refl))
      ]
    ]

-- A write without an error left the rows of all of the batch's events, once; a write with an error
-- left nothing.
write-WholeOrNone :
    (cfg : BufferConfig) (db : Database) (batch : List Event)
    → 0 < length batch
    → WholeOrNone (map row batch) (write cfg db batch) (written_rows cfg db batch)
unfolding write written_rows flush_with_retry
write-WholeOrNone cfg db batch n =
    let (k, e) = rounds-pos cfg.flush_retries in
    flush_attempts-WholeOrNone (map row batch)
      (λ i. (flush (db (flush_timeout cfg) i) batch).result) (attempted cfg db batch)
      (λ j. flush-WholeOrNone (db (flush_timeout cfg) j) batch n) (rounds cfg.flush_retries) 0
      first_backoff none (λ z. absurd (omega (arith, z, e))) refl

All-middle : {A : Type 0} (P : A → Type 0) (xs ys : List A) (x : A) → All P (xs ++ x ∷ ys) → P x
All-middle P [] ys x h = h.0
All-middle P (z ∷ zs) ys x h = All-middle P zs ys x h.1

-- A batch in flight is not empty.
pub writing-pos :
    (w : World) (before behind : List (List Event)) (batch : List Event)
    → w.in_flight ≡ before ++ batch ∷ behind
    → IsBounded w.buffer
    → 0 < length batch
writing-pos w before behind batch q h =
    (All-middle (IsBatch w.batch_size) before behind batch
      (subst (All (IsBatch w.batch_size)) q h.writing)).0

abbrev all_rows : List (List Event) → List (List Row)
all_rows = map (map row)

-- The rows of batches, one after another.
pub flatten-rows : (xss : List (List Event)) → flatten (map (map row) xss) ≡ map row (flatten xss)
flatten-rows [] = refl
flatten-rows (xs ∷ xss) =
    ap (◌++◌ (map row xs)) (flatten-rows xss) ∙ sym (map-append row xs (flatten xss))

-- Where the batches written hold some events, the rows written are those of the events.
pub rows_of :
    (xss : List (List Event)) (evs : List Event) (rows : List (List Row))
    → Perm (flatten xss) evs
    → rows ≡ map (map row) xss
    → Perm (flatten rows) (map row evs)
rows_of xss evs rows p e =
    subst (λ l. Perm l (map row evs)) (sym (ap flatten e ∙ flatten-rows xss)) (Perm.map row p)

module _ (cfg : BufferConfig) (Allowed : Database → Type 0) where
  Step-database :
      {w t : World} (s : Step w t) (x : Writes cfg Allowed s)
      → IsBounded w.buffer
      → all_rows t.flushed ≡ all_rows w.flushed ++ step_rows cfg Allowed s x
  Step-database (wrote w before behind batch q) (db, (a, e)) h =
      elim (write-WholeOrNone cfg db batch (writing-pos w before behind batch q h)) [
        | inl (b, c) ↦ rw c (map-append (map row) w.flushed (batch ∷ []))
        | inr (b, c) ↦ absurd (b e)
      ]
  Step-database (gave_up w before behind batch q) (db, (a, e)) h =
      elim (write-WholeOrNone cfg db batch (writing-pos w before behind batch q h)) [
        | inl (b, c) ↦ absurd (e b)
        | inr (b, c) ↦ rw (c, append-nil (all_rows w.flushed)) refl
      ]
  Step-database (admit w ev b q) x h = sym (append-nil (all_rows w.flushed))
  Step-database (received w b q) x h = sym (append-nil (all_rows w.flushed))
  Step-database (ticked w b q) x h = sym (append-nil (all_rows w.flushed))
  Step-database (noticed w b q) x h = sym (append-nil (all_rows w.flushed))
  Step-database (sent w b q) x h = sym (append-nil (all_rows w.flushed))
  Step-database (drained_one w b q) x h = sym (append-nil (all_rows w.flushed))
  Step-database (took w b batch rest f q) x h = sym (append-nil (all_rows w.flushed))
  Step-database (stopped w b q) x h = sym (append-nil (all_rows w.flushed))
  Step-database (closed w) x h = sym (append-nil (all_rows w.flushed))

  -- A run adds to the database the batches that it wrote.
  pub Reach-database :
      {w t : World} (r : Reach w t) (o : Obeys cfg Allowed r)
      → IsBounded w.buffer
      → map (map row) t.flushed ≡ map (map row) w.flushed ++ database cfg Allowed r o
  Reach-database {w = w} here o h = sym (append-nil (all_rows w.flushed))
  Reach-database {w = w} (more {t = u} r s) (o, x) h =
      Step-database s x (Reach-IsBounded h r)
      ∙ ap (λ l. l ++ step_rows cfg Allowed s x) (Reach-database r o h)
      ∙ append_assoc (all_rows w.flushed) (database cfg Allowed r o) (step_rows cfg Allowed s x)

  pub run-database :
      (t : World) (r : Reach (initial (start cfg true (new cfg))) t) (o : Obeys cfg Allowed r)
      → database cfg Allowed r o ≡ map (map row) t.flushed
  unfolding initial
  run-database t r o = sym (Reach-database r o (start-new-IsBounded cfg true))
