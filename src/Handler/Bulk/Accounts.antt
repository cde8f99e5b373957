-- ===== src/Handler/Bulk/Accounts.antt =====
-- The accounts of POST /events/bulk (internal/handler/bulk.go).
use chronometrics.Common.{
  ℕ, suc, ◌+◌, ◌≤◌, ◌<◌, ◌≡◌, refl, ap, ◌∙◌, inl, inr, Bool, Option, none, some, List, [], ◌∷◌,
  ◌++◌, arith, length, length-append, Option-cases,
}
use native.Mathlib.Nat.{add-zero, add-suc, suc-add, zero-add}
use chronometrics.Errors.{Error}
use chronometrics.Domain.Json.{Platform}
use chronometrics.Domain.Event.{RawEvent}
use chronometrics.Buffer.{Buffer}
use chronometrics.Ingest.{UseCase, ingest, buffer_publisher}
use chronometrics.Ingest.Gate.{ingest_rejects, ingest_grows}
use chronometrics.Handler.Http.{BulkItemError, BulkResponse, Counters, Ingester}
use chronometrics.Handler.Adapter.{use_case_adapter}
use chronometrics.Handler.Bulk.{item_failed, bulk_item, bulk_loop, empty_response}

-- The indices of the entries rise from `lo` and stay below `hi`.
abbrev pub IndexedIn : ℕ → ℕ → List BulkItemError → Type 0
IndexedIn lo hi [] = Unit
IndexedIn lo hi (e ∷ es) = (lo ≤ e.index) × (e.index < hi) × IndexedIn (suc e.index) hi es

IndexedIn-mono :
    (lo hi hi' : ℕ) (es : List BulkItemError) → hi ≤ hi' → IndexedIn lo hi es → IndexedIn lo hi' es
IndexedIn-mono lo hi hi' [] h k = tt
IndexedIn-mono lo hi hi' (e ∷ es) h (l, u, rest) =
    (l, omega arith, IndexedIn-mono (suc e.index) hi hi' es h rest)

IndexedIn-append :
    (lo i : ℕ) (es : List BulkItemError) (e : BulkItemError)
    → lo ≤ i
    → e.index ≡ i
    → IndexedIn lo i es
    → IndexedIn lo (suc i) (es ++ e ∷ [])
IndexedIn-append lo i [] e h q k = (omega arith, omega arith, tt)
IndexedIn-append lo i (x ∷ es) e h q (l, u, rest) =
    (l, omega arith, IndexedIn-append (suc x.index) i es e (omega arith) q rest)

-- What is true of the response before the item at index `i`.
record IsAccounted (i : ℕ) (r : BulkResponse) : Type 0 where
  counted : r.accepted + r.rejected ≡ i
  listed : length r.errors ≡ r.rejected
  indexed : IndexedIn 0 i r.errors

index-item_failed :
    (m : Bool) (i : ℕ) (e : Error) (c : Counters) → (item_failed m i e c).1.index ≡ i
unfolding item_failed
index-item_failed m i e c = ground arith

module _ {S : Type 0} (ingester : Ingester S) (m : Bool) where
  bulk_item-IsAccounted :
      (i : ℕ) (e : Option Error) (c : Counters) (r : BulkResponse)
      → IsAccounted i r
      → IsAccounted (suc i) (bulk_item ingester m i e c r).1
  unfolding bulk_item
  bulk_item-IsAccounted i none c r h = record {
    counted = omega (arith, h.counted);
    listed = h.listed;
    indexed = IndexedIn-mono 0 i (suc i) r.errors (omega arith) h.indexed;
  }
  bulk_item-IsAccounted i (some e) c r h = record {
    counted = omega (arith, h.counted);
    listed = omega (arith, h.listed, length-append r.errors ((item_failed m i e c).1 ∷ []));
    indexed =
        IndexedIn-append 0 i r.errors (item_failed m i e c).1 (omega arith)
          (index-item_failed m i e c) h.indexed;
  }

  bulk_loop-IsAccounted :
      (i : ℕ) (evs : List RawEvent) (s : S) (c : Counters) (r : BulkResponse)
      → IsAccounted i r
      → IsAccounted (i + length evs) (bulk_loop ingester m i evs s c r).2
  unfolding bulk_loop
  bulk_loop-IsAccounted i [] s c r h = rw (add-zero i) h
  bulk_loop-IsAccounted i (ev ∷ evs) s c r h =
      let (s', e) = ingester.ingest i ev s in
      let (c', r') = bulk_item ingester m i e c r in
      rw (add-suc i (length evs), ← suc-add i (length evs))
        (bulk_loop-IsAccounted (suc i) evs s' c' r' (bulk_item-IsAccounted i e c r h))

  -- The loop over a bulk request counts every event once as accepted or rejected, lists one error
  -- for each rejected one, and the indices of the errors rise and are positions in the request.
  pub bulk_accounts :
      (evs : List RawEvent) (s : S) (c : Counters)
      → let resp = (bulk_loop ingester m 0 evs s c empty_response).2 in
        (resp.accepted + resp.rejected ≡ length evs)
        × (length resp.errors ≡ resp.rejected)
        × IndexedIn 0 (length evs) resp.errors
  unfolding empty_response
  bulk_accounts evs s c =
      let h =
        bulk_loop-IsAccounted 0 evs s c empty_response
          (record { counted = refl; listed = refl; indexed = tt }) in
      (h.counted ∙ zero-add (length evs), h.listed, (rw (zero-add (length evs)) at h.indexed))

module _ (p : Platform) (uc : UseCase) (now : ℕ → ℕ) (cancelled : ℕ → Bool) (m : Bool) where
  bulk_item-grows :
      (i : ℕ) (ev : RawEvent) (b : Buffer) (c : Counters) (r : BulkResponse)
      → let (b', e) = ingest p buffer_publisher uc (now i) (cancelled i) (some ev) b in
        length b'.ch + r.accepted
        ≡ length b.ch + (bulk_item (use_case_adapter p uc now cancelled) m i e c r).1.accepted
  unfolding bulk_item
  bulk_item-grows i ev b c r =
      elim (Option-cases (ingest p buffer_publisher uc (now i) (cancelled i) (some ev) b).1) [
        | inl h ↦ rw h (omega (arith, ingest_grows p uc (now i) (cancelled i) ev b h))
        | inr (x, h) ↦ rw h (
            ap (λ (y : Buffer). length y.ch + r.accepted)
              (ingest_rejects p uc (now i) (cancelled i) ev b x h).0)
      ]

  -- In the loop over a bulk request into the in-memory buffer, the channel grows by as many events
  -- as the response counts as accepted.
  pub bulk_loop-grows :
      (i : ℕ) (evs : List RawEvent) (b : Buffer) (c : Counters) (r : BulkResponse)
      → let (b', c', r') = bulk_loop (use_case_adapter p uc now cancelled) m i evs b c r in
        length b'.ch + r.accepted ≡ length b.ch + r'.accepted
  unfolding bulk_loop
  bulk_loop-grows i [] b c r = refl
  bulk_loop-grows i (ev ∷ evs) b c r =
      let (b', e) = ingest p buffer_publisher uc (now i) (cancelled i) (some ev) b in
      let (c', r') = bulk_item (use_case_adapter p uc now cancelled) m i e c r in
      omega (arith, bulk_item-grows i ev b c r, bulk_loop-grows (suc i) evs b' c' r')
