-- ===== src/Repository/Insert/Whole.antt =====
-- `Flush` sends a batch whole or not at all (internal/repository/insert.go).
use mathlib.Core.List.{append-nil, append_assoc}
use chronometrics.Common.{
  ℕ, suc, ◌≡◌, refl, ◌⊎◌, inl, inr, true, false, none, some, Option-cases, List, [], ◌∷◌, ◌++◌, map,
}
use chronometrics.Errors.{Error}
use chronometrics.Domain.Event.{Event}
use chronometrics.Repository.Insert.{Row, row, BatchApi, FlushTrace, append_rows, flush}

module _ (api : BatchApi) where
  -- The rows were sent, all of them in order, and the result is the database's answer; or a row was
  -- refused, nothing was sent, the batch was aborted, and the result is that error.
  abbrev SentOrAborted : List Row → FlushTrace → Type 0
  SentOrAborted rows t =
      ((t.sent ≡ some rows) × (t.result ≡ api.send rows) × (t.aborted ≡ false))
      ⊎ ((x : Error) × (t.sent ≡ none) × (t.result ≡ some x) × (t.aborted ≡ true))

  append_rows-SentOrAborted :
      (i : ℕ) (rows : List Row) (es : List Event)
      → SentOrAborted (rows ++ map row es) (append_rows api i rows es)
  unfolding append_rows
  append_rows-SentOrAborted i rows [] = rw (append-nil rows) (inl (refl, refl, refl))
  append_rows-SentOrAborted i rows (e ∷ es) = elim (Option-cases (api.append i (row e))) [
    | inr (x, h) ↦ rw (h, append_rows) (inr (x, refl, refl, refl))
    | inl h ↦
        rw (h, append_rows, ← append_assoc rows (row e ∷ []) (map row es))
          (append_rows-SentOrAborted (suc i) (rows ++ row e ∷ []) es)
  ]

  -- `flush` of a batch: it sends the rows of all of its events, in their order and nothing else,
  -- and returns the database's answer to that; or it sends nothing and returns an error, with the
  -- batch aborted if it was prepared; or the batch is empty, and it does nothing. So it returns no
  -- error for a batch that is not empty only if all of its rows were sent.
  pub flush_whole :
      (es : List Event)
      → let t = flush api es in
        ((t.sent ≡ some (map row es)) × (t.result ≡ api.send (map row es)) × (t.aborted ≡ false))
        ⊎ ((x : Error) × (t.sent ≡ none)
            × (t.result ≡ some x)
            × ((api.prepare ≡ some x) × (t.aborted ≡ false)
                ⊎ (api.prepare ≡ none) × (t.aborted ≡ true)))
        ⊎ ((es ≡ []) × (t.sent ≡ none) × (t.result ≡ none) × (t.aborted ≡ false))
  unfolding flush
  flush_whole [] = inr (inr (refl, refl, refl, refl))
  flush_whole (e ∷ es) = elim (Option-cases api.prepare) [
    | inr (x, h) ↦ rw (h, flush) (inr (inl (x, refl, refl, inl (refl, refl))))
    | inl h ↦
        rw (h, flush)
          (elim (append_rows-SentOrAborted 0 [] (e ∷ es)) [
            | inl sent ↦ inl sent
            | inr (x, a, b, c) ↦ inr (inl (x, a, b, inr (refl, c)))
          ])
  ]
