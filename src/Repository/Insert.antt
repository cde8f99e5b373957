-- ===== src/Repository/Insert.antt =====
-- internal/repository/insert.go: `Flush`. The batch interface of the database is a parameter; the
-- duration metric is in Repository.Observed, and the log is left out.
pub mod Whole
use chronometrics.Common.{ℕ, suc, Bool, true, false, Option, none, some, List, [], ◌∷◌, ◌++◌, Text}
use chronometrics.Errors.{Error}
use chronometrics.Domain.Event.{Event}

-- A row of the table `events`, by the columns of the statement.
pub record Row : Type 0 where
  pub event_name : Text
  pub user_id : Text
  pub timestamp_ms : ℕ
  pub payload_hash : ℕ
  pub channel : Text
  pub campaign_id : Text
  pub tags : List Text
  pub priority : Option Text
  pub metadata : Text

abbrev pub row : Event → Row
row e = record {
  event_name = e.event_name;
  user_id = e.user_id;
  timestamp_ms = e.timestamp_ms;
  payload_hash = e.payload_hash;
  channel = e.channel;
  campaign_id = e.campaign_id;
  tags = e.tags;
  priority = e.priority;
  metadata = e.metadata;
}

-- What the database answers: to `PrepareBatch`, to `Append` of a row after so many rows, and to
-- `Send` of the rows.
pub record BatchApi : Type 0 where
  pub prepare : Option Error
  pub append : ℕ → Row → Option Error
  pub send : List Row → Option Error

-- The result of a call, the rows that it sent, if it came to that, and whether it aborted the batch.
pub record FlushTrace : Type 0 where
  pub result : Option Error
  pub sent : Option (List Row)
  pub aborted : Bool

module _ (api : BatchApi) where
  abbrev pub send_rows : List Row → FlushTrace
  send_rows rows = record { result = api.send rows; sent = some rows; aborted = false }

  -- The loop, after the rows appended so far.
  unfoldable pub append_rows : ℕ → List Row → List Event → FlushTrace
  append_rows i rows [] = send_rows rows
  append_rows i rows (e ∷ es) = elim (api.append i (row e)) [
    | some x ↦ record { result = some x; sent = none; aborted = true }
    | none ↦ append_rows (suc i) (rows ++ row e ∷ []) es
  ]

  unfoldable pub flush : List Event → FlushTrace
  unfolding append_rows
  flush [] = record { result = none; sent = none; aborted = false }
  flush (e ∷ es) = elim api.prepare [
    | some x ↦ record { result = some x; sent = none; aborted = false }
    | none ↦ append_rows 0 [] (e ∷ es)
  ]
