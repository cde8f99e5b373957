-- ===== src/Domain/Payload.antt =====
-- internal/domain/event.go: the payload hash and the conversion to an `Event`.
pub mod Injective
use chronometrics.Common.{ℕ, ◌≡◌, Option, none, some, List, [], ◌∷◌, ◌++◌, Text, txt}
use chronometrics.Common.Int.{ℤ}
use chronometrics.Common.Sorting.{sort_strings}
use chronometrics.Errors.{Error, wrapped}
use chronometrics.Domain.Json.{Platform, Fields, Result, ok, err}
use chronometrics.Domain.Event.{RawEvent, Event, normalize_timestamp}

-- Each text followed by a null byte.
abbrev pub write_all : List Text → Text
write_all [] = []
write_all (s ∷ rest) = s ++ 0 ∷ write_all rest

-- What the `strings.Builder` of `ComputePayloadHash` holds before hashing.
unfoldable pub payload : Text → Text → List Text → Text → Text → Text
payload channel campaign_id tags priority metadata =
    channel
    ++ 0 ∷ (campaign_id ++ 0 ∷ (write_all (sort_strings tags) ++ (priority ++ 0 ∷ metadata)))

abbrev pub priority_text : Option Text → Text
priority_text none = []
priority_text (some s) = s

abbrev pub tags_list : Option (List Text) → List Text
tags_list none = []
tags_list (some tags) = tags

module _ (p : Platform) where
  -- `ComputePayloadHash`.
  unfoldable pub compute_payload_hash : Text → Text → List Text → Text → Text → ℕ
  compute_payload_hash channel campaign_id tags priority metadata =
      p.hash (payload channel campaign_id tags priority metadata)

  -- The metadata text: empty without metadata, else what `json.Marshal` gives, its error wrapped.
  unfoldable pub metadata_text : Option Fields → Result Text
  metadata_text none = ok []
  metadata_text (some m) = elim (p.marshal m) [
    | ok s ↦ ok s
    | err e ↦ err (wrapped (txt "marshal metadata") e)
  ]

  -- The `Event` that `ToEvent` builds once the metadata is marshalled.
  unfoldable pub build_event : RawEvent → Text → Event
  build_event raw metadata = record {
    event_name = raw.event_name;
    user_id = raw.user_id;
    timestamp_ms = normalize_timestamp raw.timestamp;
    payload_hash =
        compute_payload_hash raw.channel raw.campaign_id (tags_list raw.tags)
          (priority_text raw.priority) metadata;
    channel = raw.channel;
    campaign_id = raw.campaign_id;
    tags = tags_list raw.tags;
    priority = raw.priority;
    metadata = metadata;
  }

  unfoldable pub to_event : RawEvent → Result Event
  unfolding metadata_text build_event
  to_event raw = elim (metadata_text raw.metadata) [
    | ok metadata ↦ ok (build_event raw metadata)
    | err e ↦ err e
  ]
