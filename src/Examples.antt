-- ===== src/Examples.antt =====
-- Test data for the examples: a platform, an event, a buffer configuration and a run of the buffer.
mod Domain
mod Buffer
mod Handler
mod Repository
mod Config
mod App
mod Router
mod Life
mod Service
mod Session
use chronometrics.Common.{
  ℕ, ◌≡◌, refl, Bool, true, false, Option, none, some, List, [], ◌∷◌, length, Text, txt,
}
use chronometrics.Common.Int.{ℤ, pos}
use chronometrics.Errors.{Error, sentinel, err_query_timeout}
use chronometrics.Domain.Json.{Platform, Result, ok, err}
use chronometrics.Domain.Event.{RawEvent, Event}
use chronometrics.Domain.Payload.{build_event}
use chronometrics.Config.Types.{BufferConfig}

abbrev pub platform : Platform
platform = record {
  marshal = λ m. ok (txt "{}");
  hash = λ s. length s;
  duration_string = λ d. txt "a while";
  quote = λ s. s;
}

abbrev pub clock : ℕ
clock = 1700000000000

-- Five minutes ahead and a day back.
abbrev pub ahead : ℕ
ahead = 300000000000

abbrev pub back : ℕ
back = 86400000000000

abbrev pub raw_event : RawEvent
raw_event = record {
  event_name = txt "signup";
  user_id = txt "u1";
  timestamp = pos 1699999999;
  channel = txt "web";
  campaign_id = txt "c";
  tags = some (txt "b" ∷ txt "a" ∷ []);
  priority = none;
  metadata = none;
}

abbrev pub some_event : Event
some_event = record {
  event_name = txt "signup";
  user_id = txt "u1";
  timestamp_ms = 1699999999000;
  payload_hash = 11;
  channel = txt "web";
  campaign_id = txt "c";
  tags = [];
  priority = none;
  metadata = [];
}

-- Room for two events, a batch for each event, three attempts.
abbrev pub buffer_config : BufferConfig
buffer_config = record {
  capacity = pos 2;
  flush_interval = pos 100;
  flush_batch_size = pos 1;
  flush_retries = pos 3;
  flush_timeout_ms = pos 500;
  flush_interval_duration = pos 0;
  flush_timeout = pos 0;
}
