-- ===== src/Domain.antt =====
-- internal/domain: the incoming and the canonical event, validation, the payload hash and the
-- query parameters. Times are `int64` and `uint64` values, durations are `int64` nanoseconds.
pub mod Json
pub mod Canonical
pub mod Event
pub mod Payload
pub mod Query
