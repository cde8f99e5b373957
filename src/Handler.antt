-- ===== src/Handler.antt =====
-- internal/handler: the HTTP handlers. A request and a response are records; the use case behind
-- `Ingester`, the querier and the JSON decoder are parameters.
pub mod Http
pub mod Adapter
pub mod Admission
pub mod Router
pub mod Contract
pub mod Session
pub mod Observed
pub mod Single
pub mod Bulk
pub mod Metrics
pub mod Limiter
pub mod Middleware
