-- ===== src/Api.antt =====
-- internal/api: the HTTP binding of the resolver.
pub mod Logging
pub mod Floats
pub mod Metrics
pub mod RequestId
pub mod Handler
pub mod Serve
pub mod Threads
