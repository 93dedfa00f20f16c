-- ===== src/Propagator.antt =====
-- The propagators: how a span context travels between processes
-- (opentelemetry-contrib/src/trace/propagator).
pub mod Binary
pub mod Api
pub mod Google
pub mod Response
pub mod Datadog
pub mod Xray
pub mod Tests
