-- ===== src/Datadog.antt =====
-- The exporter to the agent of Datadog (opentelemetry-datadog/src/exporter): spans as MessagePack
-- payloads of two versions.
pub mod Tokens
pub mod Value
pub mod Interner
pub mod Tags
pub mod Model
pub mod Spans
pub mod V03
pub mod V05
pub mod Payload
pub mod Group
pub mod Tests
