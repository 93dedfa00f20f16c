-- ===== src/Geneva.antt =====
-- The Geneva uploader's payload encoder
-- (opentelemetry-exporter-geneva/geneva-uploader/src/payload_encoder).
pub mod Bond
pub mod Blob
pub mod Lz4
pub mod Value
pub mod Encoder
pub mod Log
pub mod Batch
pub mod Span
pub mod Config
pub mod Upload
pub mod Export
mod Tests
