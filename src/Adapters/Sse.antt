-- ===== src/Adapters/Sse.antt =====
-- src/adapters/sse.rs: the framing of server-sent events.
pub mod Decoder
pub mod Stream
pub mod Bounds
pub mod Lines
pub mod Frames
pub mod Roundtrip
mod Tests
