-- ===== src/Protocol.antt =====
-- The local protocol of the engine (engine/protocol/src/lib.rs): its values, the request and
-- response payloads, and the length-prefixed frames that carry them.
pub mod Types
pub mod Codec
pub mod Stream
pub mod Frame
mod Tests
