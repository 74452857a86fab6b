-- ===== src/Protocol/Codec.antt =====
-- engine/protocol/src/lib.rs: `encode_request`, `decode_request`, `encode_response`,
-- `decode_response` and their helpers. A payload is the list of its bytes.
pub mod Request
pub mod Response
pub mod Decode
pub mod RoundTrip
pub mod Safety
