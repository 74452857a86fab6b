-- ===== src/Protocol/Frame.antt =====
-- engine/protocol/src/lib.rs: `read_frame`, `read_frame_or_eof`, `require_eof` and `write_frame`.
pub mod Read
pub mod Write
pub mod Fill
pub mod Transport
pub mod Steps
pub mod Safety
