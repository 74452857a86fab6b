-- ===== src/Vision.antt =====
-- engine/vision/src: the image checks, and the worker that answers analysis requests over frames.
pub mod Accumulation
pub mod Answers
pub mod Conversation
pub mod Ending
pub mod Image
pub mod Layout
pub mod Parsing
pub mod Request
pub mod Response
pub mod Session
pub mod Sha256
pub mod Padding
mod Tests
pub mod Quality
pub mod Measures
pub mod Scanning
pub mod Grading
