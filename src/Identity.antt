-- ===== src/Identity.antt =====
-- engine/identity/src/lib.rs: the worker that enrols, verifies and manages the user's own profile.
pub mod Request
pub mod Response
pub mod Embeddings
pub mod Parsing
pub mod Worker
pub mod Session
pub mod Answers
pub mod Conversation
pub mod Dialogue
pub mod Tests
