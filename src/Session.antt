-- ===== src/Session.antt =====
-- The loops over framed requests that the vision worker (engine/vision/src/worker.rs) and the identity
-- worker (engine/identity/src/lib.rs) share.
pub mod Loop
pub mod Replies
pub mod Ending
pub mod Dialogue
