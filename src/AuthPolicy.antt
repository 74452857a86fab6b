-- ===== src/AuthPolicy.antt =====
-- The per-user opt-in policy of the experimental PAM targets
-- (engine/templates/src/auth_policy.rs): its table, its JSON text and the reader of that text.
pub mod Table
pub mod Modes
pub mod Json
pub mod Parser
pub mod Decimal
pub mod RoundTrip
pub mod Sound
pub mod Files
pub mod Writing
pub mod Storing
pub mod Stored
mod Tests
