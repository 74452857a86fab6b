-- ===== src/Vault.antt =====
-- The encrypted face profile (engine/templates/src/lib.rs): its plaintext and its envelope.
pub mod Cursor
pub mod Codec
pub mod Profiles
pub mod Envelope
pub mod Opening
pub mod Safety
pub mod Files
pub mod Lock
pub mod Replacement
pub mod Store
pub mod Keeping
pub mod Claims
pub mod Ending
pub mod Totality
pub mod Access
pub mod Migration
pub mod Changes
pub mod Reopening
pub mod Freshness
pub mod Installed
pub mod Staging
pub mod Tests
pub mod Stored
mod Unsynced
mod Staged
