-- ===== src/AuthPolicy/RoundTrip.antt =====
-- engine/templates/src/auth_policy.rs: `parse_json` reads back what `to_json` writes.
pub mod Targets
pub mod Users
