-- ===== src/Vault/Migration.antt =====
-- engine/templates/src/lib.rs: a migration keeps the profile.
