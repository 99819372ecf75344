-- ===== src/Identity.antt =====
-- src/identity: the outbound lint.
pub mod Lint
