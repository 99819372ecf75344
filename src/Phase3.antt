-- ===== src/Phase3.antt =====
-- Phase 3: the friendship record that follows a mutual entry, and the session probe.
pub mod Friendship
pub mod Probe
