-- ===== src/Phase7.antt =====
-- Phase 7: the envelopes that leave the node.
pub mod Outbound
