-- ===== src/Phase2.antt =====
-- The Phase 2 protocol runtime: constants, the schemas of bodies and envelopes, the session manager
-- and the inbound pipeline.
pub mod Constants
pub mod SafeText
pub mod SafeArray
pub mod Checks
pub mod Hello
pub mod Body
pub mod Envelope
pub mod Session
pub mod Processor
