-- ===== src/Phase5.antt =====
-- The binding of a peer's key, src/phase5/handshake/peerKeyBinding.mjs. The fingerprint of
-- src/phase5/keys/fingerprint.mjs is the text "sha256:" before the digest that Node's crypto computes.
pub mod Binding
