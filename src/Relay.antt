-- ===== src/Relay.antt =====
-- The relays: WebSocket frames, the relay core v0.1 and the relay server v2.
pub mod Json
pub mod Frames
pub mod Core
pub mod V2
