-- ===== src/Ws.antt =====
-- backend-rs/src/ws.rs: the WebSocket connections of the camera nodes and their rate limits.
pub mod Limiter
pub mod Manager
mod Tests
