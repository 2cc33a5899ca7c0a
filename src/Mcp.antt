-- ===== src/Mcp.antt =====
-- backend-rs/src/mcp/scope.rs: what a key may call of the tools, and how often.
pub mod Scope
pub mod Limiter
mod Tests
