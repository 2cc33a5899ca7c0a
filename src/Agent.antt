-- ===== src/Agent.antt =====
-- backend-rs/src/agent/processor.rs: how the agent drains the queue of pending runs.
pub mod Drain
pub mod Complete
mod Tests
