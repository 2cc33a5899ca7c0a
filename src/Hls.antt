-- ===== src/Hls.antt =====
-- backend-rs/src/hls.rs: the in-memory caches that the live video path runs on.
pub mod SegmentName
pub mod Segments
pub mod Auth
pub mod Cache
pub mod Viewer
mod Tests
