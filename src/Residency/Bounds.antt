-- ===== src/Residency/Bounds.antt =====
-- residency/residency.go: every operation keeps the cache well formed, so it is after any run.
pub mod Frames
pub mod Halves
pub mod Sweeps
pub mod Gets
pub mod Loads
pub mod Steps
