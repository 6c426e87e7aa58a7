-- ===== src/Residency.antt =====
-- residency/: the bounded in-process cache of decoded build artifacts.
pub mod Errors
pub mod Semaphore
pub mod State
pub mod Slru
pub mod Negative
pub mod Ops
pub mod Bounds
pub mod Promises
mod Examples
