-- ===== src/Memstore.antt =====
-- cache/memstore/: the in-process tier of the shared cache.
pub mod State
pub mod Ops
pub mod Index
pub mod Consistency
pub mod Versions
pub mod Observe
pub mod Recorded
pub mod Evict
pub mod Reads
pub mod Writes
pub mod Follows
pub mod Runs
pub mod Promises
pub mod Snapshots
mod Examples
