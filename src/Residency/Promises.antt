-- ===== src/Residency/Promises.antt =====
-- residency/: what the cache promises its callers.
pub mod Budgets
pub mod Reads
mod Absent
mod Leaving
mod Started
pub mod Failures
pub mod Closing
mod Flights
pub mod SingleFlight
