-- ===== src/Contract.antt =====
-- agents/decisioncontract/v1/: the data of decision graphs and the checks of their events.
pub mod Types
pub mod Failure
pub mod Fields
pub mod Checks
pub mod Scoped
pub mod Ownership
pub mod Events
pub mod Releases
