-- ===== src/Decisions.antt =====
-- agents/decisions/reducer.go: the reducer of frozen decision graphs.
pub mod State
pub mod Lookup
pub mod Guards
pub mod Steps
pub mod Follow
pub mod Target
pub mod Receipts
pub mod Inputs
pub mod Reduce
pub mod Begin
pub mod Bounds
pub mod Sound
pub mod Retries
pub mod Dispatch
pub mod Following
pub mod Handlers
pub mod Moves
pub mod Variants
pub mod Whole
pub mod Runs
pub mod Promises
pub mod Ends
mod Sample
mod Examples
