-- ===== src/Rollback.antt =====
-- crates/zutreexo-chain/src/rollback.rs: the journal of recent blocks, and undoing them.
pub mod Journal
pub mod Unwind
pub mod Replay
pub mod RollbackTo
pub mod Shielded
pub mod Pools
pub mod Block
pub mod Committed
pub mod Applied
pub mod Runs
pub mod Snapshots
pub mod Tracks
pub mod Recording
pub mod Recorded
pub mod Reach
pub mod Forward
pub mod Branches
pub mod Restored
pub mod Returns
mod Sample
mod Examples
