-- ===== src/Sorted.antt =====
-- crates/zutreexo-accumulator/src/sorted.rs: the value-sorted snapshot of a pool's nullifiers.
pub mod Types
pub mod Build
pub mod Prove
pub mod Verify
pub mod Rows
pub mod Fold
pub mod Levels
pub mod Order
pub mod Accepted
pub mod Depth
pub mod Snapshot
pub mod Run
pub mod Settled
pub mod Edges
pub mod Complete
pub mod Span
pub mod Honest
pub mod Answered
mod Examples
