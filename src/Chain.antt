-- ===== src/Chain.antt =====
-- crates/zutreexo-chain/src: blocks as the accumulators see them.
pub mod Types
pub mod Leaf
pub mod Outpoints
pub mod Accumulators
pub mod Nullifiers
pub mod Apply
pub mod Room
pub mod Commit
pub mod Lookups
pub mod Resolving
pub mod Delta
pub mod Staged
pub mod Acceptable
pub mod Outcome
pub mod Atomic
pub mod State
pub mod Initial
mod Examples
