-- ===== src/Node.antt =====
-- crates/zutreexo-csn/src/lib.rs: the compact state node.
pub mod Types
pub mod Apply
pub mod Accepted
pub mod Pools
pub mod Follows
pub mod Spends
pub mod Matching
pub mod Served
pub mod Staged
pub mod Complete
mod Examples
