-- ===== src/Imt.antt =====
-- crates/zutreexo-accumulator/src/imt.rs: the indexed Merkle tree, the nullifier accumulator.
pub mod Types
pub mod Path
pub mod Verify
pub mod Index
pub mod Nodes
pub mod Tree
pub mod Removal
pub mod Subtree
pub mod Rehash
pub mod Links
pub mod Splice
pub mod Invariant
pub mod Absence
pub mod Cache
pub mod Insertion
pub mod Spliced
pub mod Insert
pub mod Transition
pub mod Inversion
pub mod Agreement
pub mod Initial
pub mod Mirrors
pub mod Undo
pub mod Histories
pub mod Sample
pub mod Examples
mod Runs
