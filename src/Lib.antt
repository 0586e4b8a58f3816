-- ===== src/Lib.antt =====
-- Verification of ztreexo: compact state for Zcash, with a Merkle forest of transparent outputs and
-- one indexed Merkle tree of nullifiers per shielded pool.
--
-- The parts, and the files that model them:
--
--   Prelude        Boolean tests on the native numbers, list helpers, and `Result` with do blocks.
--   Pool           crates/zutreexo-accumulator/src/pool.rs: `PoolId`, its tag and its code.
--   Bytes          byte encodings of fixed width. `Value([u8; 32])` of imt.rs is the number that its
--                  bytes stand for big-endian; Bytes/Order compares the two orders.
--   Digest         crates/zutreexo-accumulator/src/hash.rs: one function per hash, with its
--                  personalization and preimage. BLAKE2b is the crate blake2b_simd and a parameter.
--                  Digest/ImtHash is the interface that the tree takes; Digest/Preimage fills it.
--   Imt            crates/zutreexo-accumulator/src/imt.rs. Imt/Types has the values, leaves, proofs
--                  and errors, Imt/Path the folding of sibling paths, Imt/Verify the two stateless
--                  verifiers and `ImtState`, Imt/Index the value index (a `BTreeMap`), Imt/Nodes the
--                  sparse node cache (a `BTreeMap`), Imt/Tree `IndexedMerkleTree` with one function
--                  per method. The other files of Imt are proofs: Imt/Subtree, Imt/Rehash and
--                  Imt/Cache on Merkle paths and the node cache, Imt/Links and Imt/Splice on the
--                  sorted linked list, Imt/Invariant the validity of a tree, Imt/Absence
--                  non-membership, Imt/Insert insertion, Imt/Agreement the verifier against the tree,
--                  Imt/Mirrors and Imt/Undo removal, Imt/Initial fresh trees and Imt/Histories sequences
--                  of insertions, with the loop of crates/zutreexo-csn/src/lib.rs over insertion proofs.
--
--   Codec          crates/zutreexo-accumulator/src/proof.rs: Codec/Reader the cursor, Codec/Dense leaves,
--                  paths, the two proofs and the version byte, Codec/Varint LEB128. A decoder takes
--                  the cursor and returns it; an encoder is the list of bytes that it appends.
--                  Codec/Decoding and Codec/RoundTrip show what is read back, Codec/Consuming and
--                  Codec/Canonical what can have been read.
--
--   Chain          crates/zutreexo-chain/src: outpoints, outputs, block summaries and bundles, with the
--                  leaf hash of crates/zutreexo-accumulator/src/utreexo.rs (Chain/Leaf).
--                  Chain/Accumulators has `ChainAccumulators` of pool.rs, Chain/State what it reports,
--                  Chain/Apply `apply_block` of block_apply.rs; the forest is the crate rustreexo, a
--                  parameter (`Forests`), and any of its calls may fail. Chain/Outpoints and Chain/Lookups
--                  are about lists of outpoints and the index, Chain/Resolving, Chain/Staged and
--                  Chain/Acceptable about the checks before the first mutation, Chain/Room, Chain/Commit and
--                  Chain/Delta about the insertions, Chain/Outcome and Chain/Atomic about the whole block, and
--                  Chain/Initial about a fresh state.
--   Node           crates/zutreexo-csn/src/lib.rs: `CompactState` and `apply_bundle`. The transparent
--                  roots are the crate rustreexo, a parameter (`Stumps`). `stage_bundle` is the part up to
--                  the first assignment, `apply_utxos` is `UtxoRoots::apply`, and `commit_bundle` the
--                  assignments in their order. Node/Accepted inverts an accepted bundle, Node/Pools and Node/Follows compare the node with full trees,
--                  Node/Spends and Node/Matching are about the spends, and Node/Served and
--                  Node/Complete show that the proofs of a bridge's trees pass.
--   Cohort         crates/zutreexo-accumulator/src/cohort.rs: `PrefixRange::contains` and `resolve`, which
--                  settles a value from the leaves of a cohort, in Cohort/Verify `verify_cohort`, and in
--                  Cohort/Prove `prove_prefix_cohort`. A set of indices is an ascending list.
--                  Cohort/Settled and Cohort/Delivered compare `resolve` with the tree that the leaves
--                  come from, Cohort/Fold, Cohort/Joined, Cohort/Accepted and Cohort/Verified
--                  `verify_cohort`; Cohort/Stray and Cohort/Forged are about leaves beyond the capacity.
--                  Cohort/Chosen and Cohort/Bracket are about the leaves that a tree chooses, Cohort/Sent
--                  and Cohort/Refold about the nodes that it sends, Cohort/Order about the order of the
--                  leaves, and Cohort/Proved puts them together.
--
--   Sorted         crates/zutreexo-accumulator/src/sorted.rs: Sorted/Build makes the snapshot, Sorted/Prove a
--                  cohort of a prefix range, Sorted/Verify has `verify_cohort` and `resolve`. Sorted/Rows
--                  is the tree that a root stands for; Sorted/Levels, Sorted/Depth and Sorted/Snapshot are
--                  about the build, Sorted/Fold, Sorted/Accepted, Sorted/Run and Sorted/Settled about what
--                  an accepted cohort shows, Sorted/Edges, Sorted/Complete, Sorted/Span, Sorted/Honest and
--                  Sorted/Answered about which cohorts are accepted. The map of siblings is a function; a
--                  partition point counts the leading values below a bound, and a binary search looks
--                  there, which is what the library's searches find on ascending values.
--
--   Rollback       crates/zutreexo-chain/src/rollback.rs: Rollback/Journal has the journal with `record` and
--                  `prune`, Rollback/Unwind and Rollback/Replay the shielded and the transparent half of
--                  `rollback_to`, which is in Rollback/RollbackTo. The bytes of a forest are the crate
--                  rustreexo, a parameter (`ForestCodec`). Rollback/Shielded, Rollback/Pools,
--                  Rollback/Block, Rollback/Committed and Rollback/Applied are about one block,
--                  Rollback/Runs, Rollback/Snapshots, Rollback/Tracks, Rollback/Recording,
--                  Rollback/Recorded and Rollback/Reach about what a journal holds, Rollback/Forward,
--                  Rollback/Branches, Rollback/Restored and Rollback/Returns about going back. A delta's map of insertions is a function on the pools.
--
-- A method that takes `&mut self` returns the tree afterwards; where it can fail after a mutation it
-- returns the tree beside the outcome. A `u64` or `u8` is a native number, and the code's saturating,
-- checked and shifting steps are written out: depth is at most 63, so no path index or count reaches
-- the end of its type on a valid tree. Every loop of the code runs over a list or over the levels of a
-- tree and is structural recursion, so no fuel is needed.
--
-- A digest `[u8; 32]` is the list of its bytes or, where only its equality matters, any type with a
-- decidable equality; a theorem that needs its bytes to be below 256 says so.
--
-- A hash function has collisions, so the soundness theorems conclude that either the claim holds or
-- a collision is exhibited: a pair of different inputs with one digest.
--
-- Not modelled: utreexo.rs apart from the leaf hash, since it wraps the crate rustreexo; extract.rs
-- apart from its data, since it reads blocks of the crate zebra-chain; store.rs, which reads and
-- writes files; the bridge's server and limits, its wire format, the codec of bundles and of the
-- compact state, the sparse paths and the responses of proof.rs, `PrefixRange::covering` of cohort.rs
-- and the bulk construction in imt.rs; the test kit, the fuzz targets and the scripts.
mod Prelude
pub mod Pool
pub mod Bytes
pub mod Digest
pub mod Imt
pub mod Codec
pub mod Chain
pub mod Node
pub mod Cohort
pub mod Sorted
pub mod Rollback
