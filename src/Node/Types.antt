-- ===== src/Node/Types.antt =====
-- crates/zutreexo-csn/src/lib.rs: the state and the errors, and the transparent accumulator.
use ztreexo.Prelude.{ℕ, List, Option, Result, Bool}
use ztreexo.Pool.{PoolId}
use ztreexo.Imt.Types.{ImtState, ImtError}
use ztreexo.Chain.Types.{OutPoint, UtxoLeaf}

-- The crate rustreexo, as `UtxoRoots` in utreexo.rs calls it: the roots with no leaves, `Stump::verify`
-- and `Stump::modify`, and `UtxoLeaf::hash`. `Failure` is what rustreexo reports.
pub record Stumps (Hash Stump Proof Failure : Type 0) : Type 0 where
  pub new : Stump
  pub verify : Stump → Proof → List Hash → Result Failure Bool
  pub modify : Stump → List Hash → List Hash → Proof → Result Failure Stump
  pub leaf_hash : UtxoLeaf → Hash

pub record CompactState (Hash Stump : Type 0) : Type 0 where
  pub depth : ℕ
  pub utxos : Stump
  pub nullifiers : PoolId → Option (ImtState Hash)
  pub tip : Option ℕ

pub data CsnError (Hash Failure : Type 0) : Type 0 where
  height_mismatch : (block bundle : ℕ) → CsnError Hash Failure
  out_of_order : (expected found : ℕ) → CsnError Hash Failure
  duplicate_spend : (height : ℕ) → OutPoint → CsnError Hash Failure
  unproven_spend : (height : ℕ) → OutPoint → CsnError Hash Failure
  unclaimed_leaves : (height extra : ℕ) → CsnError Hash Failure
  inclusion_proof_failed : (height : ℕ) → CsnError Hash Failure
  insertion_count_mismatch : (height : ℕ) → PoolId → (nullifiers proofs : ℕ) → CsnError Hash Failure
  unexpected_insertions : (height : ℕ) → PoolId → CsnError Hash Failure
  missing_pool : PoolId → CsnError Hash Failure
  imt : ImtError Hash → CsnError Hash Failure
  utreexo : Failure → CsnError Hash Failure
