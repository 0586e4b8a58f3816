-- ===== src/Chain/Accumulators.antt =====
-- crates/zutreexo-chain/src/pool.rs: `ChainAccumulators`, what a bridge node holds, and the data of
-- block_apply.rs.
use ztreexo.Prelude.{
  ℕ, Bool, true, false, List, [], ◌∷◌, Option, none, some, Result, ok, ◌>>=◌, if◌then◌else◌,
}
use ztreexo.Pool.{PoolId, all_pools}
use ztreexo.Digest.ImtHash.{ImtHash}
use ztreexo.Imt.Types.{Value, InsertionProof, ImtError}
use ztreexo.Imt.Tree.{IndexedMerkleTree, with_depth}
use ztreexo.Chain.Types.{OutPoint, outpoint_beq, UtxoLeaf, put_pool}

-- The crate rustreexo, as `UtxoForest` in utreexo.rs calls it: the forest with no leaves and
-- `MemForest::modify`, which changes the forest in place; and `UtxoLeaf::hash`.
pub record Forests (Hash Forest Failure : Type 0) : Type 0 where
  pub new : Forest
  pub modify : Forest → List Hash → List Hash → Forest × Result Failure (Unit {0})
  pub leaf_hash : UtxoLeaf → Hash

-- a map from outpoints: no outpoint stands twice
abbrev pub UtxoIndex : Type 0
UtxoIndex = List (OutPoint × UtxoLeaf)

unfoldable pub utxo : OutPoint → UtxoIndex → Option UtxoLeaf
utxo o [] = none
utxo o ((p, leaf) ∷ index) = if outpoint_beq o p then some leaf else utxo o index

unfoldable pub remove_utxo : OutPoint → UtxoIndex → UtxoIndex
remove_utxo o [] = []
remove_utxo o ((p, leaf) ∷ index) =
    let rest = remove_utxo o index in if outpoint_beq o p then rest else (p, leaf) ∷ rest

unfoldable pub insert_utxo : OutPoint → UtxoLeaf → UtxoIndex → UtxoIndex
unfolding remove_utxo
insert_utxo o leaf index = (o, leaf) ∷ remove_utxo o index

pub record ChainAccumulators (Hash Forest : Type 0) : Type 0 where
  pub depth : ℕ
  pub nullifiers : PoolId → Option (IndexedMerkleTree Hash)
  pub utxos : Forest
  pub utxo_index : UtxoIndex
  pub tip : Option ℕ

pub record StateDelta (Hash : Type 0) : Type 0 where
  pub height : ℕ
  pub spent : List (OutPoint × UtxoLeaf)
  pub created : List (OutPoint × UtxoLeaf)
  pub insertions : PoolId → List (Value × InsertionProof Hash)
  pub commitments : PoolId → ℕ

pub record ApplyOptions : Type 0 where
  pub allow_unknown_spends : Bool
  pub enforce_contiguous : Bool

-- `ApplyOptions::default`
abbrev pub default_options : ApplyOptions
default_options = record { allow_unknown_spends = false; enforce_contiguous = true }

-- `ApplyOptions::window`
abbrev pub window : ApplyOptions
window = record { allow_unknown_spends = true; enforce_contiguous = true }

pub record ApplyOutcome (Hash : Type 0) : Type 0 where
  pub delta : StateDelta Hash
  pub unknown_spends : ℕ

pub data ApplyError (Hash Failure : Type 0) : Type 0 where
  unknown_outpoint : (height : ℕ) → OutPoint → ApplyError Hash Failure
  duplicate_spend : (height : ℕ) → OutPoint → ApplyError Hash Failure
  duplicate_nullifier : (height : ℕ) → PoolId → ApplyError Hash Failure
  missing_pool : PoolId → ApplyError Hash Failure
  out_of_order : (expected found : ℕ) → ApplyError Hash Failure
  imt : ImtError Hash → ApplyError Hash Failure
  utreexo : Failure → ApplyError Hash Failure

module _ {Hash Forest Failure : Type 0} (h : ImtHash Hash) (f : Forests Hash Forest Failure) where
  -- the loop of `ChainAccumulators::new`
  unfoldable pub new_trees :
      ℕ
      → List PoolId
      → (PoolId → Option (IndexedMerkleTree Hash))
      → Result (ImtError Hash) (PoolId → Option (IndexedMerkleTree Hash))
  unfolding put_pool
  new_trees depth [] trees = ok trees
  new_trees depth (p ∷ ps) trees = do
    t ← with_depth h p depth
    new_trees depth ps (put_pool p (some t) trees)

  unfoldable pub new : ℕ → Result (ImtError Hash) (ChainAccumulators Hash Forest)
  unfolding new_trees
  new depth = do
    trees ← new_trees depth all_pools (λ p. none)
    ok (record { depth = depth; nullifiers = trees; utxos = f.new; utxo_index = []; tip = none })
