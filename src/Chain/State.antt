-- ===== src/Chain/State.antt =====
-- crates/zutreexo-chain/src/pool.rs: what `ChainAccumulators` reports of its state. A map from the pools
-- is a function, with nothing where a pool has no tree.
use ztreexo.Prelude.{ℕ, length, Option, none, some}
use ztreexo.Pool.{PoolId}
use ztreexo.Digest.ImtHash.{ImtHash}
use ztreexo.Imt.Types.{ImtState}
use ztreexo.Imt.Tree.{root, state, value_count}
use ztreexo.Chain.Accumulators.{ChainAccumulators}

-- `StateCounts`, whose map has an entry for every pool
pub record StateCounts : Type 0 where
  pub height : Option ℕ
  pub utxos : ℕ
  pub nullifiers : PoolId → ℕ

module _ {Hash Forest : Type 0} (c : ChainAccumulators Hash Forest) where
  unfoldable pub utxo_count : ℕ
  utxo_count = length c.utxo_index

  unfoldable pub nullifier_count : PoolId → ℕ
  nullifier_count pool = elim (c.nullifiers pool) [ none ↦ 0 | some t ↦ value_count t ]

  unfoldable pub counts : StateCounts
  unfolding utxo_count nullifier_count
  counts = record { height = c.tip; utxos = utxo_count; nullifiers = nullifier_count }

  module _ (h : ImtHash Hash) where
    unfoldable pub imt_states : PoolId → Option (ImtState Hash)
    imt_states pool = elim (c.nullifiers pool) [ none ↦ none | some t ↦ some (state h t) ]

    unfoldable pub nullifier_roots : PoolId → Option Hash
    nullifier_roots pool = elim (c.nullifiers pool) [ none ↦ none | some t ↦ some (root h t) ]
