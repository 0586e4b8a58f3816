-- ===== src/Chain/Examples.antt =====
-- block_apply.rs and utreexo.rs: a block on fresh accumulators, a block on a full tree, and the leaf of
-- an output.
use ztreexo.Prelude.{
  ℕ, ◌+◌, ◌-◌, ◌≡◌, ◌≤◌, ◌==◌, ◌⊎◌, false, List, [], ◌∷◌, length, map, none, some, ok, err, arith,
  refl,
}
use ztreexo.Pool.{PoolId, sprout, sapling, orchard, ironwood}
use ztreexo.Imt.Types.{Value, ImtState, covers, capacity_exhausted, invalid_depth}
use ztreexo.Imt.Tree.{IndexedMerkleTree, insert, contains}
use ztreexo.Imt.Path
use ztreexo.Imt.Index
use ztreexo.Imt.Histories.{AllValues, member}
use ztreexo.Imt.Initial.{fresh, fresh-IsValid}
use ztreexo.Imt.Sample.{Term, zeroes, term_hash}
use ztreexo.Chain.Types.{UtxoLeaf, outpoint_of, has_outpoint, outpoint_beq, BlockSummary}
use ztreexo.Chain.Leaf.{leaf_preimage-injective}
use ztreexo.Chain.Accumulators.{
  Forests, default_options, utxo, insert_utxo, ChainAccumulators, ApplyError, imt, new,
}
use ztreexo.Chain.Apply.{Chain, apply_block}
use ztreexo.Chain.Commit.{HoldsTrees, HasRoom}
use ztreexo.Chain.State.{imt_states}
use ztreexo.Chain.Initial.{new_outcome}
use ztreexo.Imt.Path.{state_new}
use ztreexo.Chain.Acceptable.{Acceptable}
use ztreexo.Chain.Outcome.{Outcome}
use ztreexo.Chain.Atomic.{apply_block_atomic}

abbrev output : UtxoLeaf
output = record {
  txid = 9;
  vout = 1;
  height = 5;
  is_coinbase = false;
  value = 1000;
  script_pubkey = 118 ∷ [];
}

leaf_preimage-injective_example : output ≡ output
leaf_preimage-injective_example =
    leaf_preimage-injective output output (omega arith) (omega arith) refl

-- an output of an earlier block
abbrev earlier : UtxoLeaf
earlier = record output { txid = 4; vout = 0 }

-- a forest that counts its leaves
abbrev counting : Forests Term ℕ (Unit {0})
counting = record {
  new = 0;
  modify = λ forest added deleted. (forest + length added - length deleted, ok tt);
  leaf_hash = λ leaf. zeroes;
}

abbrev trees : ℕ → PoolId → IndexedMerkleTree Term
trees depth p = fresh term_hash p depth

abbrev chain : ℕ → Chain term_hash counting
chain depth = record {
  depth = depth;
  nullifiers = λ p. some (trees depth p);
  utxos = 1;
  utxo_index = (outpoint_of earlier, earlier) ∷ [];
  tip = none;
}

abbrev values : PoolId → List Value
values sapling = 5 ∷ 3 ∷ []
values _ = []

abbrev block : BlockSummary
block = record {
  height = 1;
  transactions = 1;
  transparent_spends = outpoint_of earlier ∷ [];
  transparent_creates = (outpoint_of output, output) ∷ [];
  nullifiers_for = values;
  commitments_for = λ p. 0;
}

holds : HoldsTrees term_hash counting (chain 2).nullifiers (trees 2)
holds p = (refl, fresh-IsValid term_hash p 2 (omega arith) (omega arith))

in_type : (p : PoolId) → AllValues (values p)
in_type sprout = tt
in_type sapling = (omega arith, (omega arith, tt))
in_type orchard = tt
in_type ironwood = tt

room : (p : PoolId) → HasRoom term_hash counting block p (trees 2 p)
unfolding fresh ztreexo.Imt.Tree.append_leaf
room sprout = omega arith
room sapling = omega arith
room orchard = omega arith
room ironwood = omega arith

apply_block_atomic_example :
    (¬ Acceptable term_hash counting (chain 2) block default_options (trees 2)
      × (e : ApplyError Term (Unit {0})) × (apply_block term_hash counting
            (chain 2)
            block
            default_options
          ≡ (chain 2, err e)))
    ⊎ (Acceptable term_hash counting (chain 2) block default_options (trees 2)
        × Outcome term_hash counting
            (chain 2)
            block
            (trees 2)
            (apply_block term_hash counting (chain 2) block default_options))
apply_block_atomic_example =
    apply_block_atomic term_hash counting (chain 2) block default_options (trees 2) holds in_type
      room

-- Two nullifiers do not fit into trees of depth 1. The block passes the checks, and it is refused
-- after the spent output has gone from the forest, and the created one into it.
overfull :
    (apply_block term_hash counting (chain 1) block default_options).1
    ≡ err (imt (capacity_exhausted 1 2))
unfolding apply_block insert fresh term_hash contains Index.contains_key Index.insert member
    Path.capacity_of Index.last_at_most covers has_outpoint outpoint_beq utxo
overfull = refl

overfull_index :
    map (λ o. o.1) (apply_block term_hash counting (chain 1) block default_options).0.utxo_index
    ≡ output ∷ []
unfolding apply_block insert fresh term_hash contains Index.contains_key Index.insert member
    Path.capacity_of Index.last_at_most covers has_outpoint outpoint_beq utxo insert_utxo
overfull_index = refl

new_outcome_example :
    ((¬ ((1 ≤ 32) × (32 ≤ 63))) × (new term_hash counting 32 ≡ err (invalid_depth 32)))
    ⊎ ((c : ChainAccumulators Term ℕ) × (ts : PoolId → IndexedMerkleTree Term) × (new term_hash
            counting 32
          ≡ ok c)
        × (c.tip ≡ none)
        × (c.utxo_index ≡ [])
        × HoldsTrees term_hash counting c.nullifiers ts
        × ((p : PoolId) (w : Value) → contains (ts p) w ≡ (0 == w))
        × ((p : PoolId)
            → (s : ImtState Term) × (imt_states c term_hash p ≡ some s)
              × (state_new term_hash p 32 ≡ ok s)))
new_outcome_example = new_outcome term_hash counting 32
