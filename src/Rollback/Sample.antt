-- ===== src/Rollback/Sample.antt =====
-- rollback.rs: a chain of two heights for the examples.
use ztreexo.Prelude.{
  ℕ, zero, suc, ◌+◌, ◌≡◌, true, false, List, [], ◌∷◌, length, some, Result, ok, err, refl,
}
use ztreexo.Pool.{PoolId, orchard}
use ztreexo.Imt.Types.{Value, covers}
use ztreexo.Imt.Tree.{IndexedMerkleTree, insert, contains}
use ztreexo.Imt.Path
use ztreexo.Imt.Index
use ztreexo.Imt.Histories.{member}
use ztreexo.Imt.Initial.{fresh}
use ztreexo.Imt.Sample.{Term, zeroes, term_hash}
use ztreexo.Chain.Types.{UtxoLeaf, outpoint_of, BlockSummary}
use ztreexo.Chain.Accumulators.{Forests, ApplyOptions, ApplyOutcome, ChainAccumulators, StateDelta}
use ztreexo.Chain.Apply.{Chain, apply_block}
use ztreexo.Rollback.Journal.{ForestCodec}

abbrev pub output : UtxoLeaf
output = record {
  txid = 4;
  vout = 0;
  height = 1;
  is_coinbase = true;
  value = 625;
  script_pubkey = 81 ∷ [];
}

-- a forest that counts its leaves, and its bytes
abbrev pub counting : Forests Term ℕ (Unit {0})
counting = record {
  new = 0;
  modify = λ forest added deleted. (forest + length added, ok tt);
  leaf_hash = λ leaf. zeroes;
}

abbrev pub count_of : List ℕ → Result (Unit {0}) ℕ
count_of [] = err tt
count_of (n ∷ ns) = ok n

abbrev pub bytes : ForestCodec ℕ (Unit {0})
bytes = record { to_bytes = λ forest. ok (forest ∷ []); from_bytes = count_of }

abbrev pub empty_trees : PoolId → IndexedMerkleTree Term
empty_trees p = fresh term_hash p 2

abbrev pub genesis : Chain term_hash counting
genesis = record {
  depth = 2;
  nullifiers = λ p. some (empty_trees p);
  utxos = 0;
  utxo_index = [];
  tip = some 0;
}

abbrev pub values : PoolId → List Value
values orchard = 7 ∷ []
values _ = []

abbrev pub block : BlockSummary
block = record {
  height = 1;
  transactions = 1;
  transparent_spends = [];
  transparent_creates = (outpoint_of output, output) ∷ [];
  nullifiers_for = values;
  commitments_for = λ p. 0;
}

abbrev pub strict : ApplyOptions
strict = record { allow_unknown_spends = false; enforce_contiguous = true }

abbrev pub nothing : StateDelta Term
nothing = record {
  height = 0;
  spent = [];
  created = [];
  insertions = λ p. [];
  commitments = λ p. 0;
}

unfoldable pub applied_block : Chain term_hash counting × ApplyOutcome Term
unfolding apply_block insert fresh term_hash contains Index.contains_key Index.insert member
    Path.capacity_of Index.last_at_most covers
applied_block = elim (apply_block term_hash counting genesis block strict).1 [
  | ok o ↦ ((apply_block term_hash counting genesis block strict).0, o)
  | err e ↦ (genesis, record { delta = nothing; unknown_spends = 0 })
]

unfoldable pub history : ℕ → ChainAccumulators Term ℕ
unfolding applied_block
history zero = genesis
history (suc n) = applied_block.0

unfoldable pub delta_at : ℕ → StateDelta Term
unfolding applied_block
delta_at zero = nothing
delta_at (suc n) = record applied_block.1.delta { height = suc n }

pub numbered : (n : ℕ) → (delta_at n).height ≡ n
unfolding delta_at
numbered zero = refl
numbered (suc n) = refl

pub applied : apply_block term_hash counting genesis block strict ≡ (history 1, ok applied_block.1)
unfolding apply_block insert fresh term_hash contains Index.contains_key Index.insert member
    Path.capacity_of Index.last_at_most covers applied_block history
applied = refl
