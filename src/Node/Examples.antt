-- ===== src/Node/Examples.antt =====
-- crates/zutreexo-csn/src/lib.rs: a block with one nullifier, a spend, and an output that it spends
-- itself.
use ztreexo.Prelude.{
  ◌↔◌, ℕ, ◌+◌, ◌≡◌, ◌⊎◌, true, false, ◌||◌, List, [], ◌∷◌, map, length, some, Result, ok, err, refl,
  ap, arith,
}
use ztreexo.Pool.{PoolId, sprout, sapling, orchard, ironwood, all_pools, code}
use ztreexo.Imt.Types.{Value, InsertionProof, covers}
use ztreexo.Imt.Path
use ztreexo.Imt.Index
use ztreexo.Imt.Nodes
use ztreexo.Imt.Verify
use ztreexo.Imt.Histories.{apply_insertions}
use ztreexo.Imt.Tree.{IndexedMerkleTree, state, insert}
use ztreexo.Imt.Initial.{fresh, fresh-IsValid}
use ztreexo.Imt.Sample.{Term, zeroes, term_hash}
use ztreexo.Chain.Types.{
  OutPoint, outpoint_beq, put_pool, UtxoLeaf, outpoint_of, has_outpoint, BlockSummary,
  BlockProofBundle,
}
use ztreexo.Node.Types.{Stumps, CompactState, utreexo}
use ztreexo.Chain.Accumulators.{Forests}
use ztreexo.Chain.Apply.{insert_each}
use ztreexo.Node.Staged.{Carries}
use ztreexo.Node.Complete.{apply_bundle_complete}
use ztreexo.Node.Apply.{check_height, match_spends, check_inclusion, apply_bundle, surviving}
use ztreexo.Node.Accepted.{apply_bundle_refused}
use ztreexo.Chain.Nullifiers.{insert_pools}
use ztreexo.Node.Pools.{ProofsFit, Follows, AnyCollision}
use ztreexo.Node.Follows.{InputsFit, apply_bundle_sound}
use ztreexo.Chain.Outpoints.{DistinctFrom, created_outpoints}
use ztreexo.Node.Matching.{Splits, match_spends_iff}
use ztreexo.Node.Spends.{apply_bundle_spends}

-- roots that count the leaves
abbrev counting : Stumps Term ℕ (Unit {0}) (Unit {0})
counting = record {
  new = 0;
  verify = λ stump proof leaves. ok true;
  modify = λ stump added deleted proof. ok (stump + length added);
  leaf_hash = λ leaf. zeroes;
}

abbrev trees : PoolId → IndexedMerkleTree Term
trees p = fresh term_hash p 2

abbrev node : CompactState Term ℕ
node = record {
  depth = 2;
  utxos = 0;
  nullifiers = λ p. some (state term_hash (trees p));
  tip = some 7;
}

abbrev proofs_of :
    {E : Type 0}
    → Result E (IndexedMerkleTree Term × InsertionProof Term)
    → List (InsertionProof Term)
proofs_of (ok r) = r.1 ∷ []
proofs_of (err e) = []

abbrev values : PoolId → List Value
values sapling = 5 ∷ []
values _ = []

abbrev proofs : PoolId → List (InsertionProof Term)
proofs sapling = proofs_of (insert term_hash (trees sapling) 5)
proofs _ = []

abbrev old_output : UtxoLeaf
old_output = record {
  txid = 1;
  vout = 0;
  height = 3;
  is_coinbase = true;
  value = 50;
  script_pubkey = [];
}

abbrev passing : UtxoLeaf
passing = record {
  txid = 2;
  vout = 0;
  height = 8;
  is_coinbase = false;
  value = 50;
  script_pubkey = [];
}

abbrev block : BlockSummary
block = record {
  height = 8;
  transactions = 2;
  transparent_spends = outpoint_of old_output ∷ outpoint_of passing ∷ [];
  transparent_creates = (outpoint_of passing, passing) ∷ [];
  nullifiers_for = values;
  commitments_for = λ p. 0;
}

abbrev bundle : BlockProofBundle Term (Unit {0})
bundle = record {
  height = 8;
  spent = old_output ∷ [];
  utxo_proof = tt;
  insertions = proofs;
  depth = 2;
}

abbrev node_after : CompactState Term ℕ
node_after = (apply_bundle term_hash counting node block bundle).0

accepted : (apply_bundle term_hash counting node block bundle).1 ≡ ok tt
unfolding apply_bundle insert fresh term_hash Path.capacity_of Index.last_at_most Index.insert
    covers apply_insertions Verify.apply_insertion Verify.verify_insertion Path.check_path
    Path.check_depth Nodes.path_siblings state Path.root_from_path Path.join Nodes.node_at
    Nodes.write_path Nodes.put_node Path.next_level has_outpoint outpoint_beq put_pool Nodes.zero_at
    Nodes.zeros_ladder Path.sibling_index Verify.checked_succ code
accepted = refl

whole : apply_bundle term_hash counting node block bundle ≡ (node_after, ok tt)
whole = ap (λ r. (node_after, r)) accepted

follows : Follows term_hash 2 node.nullifiers trees
unfolding ztreexo.Imt.Tree.append_leaf fresh
follows p = record {
  valid = fresh-IsValid term_hash p 2 (omega arith) (omega arith);
  pool_same = refl;
  depth_same = refl;
  same_state = refl;
}

one_proof : ProofsFit (proofs sapling)
unfolding insert fresh term_hash Path.capacity_of Index.last_at_most Index.insert covers
one_proof = (omega arith, tt)

fits : InputsFit term_hash counting block bundle
fits sprout = (tt, tt)
fits sapling = ((omega arith, tt), one_proof)
fits orchard = (tt, tt)
fits ironwood = (tt, tt)

apply_bundle_sound_example :
    AnyCollision term_hash
    ⊎ ((trees' : PoolId → IndexedMerkleTree Term) × (insert_pools term_hash values all_pools trees
          ≡ ok trees')
        × Follows term_hash node_after.depth node_after.nullifiers trees')
apply_bundle_sound_example =
    apply_bundle_sound term_hash counting node node_after block bundle trees fits follows whole

apply_bundle_spends_example :
    (cancelled : List OutPoint) × DistinctFrom [] block.transparent_spends
    × ((o : OutPoint)
        → has_outpoint o block.transparent_spends
          ≡ (has_outpoint o (map outpoint_of bundle.spent) || has_outpoint o cancelled))
    × ((o : OutPoint)
        → has_outpoint o (map outpoint_of bundle.spent) ≡ true
        → has_outpoint o cancelled ≡ false)
    × DistinctFrom [] (map outpoint_of bundle.spent)
    × ((o : OutPoint)
        → has_outpoint o cancelled ≡ true
        → has_outpoint o (created_outpoints block.transparent_creates) ≡ true)
    × ((bundle.spent ≡ [])
        ⊎ (counting.verify node.utxos tt (map counting.leaf_hash bundle.spent) ≡ ok true))
    × (counting.modify node.utxos
          (map counting.leaf_hash (surviving cancelled block.transparent_creates))
          (map counting.leaf_hash bundle.spent)
          tt
        ≡ ok node_after.utxos)
apply_bundle_spends_example =
    apply_bundle_spends term_hash counting node node_after block bundle whole

-- the old output's leaf is carried, and the block creates the other output itself
match_spends_iff_example :
    (match_spends term_hash counting 8 block.transparent_creates [] [] bundle.spent
        block.transparent_spends
      ≡ ok (outpoint_of passing ∷ [], []))
    ↔ (DistinctFrom [] block.transparent_spends
        × Splits block.transparent_creates [] block.transparent_spends bundle.spent
            (outpoint_of passing ∷ []))
match_spends_iff_example =
    match_spends_iff term_hash counting 8 block.transparent_creates bundle.spent
      block.transparent_spends (outpoint_of passing ∷ [])

-- rustreexo refuses the change, after all checks have passed
abbrev refusing : Stumps Term ℕ (Unit {0}) (Unit {0})
refusing = record counting { modify = λ stump added deleted proof. err tt }

refused : apply_bundle term_hash refusing node block bundle ≡ (node, err (utreexo tt))
unfolding apply_bundle insert fresh term_hash Path.capacity_of Index.last_at_most Index.insert
    covers apply_insertions Verify.apply_insertion Verify.verify_insertion Path.check_path
    Path.check_depth Nodes.path_siblings state Path.root_from_path Path.join Nodes.node_at
    Nodes.write_path Nodes.put_node Path.next_level has_outpoint outpoint_beq put_pool Nodes.zero_at
    Nodes.zeros_ladder Path.sibling_index Verify.checked_succ code
refused = refl

apply_bundle_refused_example : node ≡ node
apply_bundle_refused_example =
    apply_bundle_refused term_hash refusing node node block bundle (utreexo tt) refused

-- a forest for the bridge
abbrev forests : Forests Term ℕ (Unit {0})
forests = record {
  new = 0;
  modify = λ forest added deleted. (forest + length added, ok tt);
  leaf_hash = λ leaf. zeroes;
}

abbrev last : PoolId → IndexedMerkleTree Term
last p = (insert_each term_hash forests (trees p) (values p)).0

carries : (p : PoolId) → Carries term_hash counting forests block bundle trees last p
unfolding insert fresh term_hash Path.capacity_of Index.last_at_most Index.insert covers insert_each
carries sprout = record { applied = []; in_type = tt; each = refl; carried = refl }
carries sapling = record {
  applied = map (λ q. (5, q)) (proofs sapling);
  in_type = (omega arith, tt);
  each = refl;
  carried = refl;
}
carries orchard = record { applied = []; in_type = tt; each = refl; carried = refl }
carries ironwood = record { applied = []; in_type = tt; each = refl; carried = refl }

heights : check_height term_hash counting node 8 8 ≡ ok tt
unfolding check_height
heights = refl

matched :
    match_spends term_hash counting 8 block.transparent_creates [] [] bundle.spent
      block.transparent_spends
    ≡ ok (outpoint_of passing ∷ [], [])
unfolding match_spends has_outpoint outpoint_beq
matched = refl

included :
    check_inclusion term_hash counting node 8 tt (map counting.leaf_hash bundle.spent) ≡ ok tt
unfolding check_inclusion
included = refl

modified :
    counting.modify node.utxos
      (map counting.leaf_hash (surviving (outpoint_of passing ∷ []) block.transparent_creates))
      (map counting.leaf_hash bundle.spent)
      tt
    ≡ ok 0
unfolding surviving has_outpoint outpoint_beq
modified = refl

apply_bundle_complete_example :
    (s' : CompactState Term ℕ) × (apply_bundle term_hash counting node block bundle ≡ (s', ok tt))
    × Follows term_hash s'.depth s'.nullifiers last
    × (s'.tip ≡ some 8)
apply_bundle_complete_example =
    apply_bundle_complete term_hash counting forests node block bundle trees last
      (outpoint_of passing ∷ []) 0 follows carries heights matched included modified
