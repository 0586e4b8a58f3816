-- ===== src/Chain/Outcome.antt =====
-- crates/zutreexo-chain/src/block_apply.rs: what `apply_block` makes of a block that passes its checks,
-- in terms of the block and the accumulators before it.
use ztreexo.Prelude.{◌≡◌, ◌⊎◌, List, [], map, none, some, ok, err, if◌then◌else◌}
use ztreexo.Pool.{PoolId, all_pools}
use ztreexo.Digest.ImtHash.{ImtHash}
use ztreexo.Imt.Tree.{IndexedMerkleTree}
use ztreexo.Chain.Types.{BlockSummary, OutPoint, UtxoLeaf, has_outpoint}
use ztreexo.Chain.Accumulators.{Forests, ApplyOutcome, utreexo, utxo}
use ztreexo.Chain.Nullifiers.{insert_pools}
use ztreexo.Chain.Apply.{Chain, Applying, leaves_of, insert_each}
use ztreexo.Chain.Commit.{HoldsTrees}
use ztreexo.Chain.Outpoints.{DistinctFrom, created_outpoints}
use ztreexo.Chain.Lookups.{latest}
use ztreexo.Chain.Resolving.{known_outputs, lasting_outputs}

module _ {Hash Forest Failure : Type 0} (h : ImtHash Hash) (f : Forests Hash Forest Failure) where
  -- rustreexo has changed the forest, or was not called since there was nothing to change
  abbrev pub ForestChange : Forest → List Hash → List Hash → Forest → Type 0
  ForestChange forest additions deletions forest' =
      ((additions ≡ []) × (deletions ≡ []) × (forest' ≡ forest))
      ⊎ (f.modify forest additions deletions ≡ (forest', ok tt))

  abbrev pub hashes : List (OutPoint × UtxoLeaf) → List Hash
  hashes outputs = map f.leaf_hash (leaves_of outputs)

  abbrev pub spent_outputs : Chain h f → BlockSummary → List (OutPoint × UtxoLeaf)
  spent_outputs c summary = known_outputs c.utxo_index summary.transparent_spends

  abbrev pub new_outputs : Chain h f → BlockSummary → List (OutPoint × UtxoLeaf)
  new_outputs c summary =
      lasting_outputs c.utxo_index summary.transparent_spends summary.transparent_creates

  -- a change of the forest that rustreexo refuses: deleting what the block spends, or then inserting
  -- what it creates
  abbrev pub ForestRefuses : Chain h f → BlockSummary → Failure → Type 0
  ForestRefuses c summary x =
      ((f.modify c.utxos [] (hashes (spent_outputs c summary))).1 ≡ err x)
      ⊎ ((mid : Forest) × ForestChange c.utxos [] (hashes (spent_outputs c summary)) mid
          × ((f.modify mid (hashes (new_outputs c summary)) []).1 ≡ err x))

  -- a block that was applied whole
  pub record Applied (c : Chain h f) (summary : BlockSummary)
      (trees : PoolId → IndexedMerkleTree Hash) (c' : Chain h f) (outcome : ApplyOutcome Hash)
      : Type 0 where
    pub distinct : DistinctFrom [] summary.transparent_spends
    pub mid : Forest
    pub deleted : ForestChange c.utxos [] (hashes (spent_outputs c summary)) mid
    pub added : ForestChange mid (hashes (new_outputs c summary)) [] c'.utxos
    pub index :
        (o : OutPoint)
        → utxo o c'.utxo_index
          ≡ latest o (new_outputs c summary) (
              if has_outpoint o (created_outpoints (spent_outputs c summary))
              then none
              else utxo o c.utxo_index)
    pub trees' : PoolId → IndexedMerkleTree Hash
    pub inserted : insert_pools h summary.nullifiers_for all_pools trees ≡ ok trees'
    pub holds : HoldsTrees h f c'.nullifiers trees'
    pub proofs :
        (p : PoolId)
        → insert_each h f (trees p) (summary.nullifiers_for p)
          ≡ (trees' p, ok (outcome.delta.insertions p))
    pub tip_next : c'.tip ≡ some summary.height
    pub height : outcome.delta.height ≡ summary.height
    pub spent : outcome.delta.spent ≡ spent_outputs c summary
    pub created : outcome.delta.created ≡ new_outputs c summary
    pub commitments : outcome.delta.commitments ≡ summary.commitments_for

  -- where rustreexo refuses a change, the nullifier trees and the tip are as they were
  abbrev pub Outcome :
      Chain h f
      → BlockSummary
      → (PoolId → IndexedMerkleTree Hash)
      → Chain h f × Applying h f (ApplyOutcome Hash)
      → Type 0
  Outcome c summary trees result =
      ((x : Failure) × (c' : Chain h f) × (result ≡ (c', err (utreexo x)))
        × ForestRefuses c summary x
        × (c'.nullifiers ≡ c.nullifiers)
        × (c'.tip ≡ c.tip))
      ⊎ ((c' : Chain h f) × (outcome : ApplyOutcome Hash) × (result ≡ (c', ok outcome))
          × Applied c summary trees c' outcome)
