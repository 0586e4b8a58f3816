-- ===== src/Rollback/Unwind.antt =====
-- rollback.rs: the shielded half of `rollback_to`, which undoes the insertions newest first.
use ztreexo.Prelude.{true, false, List, [], ◌∷◌, ◌++◌, none, some, Result, ok, err}
use ztreexo.Pool.{PoolId, all_pools}
use ztreexo.Digest.ImtHash.{ImtHash}
use ztreexo.Imt.Types.{Value, InsertionProof, ImtError}
use ztreexo.Imt.Tree.{IndexedMerkleTree}
use ztreexo.Imt.Removal.{undo_insert}
use ztreexo.Chain.Types.{put_pool, is_empty}
use ztreexo.Chain.Accumulators.{StateDelta, ChainAccumulators}
use ztreexo.Rollback.Journal.{RollbackError, imt, missing_pool}

-- `iter().rev()`
abbrev pub reversed {ℓ} : {A : Type ℓ} → List A → List A
reversed [] = []
reversed (x ∷ xs) = reversed xs ++ x ∷ []

module _ {Hash : Type 0} (h : ImtHash Hash) where
  -- the calls of `undo_insert` on one tree, in the order of the list
  unfoldable pub undo_each :
      IndexedMerkleTree Hash
      → List (Value × InsertionProof Hash)
      → IndexedMerkleTree Hash × Result (ImtError Hash) (Unit {0})
  undo_each t [] = (t, ok tt)
  undo_each t ((value, proof) ∷ rest) =
      let (t', outcome) = undo_insert h t value proof in
      elim outcome [ err e ↦ (t', err e) | ok _ ↦ undo_each t' rest ]

  module _ {Forest Failure : Type 0} where
    -- The entries of a delta's `insertions` are the pools with insertions.
    unfoldable pub undo_pools :
        (PoolId → List (Value × InsertionProof Hash))
        → List PoolId
        → ChainAccumulators Hash Forest
        → ChainAccumulators Hash Forest × Result (RollbackError Hash Failure) (Unit {0})
    unfolding put_pool
    undo_pools insertions [] c = (c, ok tt)
    undo_pools insertions (p ∷ ps) c = elim (is_empty (insertions p)) [
      | true ↦ undo_pools insertions ps c
      | false ↦ elim (c.nullifiers p) [
        | none ↦ (c, err (missing_pool p))
        | some t ↦
            let (t', outcome) = undo_each t (reversed (insertions p)) in
            let c' = record c { nullifiers = put_pool p (some t') c.nullifiers } in
            elim outcome [ err e ↦ (c', err (imt e)) | ok _ ↦ undo_pools insertions ps c' ]
      ]
    ]

    -- the deltas to undo, newest first
    unfoldable pub undo_deltas :
        List (StateDelta Hash)
        → ChainAccumulators Hash Forest
        → ChainAccumulators Hash Forest × Result (RollbackError Hash Failure) (Unit {0})
    undo_deltas [] c = (c, ok tt)
    undo_deltas (d ∷ ds) c =
        let (c', outcome) = undo_pools d.insertions (reversed all_pools) c in
        elim outcome [ err e ↦ (c', err e) | ok _ ↦ undo_deltas ds c' ]
