-- ===== src/Imt/Removal.antt =====
-- imt.rs: `IndexedMerkleTree::undo_insert`.
use ztreexo.Prelude.{
  ℕ, ◌-◌, not, ◌||◌, Result, ok, err, ◌>>=◌, ◌>>◌, refuse_if, ok_or, ◌==◌, drop_last,
}
use ztreexo.Digest.ImtHash.{ImtHash}
use ztreexo.Imt.Types.{
  Value, is_zero, ImtError, InsertionProof, reserved_value, not_most_recent, proof_mismatch,
  corrupt_tree, no_sentinel, leaf_count_exceeds_leaves, low_leaf_out_of_range,
}
use ztreexo.Imt.Index
use ztreexo.Imt.Index.{Index}
use ztreexo.Imt.Tree.{IndexedMerkleTree, leaf_count, leaf, clear_leaf, set_leaf}

module _ {Hash : Type 0} (h : ImtHash Hash) where
  -- the checks of `undo_insert`, all before its first mutation; they read the tree and change nothing
  unfoldable pub check_undo :
      IndexedMerkleTree Hash → Value → InsertionProof Hash → Result (ImtError Hash) (Unit {0})
  unfolding leaf_count
  check_undo t value proof = do
    refuse_if (is_zero value) reserved_value
    refuse_if (leaf_count t == 0) (corrupt_tree no_sentinel)
    let last_index = leaf_count t - 1
    refuse_if (not (proof.new_leaf_index == last_index) || last_index == 0)
        (not_most_recent proof.new_leaf_index last_index)
    appended ← ok_or (leaf t last_index) (corrupt_tree leaf_count_exceeds_leaves)
    refuse_if (not (appended.value == value)) proof_mismatch
    current_low ← ok_or (leaf t proof.low_leaf_index) (corrupt_tree low_leaf_out_of_range)
    refuse_if
        (not (current_low.next_value == value)
          || not (current_low.next_index == proof.new_leaf_index))
        proof_mismatch
    refuse_if (not (current_low.value == proof.low_leaf.value)) proof_mismatch
    refuse_if
        (not (proof.low_leaf.next_value == appended.next_value)
          || not (proof.low_leaf.next_index == appended.next_index))
        proof_mismatch
    ok tt

  -- the mutation of `undo_insert` before `set_leaf`: pop, `index_by_value.remove`, `clear_leaf`
  unfoldable pub remove_leaf : IndexedMerkleTree Hash → Value → ℕ → IndexedMerkleTree Hash
  unfolding clear_leaf
  remove_leaf t value index =
      clear_leaf h
        (record t {
          leaves = drop_last t.leaves;
          index_by_value = Index.remove value t.index_by_value;
        })
        index

  -- what the outcome of the last call, `set_leaf`, makes of the tree
  unfoldable pub finish_undo :
      IndexedMerkleTree Hash
      → Result (ImtError Hash) (IndexedMerkleTree Hash)
      → IndexedMerkleTree Hash × Result (ImtError Hash) (Unit {0})
  finish_undo cleared (ok t) = (t, ok tt)
  finish_undo cleared (err e) = (cleared, err e)

  -- `undo_insert`: the tree afterwards, with the outcome
  unfoldable pub undo_insert :
      IndexedMerkleTree Hash
      → Value
      → InsertionProof Hash
      → IndexedMerkleTree Hash × Result (ImtError Hash) (Unit {0})
  undo_insert t value proof = elim (check_undo t value proof) [
    | err e ↦ (t, err e)
    | ok _ ↦
        let cleared = remove_leaf t value (leaf_count t - 1) in
        finish_undo cleared (set_leaf h cleared proof.low_leaf_index proof.low_leaf)
  ]
