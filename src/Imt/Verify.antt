-- ===== src/Imt/Verify.antt =====
-- imt.rs: the two verifiers, which hold a root and a count and no tree.
use ztreexo.Prelude.{
  ℕ, ◌+◌, not, Result, ok, err, ◌>>=◌, ◌>>◌, refuse_if, ok_or, ltb, ◌==◌, Option, none, some,
  if◌then◌else◌,
}
use ztreexo.Pool.{PoolId}
use ztreexo.Digest.ImtHash.{ImtHash}
use ztreexo.Imt.Types.{
  Value, Leaf, covers, is_zero, ImtError, ImtState, NonMembershipProof, InsertionProof,
  reserved_value, low_leaf_does_not_cover, root_mismatch, unexpected_leaf_index, aliased_leaf_index,
  capacity_exhausted, corrupt_tree, leaf_count_overflow, hash_leaf, u64_max,
}
use ztreexo.Imt.Path.{check_path, root_from_path, capacity_of}

-- `checked_add(1)` on a `u64`
unfoldable pub checked_succ : ℕ → Option ℕ
checked_succ n = if ltb n u64_max then some (n + 1) else none

-- the low leaf after the splice: it points at the new value
unfoldable pub spliced_low : Leaf → Value → ℕ → Leaf
spliced_low low value index = record { value = low.value; next_value = value; next_index = index }

-- the new leaf inherits the low leaf's old successor
unfoldable pub spliced_new : Leaf → Value → Leaf
spliced_new low value = record {
  value = value;
  next_value = low.next_value;
  next_index = low.next_index;
}

module _ {Hash : Type 0} (h : ImtHash Hash) where
  unfoldable pub verify_non_membership :
      PoolId → ℕ → Hash → Value → NonMembershipProof Hash → Result (ImtError Hash) (Unit {0})
  verify_non_membership pool depth root value proof = do
    refuse_if (is_zero value) reserved_value
    check_path h depth proof.low_leaf_index proof.siblings
    refuse_if (not (covers proof.low_leaf value)) low_leaf_does_not_cover
    let computed =
        root_from_path h pool (hash_leaf h pool proof.low_leaf) proof.low_leaf_index proof.siblings
    refuse_if (not (h.beq computed root)) (root_mismatch root computed)
    ok tt

  unfoldable pub verify_insertion :
      PoolId
      → ℕ
      → ImtState Hash
      → Value
      → InsertionProof Hash
      → Result (ImtError Hash) (ImtState Hash)
  unfolding spliced_low spliced_new
  verify_insertion pool depth state value proof = do
    refuse_if (is_zero value) reserved_value
    check_path h depth proof.low_leaf_index proof.low_leaf_siblings
    check_path h depth proof.new_leaf_index proof.new_leaf_siblings
    refuse_if (not (proof.new_leaf_index == state.leaf_count))
        (unexpected_leaf_index state.leaf_count proof.new_leaf_index)
    refuse_if (proof.low_leaf_index == proof.new_leaf_index)
        (aliased_leaf_index proof.new_leaf_index)
    refuse_if (not (covers proof.low_leaf value)) low_leaf_does_not_cover
    let old_root =
        root_from_path h pool (hash_leaf h pool proof.low_leaf) proof.low_leaf_index
          proof.low_leaf_siblings
    refuse_if (not (h.beq old_root state.root)) (root_mismatch state.root old_root)
    let updated_low = spliced_low proof.low_leaf value proof.new_leaf_index
    let intermediate =
        root_from_path h pool (hash_leaf h pool updated_low) proof.low_leaf_index
          proof.low_leaf_siblings
    let empty_root =
        root_from_path h pool (h.imt_empty_leaf pool) proof.new_leaf_index proof.new_leaf_siblings
    refuse_if (not (h.beq empty_root intermediate)) (root_mismatch intermediate empty_root)
    let new_leaf = spliced_new proof.low_leaf value
    let root =
        root_from_path h pool (hash_leaf h pool new_leaf) proof.new_leaf_index
          proof.new_leaf_siblings
    leaf_count ← ok_or (checked_succ state.leaf_count) (corrupt_tree leaf_count_overflow)
    refuse_if (ltb (capacity_of depth) leaf_count) (capacity_exhausted depth (capacity_of depth))
    ok (record { root = root; leaf_count = leaf_count })

  -- `ImtState::apply_insertion`: the state afterwards, with the outcome. An error leaves it as it was.
  unfoldable pub apply_insertion :
      PoolId
      → ℕ
      → ImtState Hash
      → Value
      → InsertionProof Hash
      → ImtState Hash × Result (ImtError Hash) (Unit {0})
  apply_insertion pool depth state value proof =
      elim (verify_insertion pool depth state value proof) [
        | ok next ↦ (next, ok tt)
        | err e ↦ (state, err e)
      ]
