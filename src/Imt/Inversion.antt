-- ===== src/Imt/Inversion.antt =====
-- imt.rs: what `verify_insertion` has checked when it accepts a proof.
use ztreexo.Prelude.{ℕ, suc, ◌≤◌, ◌≡◌, ◌≢◌, true, arith, ok}
use ztreexo.Pool.{PoolId}
use ztreexo.Digest.ImtHash.{ImtHash}
use ztreexo.Imt.Types.{Value, covers, hash_leaf, InsertionProof, ImtState}
use ztreexo.Imt.Path.{check_path, capacity_of, root_from_path}
use ztreexo.Imt.Verify.{verify_insertion, spliced_low, spliced_new, checked_succ}

module _ {Hash : Type 0} (h : ImtHash Hash) where
  -- what an insertion proof that passes has shown, and the state that it leads to
  pub record Accepted (pool : PoolId) (depth : ℕ) (before : ImtState Hash) (value : Value)
      (proof : InsertionProof Hash) (next : ImtState Hash) : Type 0 where
    pub nonzero : value ≢ 0
    pub low_checked : check_path h depth proof.low_leaf_index proof.low_leaf_siblings ≡ ok tt
    pub new_checked : check_path h depth proof.new_leaf_index proof.new_leaf_siblings ≡ ok tt
    pub appends : proof.new_leaf_index ≡ before.leaf_count
    pub apart : proof.low_leaf_index ≢ proof.new_leaf_index
    pub covering : covers proof.low_leaf value ≡ true
    pub old_root :
        root_from_path h pool
          (hash_leaf h pool proof.low_leaf)
          proof.low_leaf_index
          proof.low_leaf_siblings
        ≡ before.root
    pub was_empty :
        root_from_path h pool (h.imt_empty_leaf pool) proof.new_leaf_index proof.new_leaf_siblings
        ≡ root_from_path h pool
            (hash_leaf h pool (spliced_low proof.low_leaf value proof.new_leaf_index))
            proof.low_leaf_index
            proof.low_leaf_siblings
    pub fits : suc before.leaf_count ≤ capacity_of depth
    pub next_count : next.leaf_count ≡ suc before.leaf_count
    pub next_root :
        next.root
        ≡ root_from_path h pool
            (hash_leaf h pool (spliced_new proof.low_leaf value))
            proof.new_leaf_index
            proof.new_leaf_siblings

  pub verify_insertion-inversion :
      (pool : PoolId) (depth : ℕ) (before : ImtState Hash) (value : Value)
      (proof : InsertionProof Hash) (next : ImtState Hash)
      → verify_insertion h pool depth before value proof ≡ ok next
      → Accepted pool depth before value proof next
  unfolding verify_insertion checked_succ
  verify_insertion-inversion pool depth before value proof next e = ground (
    arith,
    h.beq_iff
        (root_from_path h pool (hash_leaf h pool proof.low_leaf) proof.low_leaf_index
          proof.low_leaf_siblings)
        before.root,
    h.beq_iff
        (root_from_path h pool (h.imt_empty_leaf pool) proof.new_leaf_index proof.new_leaf_siblings)
        (root_from_path h pool
          (hash_leaf h pool (spliced_low proof.low_leaf value proof.new_leaf_index))
          proof.low_leaf_index proof.low_leaf_siblings),
  )
