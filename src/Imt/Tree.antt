-- ===== src/Imt/Tree.antt =====
-- imt.rs: `IndexedMerkleTree`, its node cache, and the operations that read and change it.
use ztreexo.Prelude.{
  ℕ, ◌-◌, Bool, not, List, [], ◌∷◌, ◌++◌, Option, none, some, Result, ok, err, ◌>>=◌, ◌>>◌,
  refuse_if, ok_or, leb, ltb, ◌==◌, if◌then◌else◌, length, get_elem?, set,
}
use ztreexo.Pool.{PoolId}
use ztreexo.Digest.ImtHash.{ImtHash}
use ztreexo.Imt.Types.{
  Value, Leaf, covers, is_zero, sentinel, ImtError, ImtState, NonMembershipProof, InsertionProof,
  reserved_value, duplicate_value, value_is_member, capacity_exhausted, corrupt_tree,
  sentinel_missing, missing_leaf, not_sorted, unoccupied_index, hash_leaf, u64_max,
}
use ztreexo.Imt.Path.{check_depth, capacity_of, default_depth}
use ztreexo.Imt.Nodes.{
  Nodes, no_nodes, put_node, zeros_ladder, zero_at, node_at, path_siblings, write_path, clear_path,
}
use ztreexo.Imt.Verify.{spliced_low, spliced_new}
use ztreexo.Imt.Index
use ztreexo.Imt.Index.{Index}

pub record IndexedMerkleTree (Hash : Type 0) : Type 0 where
  pub pool : PoolId
  pub depth : ℕ
  pub zeros : List Hash
  pub leaves : List Leaf
  pub index_by_value : Index
  pub nodes : Nodes Hash

module _ {Hash : Type 0} where
  -- `u64::try_from(self.leaves.len()).unwrap_or(u64::MAX)`
  unfoldable pub leaf_count : IndexedMerkleTree Hash → ℕ
  leaf_count t = if leb (length t.leaves) u64_max then length t.leaves else u64_max

  -- `leaf_count().saturating_sub(1)`
  unfoldable pub value_count : IndexedMerkleTree Hash → ℕ
  unfolding leaf_count
  value_count t = leaf_count t - 1

  abbrev pub leaf : IndexedMerkleTree Hash → ℕ → Option Leaf
  leaf t index = get_elem? t.leaves index

  abbrev pub capacity : IndexedMerkleTree Hash → ℕ
  capacity t = capacity_of t.depth

  unfoldable pub contains : IndexedMerkleTree Hash → Value → Bool
  contains t value = Index.contains_key value t.index_by_value

  unfoldable pub sorted_values : IndexedMerkleTree Hash → List Value
  sorted_values t = Index.keys t.index_by_value

  -- the checks of `low_leaf` on an entry of the value index
  unfoldable pub low_leaf_entry :
      IndexedMerkleTree Hash → Value → Option (Value × ℕ) → Result (ImtError Hash) (Leaf × ℕ)
  low_leaf_entry t value none = err (corrupt_tree sentinel_missing)
  low_leaf_entry t value (some (found, index)) = do
    refuse_if (found == value) value_is_member
    low ← ok_or (leaf t index) (corrupt_tree missing_leaf)
    refuse_if (not (covers low value)) (corrupt_tree not_sorted)
    ok (low, index)

  -- `low_leaf`
  unfoldable pub low_leaf : IndexedMerkleTree Hash → Value → Result (ImtError Hash) (Leaf × ℕ)
  unfolding low_leaf_entry
  low_leaf t value = low_leaf_entry t value (Index.last_at_most value t.index_by_value)

  -- the errors of `low_leaf` that `insert` passes on, with the one that it renames
  unfoldable pub as_duplicate {ℓ} :
      {A : Type ℓ} → Result (ImtError Hash) A → Result (ImtError Hash) A
  as_duplicate (ok found) = ok found
  as_duplicate (err value_is_member) = err duplicate_value
  as_duplicate (err other) = err other

module _ {Hash : Type 0} (h : ImtHash Hash) where
  unfoldable pub node : IndexedMerkleTree Hash → ℕ → ℕ → Hash
  node t level index = node_at h t.zeros t.nodes level index

  unfoldable pub root : IndexedMerkleTree Hash → Hash
  unfolding node
  root t = node t t.depth 0

  unfoldable pub state : IndexedMerkleTree Hash → ImtState Hash
  unfolding root leaf_count
  state t = record { root = root t; leaf_count = leaf_count t }

  unfoldable pub siblings : IndexedMerkleTree Hash → ℕ → List Hash
  siblings t index = path_siblings h t.zeros t.nodes t.depth 0 index

  unfoldable pub write_leaf : IndexedMerkleTree Hash → ℕ → Leaf → IndexedMerkleTree Hash
  write_leaf t index l =
      let digest = hash_leaf h t.pool l in
      record t {
        nodes =
            write_path h t.pool t.zeros t.depth 0 index digest
              (put_node t.nodes 0 index (some digest));
      }

  unfoldable pub clear_leaf : IndexedMerkleTree Hash → ℕ → IndexedMerkleTree Hash
  clear_leaf t index = record t {
    nodes =
        clear_path h t.pool t.zeros t.depth 0 index (zero_at h t.zeros 0)
          (put_node t.nodes 0 index none);
  }

  -- `set_leaf`: an occupied slot is replaced and its path rehashed
  unfoldable pub set_leaf :
      IndexedMerkleTree Hash → ℕ → Leaf → Result (ImtError Hash) (IndexedMerkleTree Hash)
  unfolding write_leaf
  set_leaf t index l =
      if ltb index (length t.leaves)
      then ok (write_leaf (record t { leaves = set t.leaves index l }) index l)
      else err (corrupt_tree unoccupied_index)

  -- `self.leaves.push`, `index_by_value.insert`, `write_leaf`: the last three calls of `insert`
  unfoldable pub append_leaf : IndexedMerkleTree Hash → ℕ → Leaf → IndexedMerkleTree Hash
  unfolding write_leaf
  append_leaf t index l =
      write_leaf
        (record t {
          leaves = t.leaves ++ l ∷ [];
          index_by_value = Index.insert l.value index t.index_by_value;
        })
        index l

  unfoldable pub with_depth : PoolId → ℕ → Result (ImtError Hash) (IndexedMerkleTree Hash)
  unfolding append_leaf
  with_depth pool depth = do
    check_depth h depth
    let bare : IndexedMerkleTree Hash = record {
      pool = pool;
      depth = depth;
      zeros = zeros_ladder h pool depth (h.imt_empty_leaf pool);
      leaves = [];
      index_by_value = [];
      nodes = no_nodes;
    }
    ok (append_leaf bare 0 sentinel)

  -- `new`
  unfoldable pub new : PoolId → Result (ImtError Hash) (IndexedMerkleTree Hash)
  unfolding with_depth
  new pool = with_depth pool default_depth

  unfoldable pub prove_non_membership :
      IndexedMerkleTree Hash → Value → Result (ImtError Hash) (NonMembershipProof Hash)
  unfolding low_leaf siblings
  prove_non_membership t value = do
    refuse_if (is_zero value) reserved_value
    (low, index) ← low_leaf t value
    ok (record { low_leaf = low; low_leaf_index = index; siblings = siblings t index })

  -- `insert`: the tree afterwards and the proof, or an error, and then the tree is as it was. The
  -- mutations stand after every check but that of `set_leaf`.
  unfoldable pub insert :
      IndexedMerkleTree Hash
      → Value
      → Result (ImtError Hash) (IndexedMerkleTree Hash × InsertionProof Hash)
  unfolding leaf_count low_leaf as_duplicate siblings set_leaf append_leaf spliced_low spliced_new
  insert t value = do
    refuse_if (is_zero value) reserved_value
    let new_leaf_index = leaf_count t
    refuse_if (leb (capacity t) new_leaf_index) (capacity_exhausted t.depth (capacity t))
    (low, low_index) ← as_duplicate (low_leaf t value)
    let low_siblings = siblings t low_index
    t' ← set_leaf t low_index (spliced_low low value new_leaf_index)
    let new_siblings = siblings t' new_leaf_index
    ok (
      append_leaf t' new_leaf_index (spliced_new low value),
      record {
        low_leaf = low;
        low_leaf_index = low_index;
        low_leaf_siblings = low_siblings;
        new_leaf_index = new_leaf_index;
        new_leaf_siblings = new_siblings;
      },
    )

  -- `from_values`, from the tree that `with_depth` made
  unfoldable pub insert_all :
      List Value → IndexedMerkleTree Hash → Result (ImtError Hash) (IndexedMerkleTree Hash)
  insert_all [] t = ok t
  insert_all (v ∷ vs) t = do r ← insert t v; insert_all vs r.0

  unfoldable pub from_values :
      PoolId → ℕ → List Value → Result (ImtError Hash) (IndexedMerkleTree Hash)
  unfolding with_depth insert_all
  from_values pool depth values = do t ← with_depth pool depth; insert_all values t

  -- `insert_batch`: the proofs in order. On an error the tree keeps the inserted prefix, so the tree
  -- comes back beside the outcome.
  unfoldable pub insert_batch :
      IndexedMerkleTree Hash
      → List Value
      → IndexedMerkleTree Hash × Result (ImtError Hash) (List (InsertionProof Hash))
  insert_batch t [] = (t, ok [])
  insert_batch t (v ∷ vs) = elim (insert t v) [
    | err e ↦ (t, err e)
    | ok (t', proof) ↦
        let (last, proofs) = insert_batch t' vs in (last, (do ps ← proofs; ok (proof ∷ ps)))
  ]
