-- ===== src/Imt/Path.antt =====
-- imt.rs: depths, capacities and Merkle paths: `check_depth`, `capacity_of`, `root_from_path`,
-- `check_path`, `empty_subtree_hashes` and `ImtState::new`.
use ztreexo.Prelude.{
  ℕ, zero, suc, ◌+◌, ◌-◌, ◌/◌, ◌%◌, ◌^◌, ◌<◌, ◌≡◌, ◌&&◌, not, List, [], ◌∷◌, Result, ok, err, ◌>>◌,
  refuse_if, leb, ltb, ◌==◌, if◌then◌else◌, length, arith,
}
use ztreexo.Pool.{PoolId}
use ztreexo.Digest.ImtHash.{ImtHash}
use ztreexo.Imt.Types.{
  ImtError, ImtState, invalid_depth, wrong_path_length, index_out_of_range, hash_leaf, sentinel,
  u64_max,
}

abbrev pub min_depth : ℕ
min_depth = 1

abbrev pub max_depth : ℕ
max_depth = 63

abbrev pub default_depth : ℕ
default_depth = 40

-- `idx ^ 1`: the other child of the same parent
unfoldable pub sibling_index : ℕ → ℕ
sibling_index i = if i % 2 == 0 then i + 1 else i - 1

-- `level.saturating_add(1)` on a `u8`
unfoldable pub next_level : ℕ → ℕ
next_level level = if ltb level 255 then level + 1 else 255

pub next_level-suc : (level : ℕ) → level < 255 → next_level level ≡ suc level
unfolding next_level
next_level-suc level h = ground arith

-- `1 << depth`, or the largest `u64` where the shift is not defined
unfoldable pub capacity_of : ℕ → ℕ
capacity_of depth = if ltb max_depth depth then u64_max else 2 ^ depth

module _ {Hash : Type 0} (h : ImtHash Hash) where
  unfoldable pub check_depth : ℕ → Result (ImtError Hash) (Unit {0})
  check_depth depth =
      if not (leb min_depth depth && leb depth max_depth) then err (invalid_depth depth) else ok tt

  -- the body of the loops over a path: join a node with its sibling, by the parity of its index
  unfoldable pub join : PoolId → ℕ → Hash → Hash → Hash
  join pool idx node sibling =
      if idx % 2 == 0 then h.imt_node pool node sibling else h.imt_node pool sibling node

  unfoldable pub root_from_path : PoolId → Hash → ℕ → List Hash → Hash
  root_from_path pool node idx [] = node
  root_from_path pool node idx (s ∷ siblings) =
      root_from_path pool (join pool idx node s) (idx / 2) siblings

  unfoldable pub check_path : ℕ → ℕ → List Hash → Result (ImtError Hash) (Unit {0})
  check_path depth index siblings = do
    check_depth depth
    refuse_if (not (length siblings == depth)) (wrong_path_length depth (length siblings))
    refuse_if (leb (capacity_of depth) index) (index_out_of_range index (capacity_of depth))
    ok tt

  -- the loop of `empty_subtree_hashes`, for the rounds that are left
  unfoldable pub empty_ladder : PoolId → ℕ → Hash → List Hash
  empty_ladder pool zero empty = []
  empty_ladder pool (suc n) empty = empty ∷ empty_ladder pool n (h.imt_node pool empty empty)

  unfoldable pub empty_subtree_hashes : PoolId → ℕ → Result (ImtError Hash) (List Hash)
  unfolding check_depth empty_ladder
  empty_subtree_hashes pool depth = do
    check_depth depth
    ok (empty_ladder pool depth (h.imt_empty_leaf pool))

  -- the loop of `ImtState::new`
  unfoldable pub sentinel_root : PoolId → ℕ → Hash → Hash → Hash
  sentinel_root pool zero node empty = node
  sentinel_root pool (suc n) node empty =
      sentinel_root pool n (h.imt_node pool node empty) (h.imt_node pool empty empty)

  -- `ImtState::new`
  unfoldable pub state_new : PoolId → ℕ → Result (ImtError Hash) (ImtState Hash)
  unfolding check_depth sentinel_root
  state_new pool depth = do
    check_depth depth
    ok (record {
      root = sentinel_root pool depth (hash_leaf h pool sentinel) (h.imt_empty_leaf pool);
      leaf_count = 1;
    })
