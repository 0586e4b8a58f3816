-- ===== src/Sorted/Build.antt =====
-- sorted.rs: `SortedTree::from_imt`, `from_sorted_values`, `root` and `depth_for`.
use ztreexo.Prelude.{
  ℕ, zero, suc, ◌+◌, ◌^◌, Bool, true, not, ◌&&◌, List, [], ◌∷◌, map, length, take, replicate,
  Result, ok, err, ◌>>=◌, ◌>>◌, refuse_if, ltb, ◌==◌, if◌then◌else◌, ◌++◌, ◌-◌,
}
use ztreexo.Pool.{PoolId}
use ztreexo.Imt.Types.{Value, value_zero}
use ztreexo.Imt.Tree.{IndexedMerkleTree, sorted_values}
use ztreexo.Cohort.{CohortError, invalid_prefix_bits, unsorted_values}
use ztreexo.Sorted.Types.{SortedHash, SortedTree, max_sorted_depth}

-- the sentinel in front, unless it is there
unfoldable pub with_sentinel : List Value → List Value
with_sentinel [] = value_zero ∷ []
with_sentinel (v ∷ vs) = if v == value_zero then v ∷ vs else value_zero ∷ v ∷ vs

-- no pair of neighbours with `a >= b`
unfoldable pub ascending : List Value → Bool
ascending [] = true
ascending (v ∷ []) = true
ascending (v ∷ w ∷ vs) = ltb v w && ascending (w ∷ vs)

-- `Vec::resize`
abbrev pub resize {ℓ} : {A : Type ℓ} → ℕ → A → List A → List A
resize n a xs = take n xs ++ replicate (n - length xs) a

module _ {Hash : Type 0} where
  -- the loop of `depth_for`; `left` is how far `depth` is below the cap
  unfoldable pub depth_loop : ℕ → ℕ → ℕ → Result (CohortError Hash) ℕ
  depth_loop zero depth count =
      if ltb (2 ^ depth) count
      then err (invalid_prefix_bits (depth + 1) max_sorted_depth)
      else ok depth
  depth_loop (suc left) depth count =
      let rest = depth_loop left (depth + 1) count in
      if ltb (2 ^ depth) count then rest else ok depth

  unfoldable pub depth_for : ℕ → Result (CohortError Hash) ℕ
  depth_for count = depth_loop max_sorted_depth 0 count

module _ {Hash : Type 0} (h : SortedHash Hash) (pool : PoolId) where
  -- the parents of a level, two nodes at a time
  unfoldable pub parents_of : List Hash → List Hash
  parents_of [] = []
  parents_of (left ∷ []) = h.sorted_node pool left (h.sorted_pad_leaf pool) ∷ []
  parents_of (left ∷ right ∷ nodes) = h.sorted_node pool left right ∷ parents_of nodes

  -- a level and those above it
  unfoldable pub levels_from : ℕ → List Hash → List (List Hash)
  levels_from zero level = level ∷ []
  levels_from (suc depth) level = level ∷ levels_from depth (parents_of level)

  abbrev pub bottom_level : ℕ → List Value → List Hash
  bottom_level slots values =
      resize slots (h.sorted_pad_leaf pool) (map (h.sorted_leaf pool) values)

  unfoldable pub from_sorted_values : ℕ → List Value → Result (CohortError Hash) (SortedTree Hash)
  from_sorted_values height given = do
    let values = with_sentinel given
    refuse_if (not (ascending values)) unsorted_values
    depth ← depth_for (length values)
    ok (record {
      pool = pool;
      height = height;
      depth = depth;
      values = values;
      levels = levels_from depth (bottom_level (2 ^ depth) values);
    })

module _ {Hash : Type 0} (h : SortedHash Hash) where
  unfoldable pub from_imt : IndexedMerkleTree Hash → ℕ → Result (CohortError Hash) (SortedTree Hash)
  from_imt t height = from_sorted_values h t.pool height (sorted_values t)

  -- `levels.last()`, then `first()`
  unfoldable pub top : List (List Hash) → Hash
  top [] = h.zero_hash
  top ([] ∷ []) = h.zero_hash
  top ((node ∷ nodes) ∷ []) = node
  top (level ∷ next ∷ levels) = top (next ∷ levels)

  unfoldable pub root : SortedTree Hash → Hash
  root t = top t.levels
