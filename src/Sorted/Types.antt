-- ===== src/Sorted/Types.antt =====
-- sorted.rs: the snapshot, its cohorts, and what they need of the hash functions of hash.rs.
use ztreexo.Prelude.{ℕ, ◌^◌, ◌<◌, ◌≡◌, ◌≢◌, ◌↔◌, Bool, true, List, Option}
use ztreexo.Pool.{PoolId}
use ztreexo.Imt.Types.{Value}
use ztreexo.Cohort.{PrefixRange}

-- `MAX_SORTED_DEPTH`
abbrev pub max_sorted_depth : ℕ
max_sorted_depth = 32

-- The operations of hash.rs that sorted.rs calls, with equality of digests. `zero_hash` is `[0u8; 32]`.
pub record SortedHash (Hash : Type 0) : Type 0 where
  pub sorted_leaf : PoolId → Value → Hash
  pub sorted_pad_leaf : PoolId → Hash
  pub sorted_node : PoolId → Hash → Hash → Hash
  pub zero_hash : Hash
  pub beq : Hash → Hash → Bool
  pub beq_iff : (a b : Hash) → (beq a b ≡ true) ↔ (a ≡ b)

-- Two different inputs of one pool's sorted hash functions with the same digest.
pub data SortedCollision {Hash : Type 0} (h : SortedHash Hash) (pool : PoolId) : Type 0 where
  two_nodes :
      (a b c d : Hash)
      → ¬ ((a ≡ c) × (b ≡ d))
      → h.sorted_node pool a b ≡ h.sorted_node pool c d
      → SortedCollision h pool
  two_values :
      (v w : Value)
      → v < 2 ^ 256
      → w < 2 ^ 256
      → v ≢ w
      → h.sorted_leaf pool v ≡ h.sorted_leaf pool w
      → SortedCollision h pool
  value_and_pad :
      (v : Value)
      → v < 2 ^ 256
      → h.sorted_leaf pool v ≡ h.sorted_pad_leaf pool
      → SortedCollision h pool

-- `levels` starts with the leaves and ends with the root alone
pub record SortedTree (Hash : Type 0) : Type 0 where
  pub pool : PoolId
  pub height : ℕ
  pub depth : ℕ
  pub values : List Value
  pub levels : List (List Hash)

-- `siblings` is the map from a level and an index
pub record SortedCohort (Hash : Type 0) : Type 0 where
  pub pool : PoolId
  pub depth : ℕ
  pub height : ℕ
  pub leaf_count : ℕ
  pub range : PrefixRange
  pub start_index : ℕ
  pub values : List Value
  pub siblings : ℕ → ℕ → Option Hash
