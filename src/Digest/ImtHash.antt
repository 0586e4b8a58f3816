-- ===== src/Digest/ImtHash.antt =====
-- What an indexed Merkle tree needs of its hash functions, and what a break of them would be.
use ztreexo.Prelude.{ℕ, ◌^◌, ◌<◌, ◌≡◌, ◌↔◌, Bool, true}
use ztreexo.Pool.{PoolId}

-- The operations of hash.rs that imt.rs calls, with equality of digests. `zero_hash` is `[0u8; 32]`.
pub record ImtHash (Hash : Type 0) : Type 0 where
  pub imt_leaf : PoolId → ℕ → ℕ → ℕ → Hash
  pub imt_empty_leaf : PoolId → Hash
  pub imt_node : PoolId → Hash → Hash → Hash
  pub zero_hash : Hash
  pub beq : Hash → Hash → Bool
  pub beq_iff : (a b : Hash) → (beq a b ≡ true) ↔ (a ≡ b)

-- The fields of a leaf lie in the ranges of their types: two 256-bit values and a `u64`.
pub record Fits (value next_value next_index : ℕ) : Type 0 where
  pub value_fits : value < 2 ^ 256
  pub next_value_fits : next_value < 2 ^ 256
  pub next_index_fits : next_index < 2 ^ 64

-- Two different inputs of one pool's hash functions with the same digest.
pub data Collision {Hash : Type 0} (h : ImtHash Hash) (pool : PoolId) : Type 0 where
  two_nodes :
      (a b c d : Hash)
      → ¬ ((a ≡ c) × (b ≡ d))
      → h.imt_node pool a b ≡ h.imt_node pool c d
      → Collision h pool
  two_leaves :
      (v n i w m j : ℕ)
      → Fits v n i
      → Fits w m j
      → ¬ ((v ≡ w) × (n ≡ m) × (i ≡ j))
      → h.imt_leaf pool v n i ≡ h.imt_leaf pool w m j
      → Collision h pool
  leaf_and_empty :
      (v n i : ℕ) → Fits v n i → h.imt_leaf pool v n i ≡ h.imt_empty_leaf pool → Collision h pool
