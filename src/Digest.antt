-- ===== src/Digest.antt =====
-- crates/zutreexo-accumulator/src/hash.rs: domain-separated hashing over BLAKE2b.
pub mod ImtHash
pub mod Separators
pub mod Preimage
mod Examples
use ztreexo.Prelude.{ℕ, zero, suc, ◌≡◌, List, [], ◌∷◌, ◌++◌, length, replicate, length-replicate}
use ztreexo.Pool.{PoolId, tag}
use ztreexo.Bytes.{be_bytes, le_bytes}

-- `[u8; 32]`
pub record Hash : Type 0 where
  pub bytes : List ℕ
  pub length-bytes : length bytes ≡ 32

unfoldable pub zero_hash : Hash
zero_hash = record { bytes = replicate 32 0; length-bytes = length-replicate {A = ℕ} 32 0 }

abbrev pub role_leaf : List ℕ
role_leaf = b'L' ∷ b'e' ∷ b'a' ∷ b'f' ∷ []

abbrev pub role_node : List ℕ
role_node = b'N' ∷ b'o' ∷ b'd' ∷ b'e' ∷ []

abbrev pub role_empty : List ℕ
role_empty = b'E' ∷ b'm' ∷ b'p' ∷ b't' ∷ []

abbrev pub role_pad : List ℕ
role_pad = b'P' ∷ b'a' ∷ b'd' ∷ b'd' ∷ []

-- `"ZNullIMT" ‖ pool ‖ role`
pub imt_personal : PoolId → List ℕ → List ℕ
imt_personal pool role = b'Z' ∷ b'N' ∷ b'u' ∷ b'l' ∷ b'l' ∷ b'I' ∷ b'M' ∷ b'T' ∷ (tag pool ++ role)

-- `"ZSortNul" ‖ pool ‖ role`
pub sorted_personal : PoolId → List ℕ → List ℕ
sorted_personal pool role =
    b'Z' ∷ b'S' ∷ b'o' ∷ b'r' ∷ b't' ∷ b'N' ∷ b'u' ∷ b'l' ∷ (tag pool ++ role)

pub imt_leaf_personal : PoolId → List ℕ
unfolding imt_personal
imt_leaf_personal pool = imt_personal pool role_leaf

pub imt_node_personal : PoolId → List ℕ
unfolding imt_personal
imt_node_personal pool = imt_personal pool role_node

pub imt_empty_personal : PoolId → List ℕ
unfolding imt_personal
imt_empty_personal pool = imt_personal pool role_empty

pub sorted_leaf_personal : PoolId → List ℕ
unfolding sorted_personal
sorted_leaf_personal pool = sorted_personal pool role_leaf

pub sorted_node_personal : PoolId → List ℕ
unfolding sorted_personal
sorted_node_personal pool = sorted_personal pool role_node

pub sorted_pad_personal : PoolId → List ℕ
unfolding sorted_personal
sorted_pad_personal pool = sorted_personal pool role_pad

-- `"ZUtxoAccum__Leaf"`, `"ZUtxoAccum__Node"` and `"ZStore__Checksum"`
abbrev pub utxo_leaf_personal : List ℕ
utxo_leaf_personal =
    b'Z' ∷ b'U' ∷ b't' ∷ b'x' ∷ b'o' ∷ b'A' ∷ b'c' ∷ b'c' ∷ b'u' ∷ b'm' ∷ b'_' ∷ b'_' ∷ b'L' ∷ b'e'
    ∷ b'a' ∷ b'f' ∷ []

abbrev pub utxo_node_personal : List ℕ
utxo_node_personal =
    b'Z' ∷ b'U' ∷ b't' ∷ b'x' ∷ b'o' ∷ b'A' ∷ b'c' ∷ b'c' ∷ b'u' ∷ b'm' ∷ b'_' ∷ b'_' ∷ b'N' ∷ b'o'
    ∷ b'd' ∷ b'e' ∷ []

abbrev pub store_personal : List ℕ
store_personal =
    b'Z' ∷ b'S' ∷ b't' ∷ b'o' ∷ b'r' ∷ b'e' ∷ b'_' ∷ b'_' ∷ b'C' ∷ b'h' ∷ b'e' ∷ b'c' ∷ b'k' ∷ b's'
    ∷ b'u' ∷ b'm' ∷ []

-- BLAKE2b-256 of a message under a personalization: the crate `blake2b_simd`, a parameter.
module _ (blake2b : List ℕ → List ℕ → Hash) where
  pub imt_leaf : PoolId → ℕ → ℕ → ℕ → Hash
  unfolding imt_leaf_personal
  imt_leaf pool value next_value next_index =
      blake2b (imt_leaf_personal pool)
        (be_bytes 32 value ++ (be_bytes 32 next_value ++ le_bytes 8 next_index))

  pub imt_node : PoolId → Hash → Hash → Hash
  unfolding imt_node_personal
  imt_node pool left right = blake2b (imt_node_personal pool) (left.bytes ++ right.bytes)

  pub imt_empty_leaf : PoolId → Hash
  unfolding imt_empty_personal
  imt_empty_leaf pool = blake2b (imt_empty_personal pool) []

  pub sorted_leaf : PoolId → ℕ → Hash
  unfolding sorted_leaf_personal
  sorted_leaf pool value = blake2b (sorted_leaf_personal pool) (be_bytes 32 value)

  pub sorted_node : PoolId → Hash → Hash → Hash
  unfolding sorted_node_personal
  sorted_node pool left right = blake2b (sorted_node_personal pool) (left.bytes ++ right.bytes)

  pub sorted_pad_leaf : PoolId → Hash
  unfolding sorted_pad_personal
  sorted_pad_leaf pool = blake2b (sorted_pad_personal pool) []

  pub store_checksum : List ℕ → Hash
  store_checksum payload = blake2b store_personal payload

  pub utxo_leaf : List ℕ → Hash
  utxo_leaf preimage = blake2b utxo_leaf_personal preimage

  pub utxo_node : Hash → Hash → Hash
  utxo_node left right = blake2b utxo_node_personal (left.bytes ++ right.bytes)
