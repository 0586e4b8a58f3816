-- ===== src/Imt/Types.antt =====
-- imt.rs: values, leaves, errors, the compact state and the two proofs.
use ztreexo.Prelude.{ℕ, ◌^◌, ◌<◌, Bool, ◌&&◌, ◌||◌, List, ltb, ◌==◌}
use ztreexo.Pool.{PoolId}
use ztreexo.Digest.ImtHash.{ImtHash, Fits}

-- A 32-byte nullifier, as the number that its bytes stand for big-endian; `Bytes.Order` shows that
-- the derived order is the order of the numbers.
abbrev pub Value : Type 0
Value = ℕ

abbrev pub IsValue : Value → Type 0
IsValue v = v < 2 ^ 256

-- `Value::ZERO`
abbrev pub value_zero : Value
value_zero = 0

-- `Value::is_zero`
abbrev pub is_zero : Value → Bool
is_zero v = v == 0

abbrev pub u64_max : ℕ
u64_max = 18446744073709551615

pub record Leaf : Type 0 where
  pub value : Value
  pub next_value : Value
  pub next_index : ℕ

-- `Leaf::SENTINEL`
abbrev pub sentinel : Leaf
sentinel = record { value = value_zero; next_value = value_zero; next_index = 0 }

abbrev pub LeafFits : Leaf → Type 0
LeafFits l = Fits l.value l.next_value l.next_index

unfoldable pub covers : Leaf → Value → Bool
covers l v = ltb l.value v && (is_zero l.next_value || ltb v l.next_value)

-- the messages of `CorruptTree`
pub data CorruptReason : Type 0 where
  leaf_count_overflow no_sentinel leaf_count_exceeds_leaves low_leaf_out_of_range : CorruptReason
  sentinel_missing missing_leaf not_sorted unoccupied_index : CorruptReason

pub data ImtError (Hash : Type 0) : Type 0 where
  reserved_value duplicate_value value_is_member : ImtError Hash
  capacity_exhausted : (depth capacity : ℕ) → ImtError Hash
  invalid_depth : (depth : ℕ) → ImtError Hash
  wrong_path_length : (expected found : ℕ) → ImtError Hash
  low_leaf_does_not_cover : ImtError Hash
  not_most_recent : (asked newest : ℕ) → ImtError Hash
  proof_mismatch : ImtError Hash
  root_mismatch : (expected computed : Hash) → ImtError Hash
  index_out_of_range : (index capacity : ℕ) → ImtError Hash
  unexpected_leaf_index : (expected found : ℕ) → ImtError Hash
  aliased_leaf_index : (index : ℕ) → ImtError Hash
  corrupt_tree : CorruptReason → ImtError Hash

pub record ImtState (Hash : Type 0) : Type 0 where
  pub root : Hash
  pub leaf_count : ℕ

pub record NonMembershipProof (Hash : Type 0) : Type 0 where
  pub low_leaf : Leaf
  pub low_leaf_index : ℕ
  pub siblings : List Hash

pub record InsertionProof (Hash : Type 0) : Type 0 where
  pub low_leaf : Leaf
  pub low_leaf_index : ℕ
  pub low_leaf_siblings : List Hash
  pub new_leaf_index : ℕ
  pub new_leaf_siblings : List Hash

-- `Leaf::hash`
abbrev pub hash_leaf : {Hash : Type 0} → ImtHash Hash → PoolId → Leaf → Hash
hash_leaf h pool l = h.imt_leaf pool l.value l.next_value l.next_index
