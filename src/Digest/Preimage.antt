-- ===== src/Digest/Preimage.antt =====
-- hash.rs: every preimage has fixed-width parts and every role its own separator, so a collision of
-- the tree's hash functions is a collision of BLAKE2b itself.
use mathlib.Core.HLevel.{is_prop→PathP}
use native.Mathlib.Nat.{ℕ_set}
use ztreexo.Prelude.{
  ℕ, ◌≡◌, ◌↔◌, List, [], ◌∷◌, ◌++◌, Bool, true, false, length, append-injective, arith, refl, ap,
  ◌==◌, ◌&&◌, ◌∙◌, sym,
}
use ztreexo.Pool.{PoolId}
use ztreexo.Bytes.{be_bytes, le_bytes, length-be_bytes, be_bytes-injective, le_bytes-injective}
use ztreexo.Digest.{
  Hash, zero_hash, imt_leaf_personal, imt_node_personal, imt_empty_personal, role_leaf, role_empty,
  imt_leaf, imt_node, imt_empty_leaf,
}
use ztreexo.Digest.Separators.{imt_personal-injective}
use ztreexo.Digest.ImtHash.{ImtHash, Fits, Collision, two_nodes, two_leaves, leaf_and_empty}

pub Hash-eq : (a b : Hash) → a.bytes ≡ b.bytes → a ≡ b
Hash-eq a b e = λ i. record {
  bytes = e i;
  length-bytes =
      is_prop→PathP (λ j. length (e j) ≡ 32) (λ j. ℕ_set (length (e j)) 32) a.length-bytes
        b.length-bytes i;
}

-- `==` on byte arrays
pub bytes_beq : List ℕ → List ℕ → Bool
bytes_beq [] [] = true
bytes_beq [] (y ∷ ys) = false
bytes_beq (x ∷ xs) [] = false
bytes_beq (x ∷ xs) (y ∷ ys) = x == y && bytes_beq xs ys

bytes_beq_iff : (xs ys : List ℕ) → (bytes_beq xs ys ≡ true) ↔ (xs ≡ ys)
unfolding bytes_beq
bytes_beq_iff [] [] = ((λ _. refl), (λ _. refl))
bytes_beq_iff [] (y ∷ ys) = ((λ h. cc), (λ h. cc))
bytes_beq_iff (x ∷ xs) [] = ((λ h. cc), (λ h. cc))
bytes_beq_iff (x ∷ xs) (y ∷ ys) =
    let ih = bytes_beq_iff xs ys in ((λ h. ground (arith, ih.0)), (λ h. ground (arith, ih.1)))

pub Hash_beq_iff : (a b : Hash) → (bytes_beq a.bytes b.bytes ≡ true) ↔ (a ≡ b)
Hash_beq_iff a b = (
  (λ h. Hash-eq a b ((bytes_beq_iff a.bytes b.bytes).0 h)),
  (λ e. (bytes_beq_iff a.bytes b.bytes).1 (ap (λ (x : Hash). x.bytes) e)),
)

leaf_ne_empty : (pool : PoolId) → ¬ (imt_leaf_personal pool ≡ imt_empty_personal pool)
unfolding imt_leaf_personal imt_empty_personal
leaf_ne_empty pool e =
    let roles = (imt_personal-injective pool pool role_leaf role_empty e).1 in ground arith

module _ (blake2b : List ℕ → List ℕ → Hash) where
  -- Two different pairs of a personalization and a message with the same BLAKE2b digest.
  pub record Blake2bCollision : Type 0 where
    pub personal : List ℕ
    pub message : List ℕ
    pub other_personal : List ℕ
    pub other_message : List ℕ
    pub different : ¬ ((personal ≡ other_personal) × (message ≡ other_message))
    pub same_digest : blake2b personal message ≡ blake2b other_personal other_message

  -- The hash functions of hash.rs, as the operations that the indexed Merkle tree takes.
  unfoldable pub blake2b_hash : ImtHash Hash
  unfolding imt_leaf imt_empty_leaf imt_node zero_hash bytes_beq
  blake2b_hash = record {
    imt_leaf = imt_leaf blake2b;
    imt_empty_leaf = imt_empty_leaf blake2b;
    imt_node = imt_node blake2b;
    zero_hash = zero_hash;
    beq = λ a b. bytes_beq a.bytes b.bytes;
    beq_iff = Hash_beq_iff;
  }

  node_preimage-injective :
      (a b c d : Hash) → a.bytes ++ b.bytes ≡ c.bytes ++ d.bytes → (a ≡ c) × (b ≡ d)
  node_preimage-injective a b c d e =
      let (left, right) =
        append-injective a.bytes b.bytes c.bytes d.bytes (a.length-bytes ∙ sym c.length-bytes) e in
      (Hash-eq a c left, Hash-eq b d right)

  leaf_preimage-injective :
      (v n i w m j : ℕ)
      → Fits v n i
      → Fits w m j
      → be_bytes 32 v ++ (be_bytes 32 n ++ le_bytes 8 i)
        ≡ be_bytes 32 w ++ (be_bytes 32 m ++ le_bytes 8 j)
      → (v ≡ w) × (n ≡ m) × (i ≡ j)
  leaf_preimage-injective v n i w m j f g e =
      let width = λ (a b : ℕ). length-be_bytes 32 a ∙ sym (length-be_bytes 32 b) in
      let (value, rest) =
        append-injective (be_bytes 32 v) (be_bytes 32 n ++ le_bytes 8 i) (be_bytes 32 w)
          (be_bytes 32 m ++ le_bytes 8 j) (width v w) e in
      let (next, index) =
        append-injective (be_bytes 32 n) (le_bytes 8 i) (be_bytes 32 m) (le_bytes 8 j) (width n m)
          rest in
      (
        be_bytes-injective 32 v w (omega (arith, f.value_fits)) (omega (arith, g.value_fits)) value,
        be_bytes-injective 32 n m (omega arith) (omega arith) next,
        le_bytes-injective 8 i j (omega arith) (omega arith) index,
      )

  -- Whoever finds a collision of the tree's hash functions has found one of BLAKE2b: two distinct
  -- inputs of one function never share a preimage, and a leaf and an empty leaf never share a
  -- personalization.
  pub Collision-blake2b : (pool : PoolId) → Collision blake2b_hash pool → Blake2bCollision
  unfolding blake2b_hash imt_leaf imt_node imt_empty_leaf
  Collision-blake2b pool (two_nodes a b c d apart same) = record {
    personal = imt_node_personal pool;
    message = a.bytes ++ b.bytes;
    other_personal = imt_node_personal pool;
    other_message = c.bytes ++ d.bytes;
    different = λ e. apart (node_preimage-injective a b c d e.1);
    same_digest = same;
  }
  Collision-blake2b pool (two_leaves v n i w m j f g apart same) = record {
    personal = imt_leaf_personal pool;
    message = be_bytes 32 v ++ (be_bytes 32 n ++ le_bytes 8 i);
    other_personal = imt_leaf_personal pool;
    other_message = be_bytes 32 w ++ (be_bytes 32 m ++ le_bytes 8 j);
    different = λ e. apart (leaf_preimage-injective v n i w m j f g e.1);
    same_digest = same;
  }
  Collision-blake2b pool (leaf_and_empty v n i f same) = record {
    personal = imt_leaf_personal pool;
    message = be_bytes 32 v ++ (be_bytes 32 n ++ le_bytes 8 i);
    other_personal = imt_empty_personal pool;
    other_message = [];
    different = λ e. leaf_ne_empty pool e.0;
    same_digest = same;
  }
