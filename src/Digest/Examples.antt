-- ===== src/Digest/Examples.antt =====
-- hash.rs: the separators, and a hash under which everything collides.
use ztreexo.Prelude.{ℕ, ◌≡◌, List, arith, refl}
use ztreexo.Pool.{orchard}
use ztreexo.Digest.{Hash, zero_hash}
use ztreexo.Digest.ImtHash.{Collision, leaf_and_empty}
use ztreexo.Digest.Separators.{imt_leaf, personal, personal-injective}
use ztreexo.Digest.Preimage.{Blake2bCollision, blake2b_hash, Collision-blake2b}

personal-injective_example : imt_leaf orchard ≡ imt_leaf orchard
personal-injective_example = personal-injective (imt_leaf orchard) (imt_leaf orchard) refl

abbrev constant : List ℕ → List ℕ → Hash
constant personal message = zero_hash

broken : Collision (blake2b_hash constant) orchard
unfolding blake2b_hash ztreexo.Digest.imt_leaf ztreexo.Digest.imt_empty_leaf
broken = leaf_and_empty 7 0 0 (omega arith) refl

Collision-blake2b_example : Blake2bCollision constant
Collision-blake2b_example = Collision-blake2b constant orchard broken
