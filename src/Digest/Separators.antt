-- ===== src/Digest/Separators.antt =====
-- hash.rs: the domain separators of all structures of the crate.
use ztreexo.Prelude.{ℕ, ◌≡◌, List, ◌++◌, append-injective, arith, ◌∙◌, sym}
use ztreexo.Pool.{PoolId, tag}
use ztreexo.Pool.Codes.{tag-injective, length-tag}
use ztreexo.Digest.{
  imt_personal, imt_leaf_personal, imt_node_personal, imt_empty_personal, sorted_leaf_personal,
  sorted_node_personal, sorted_pad_personal, utxo_leaf_personal, utxo_node_personal, store_personal,
}

split_tag : (p q : PoolId) (r s : List ℕ) → tag p ++ r ≡ tag q ++ s → (p ≡ q) × (r ≡ s)
split_tag p q r s e =
    let (tags, roles) =
      append-injective (tag p) r (tag q) s (length-tag p ∙ sym (length-tag q)) e in
    (tag-injective p q tags, roles)

pub imt_personal-injective :
    (p q : PoolId) (r s : List ℕ) → imt_personal p r ≡ imt_personal q s → (p ≡ q) × (r ≡ s)
unfolding imt_personal
imt_personal-injective p q r s e = split_tag p q r s (cc)

-- every separator of hash.rs, by what it is for
pub data Separator : Type 0 where
  imt_leaf imt_node imt_empty sorted_leaf sorted_node sorted_pad : PoolId → Separator
  utxo_leaf utxo_node store : Separator

unfoldable pub personal : Separator → List ℕ
personal (imt_leaf p) = imt_leaf_personal p
personal (imt_node p) = imt_node_personal p
personal (imt_empty p) = imt_empty_personal p
personal (sorted_leaf p) = sorted_leaf_personal p
personal (sorted_node p) = sorted_node_personal p
personal (sorted_pad p) = sorted_pad_personal p
personal utxo_leaf = utxo_leaf_personal
personal utxo_node = utxo_node_personal
personal store = store_personal

-- No two separators are the same sixteen bytes.
pub personal-injective : (s t : Separator) → personal s ≡ personal t → s ≡ t
unfolding personal imt_leaf_personal imt_node_personal imt_empty_personal sorted_leaf_personal
    sorted_node_personal sorted_pad_personal tag
personal-injective (imt_leaf p) t e = ground arith
personal-injective (imt_node p) t e = ground arith
personal-injective (imt_empty p) t e = ground arith
personal-injective (sorted_leaf p) t e = ground arith
personal-injective (sorted_node p) t e = ground arith
personal-injective (sorted_pad p) t e = ground arith
personal-injective utxo_leaf t e = ground arith
personal-injective utxo_node t e = ground arith
personal-injective store t e = ground arith
