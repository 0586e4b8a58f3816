-- ===== src/Codec/RoundTrip.antt =====
-- proof.rs: what is written is read back.
use ztreexo.Prelude.{
  ℕ, ◌^◌, ◌<◌, ◌≤◌, ◌≡◌, List, [], ◌∷◌, ◌++◌, length, ok, refl, ap, ◌∙◌, sym, arith, subst, le→ltb,
  le→leb,
}
use ztreexo.Bytes.{be_bytes, from_be_bytes, length-be_bytes, from_be_bytes-be_bytes}
use ztreexo.Digest.{Hash}
use ztreexo.Imt.Types.{Value, IsValue, Leaf, LeafFits, NonMembershipProof, InsertionProof}
use ztreexo.Imt.Path.{max_depth}
use ztreexo.Codec.Reader.{Decoder, u8_byte, uint_le, hash, hashes, path}
use ztreexo.Codec.Dense.{
  hash_bytes, write_path, write_leaf, read_value, read_leaf, write_non_membership,
  read_non_membership, write_insertion, read_insertion, to_bytes, from_bytes,
}
use ztreexo.Codec.Decoding.{
  Decodes, Decodes-bind, Decodes-ok, Decodes-map, u8_byte-Decodes, uint_le-Decodes, hash-Decodes,
}

-- the bytes of a value, as a digest
value_hash : Value → Hash
value_hash v = record { bytes = be_bytes 32 v; length-bytes = length-be_bytes 32 v }

read_value-Decodes : (v : Value) → IsValue v → Decodes read_value v (be_bytes 32 v)
unfolding read_value value_hash
read_value-Decodes v small =
    subst (λ n. Decodes read_value n (be_bytes 32 v)) (from_be_bytes-be_bytes 32 v (omega arith))
      (Decodes-map hash (λ (h : Hash). from_be_bytes h.bytes) (hash-Decodes (value_hash v)))

read_leaf-Decodes : (l : Leaf) → LeafFits l → Decodes read_leaf l (write_leaf l)
unfolding read_leaf write_leaf
read_leaf-Decodes l fits =
    Decodes-bind read_value _ (read_value-Decodes l.value (omega (arith, fits.value_fits))) (
      Decodes-bind read_value _
        (read_value-Decodes l.next_value (omega (arith, fits.next_value_fits)))
        (Decodes-map (uint_le 8)
          (λ i. record { value = l.value; next_value = l.next_value; next_index = i })
          (uint_le-Decodes 8 l.next_index (omega (arith, fits.next_index_fits)))))

hashes-Decodes : (hs : List Hash) → Decodes (hashes (length hs)) hs (hash_bytes hs)
unfolding hashes hash_bytes
hashes-Decodes [] = Decodes-ok []
hashes-Decodes (h ∷ hs) =
    Decodes-bind hash _ (hash-Decodes h)
      (Decodes-map (hashes (length hs)) (λ l. h ∷ l) (hashes-Decodes hs))

path-Decodes : (hs : List Hash) → length hs ≤ max_depth → Decodes path hs (write_path hs)
unfolding path write_path
path-Decodes hs short = rw (le→leb (length hs) 255 (omega arith)) (
    Decodes-bind u8_byte _ (u8_byte-Decodes (length hs))
      (rw (le→ltb max_depth (length hs) short) (hashes-Decodes hs)))

-- the fields of a non-membership proof lie in the ranges of their types, and the path in a tree
pub record AbsenceFits (p : NonMembershipProof Hash) : Type 0 where
  pub leaf_fits : LeafFits p.low_leaf
  pub index_fits : p.low_leaf_index < 2 ^ 64
  pub path_short : length p.siblings ≤ max_depth

pub read_non_membership-Decodes :
    (p : NonMembershipProof Hash)
    → AbsenceFits p
    → Decodes read_non_membership p (write_non_membership p)
unfolding read_non_membership write_non_membership
read_non_membership-Decodes p fits =
    Decodes-bind read_leaf _ (read_leaf-Decodes p.low_leaf fits.leaf_fits) (
      Decodes-bind (uint_le 8) _
        (uint_le-Decodes 8 p.low_leaf_index (omega (arith, fits.index_fits)))
        (Decodes-map path
          (λ hs. record { low_leaf = p.low_leaf; low_leaf_index = p.low_leaf_index; siblings = hs })
          (path-Decodes p.siblings fits.path_short)))

-- the fields of an insertion proof lie in the ranges of their types, and the paths in a tree
pub record ProofFits (p : InsertionProof Hash) : Type 0 where
  pub low_leaf_fits : LeafFits p.low_leaf
  pub low_index_fits : p.low_leaf_index < 2 ^ 64
  pub new_index_fits : p.new_leaf_index < 2 ^ 64
  pub low_path_short : length p.low_leaf_siblings ≤ max_depth
  pub new_path_short : length p.new_leaf_siblings ≤ max_depth

pub read_insertion-Decodes :
    (p : InsertionProof Hash) → ProofFits p → Decodes read_insertion p (write_insertion p)
unfolding read_insertion write_insertion
read_insertion-Decodes p fits =
    Decodes-bind read_leaf _ (read_leaf-Decodes p.low_leaf fits.low_leaf_fits) (
      Decodes-bind (uint_le 8) _
        (uint_le-Decodes 8 p.low_leaf_index (omega (arith, fits.low_index_fits)))
        (Decodes-bind path _ (path-Decodes p.low_leaf_siblings fits.low_path_short) (
          Decodes-bind (uint_le 8) _
            (uint_le-Decodes 8 p.new_leaf_index (omega (arith, fits.new_index_fits)))
            (Decodes-map path
              (λ hs. record {
                low_leaf = p.low_leaf;
                low_leaf_index = p.low_leaf_index;
                low_leaf_siblings = p.low_leaf_siblings;
                new_leaf_index = p.new_leaf_index;
                new_leaf_siblings = hs;
              })
              (path-Decodes p.new_leaf_siblings fits.new_path_short)))))

pub append-nil : (xs : List ℕ) → xs ++ [] ≡ xs
append-nil [] = refl
append-nil (x ∷ xs) = ap (λ l. x ∷ l) (append-nil xs)

pub from_bytes-to_bytes :
    {A : Type 0} (read_body : Decoder A) (write_body : A → List ℕ) (value : A)
    → Decodes read_body value (write_body value)
    → from_bytes read_body (to_bytes write_body value) ≡ ok value
unfolding from_bytes to_bytes
from_bytes-to_bytes read_body write_body value d =
    let body = write_body value in
    rw
      (
        (u8_byte-Decodes 2).decoded body 0,
        ap (λ l. read_body (record { rest = l; offset = 1 })) (sym (append-nil body))
            ∙ d.decoded [] 1,
      )
      refl
