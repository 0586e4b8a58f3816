-- ===== src/Codec/Dense.antt =====
-- proof.rs: leaves, paths and the two proofs in the dense encoding, and `CanonicalSerialize`.
use ztreexo.Prelude.{
  ℕ, List, [], ◌∷◌, ◌++◌, length, Result, ok, ◌>>=◌, ◌>>◌, refuse_if, leb, ◌==◌, not, if◌then◌else◌,
}
use ztreexo.Bytes.{be_bytes, le_bytes, from_be_bytes}
use ztreexo.Digest.{Hash}
use ztreexo.Imt.Types.{Value, Leaf, NonMembershipProof, InsertionProof}
use ztreexo.Codec.Reader.{
  ProofCodecError, trailing_bytes, unsupported_version, Decoder, reader, remaining, u8_byte,
  uint_le, hash, path,
}

-- `PROOF_FORMAT_VERSION`
abbrev pub proof_format_version : ℕ
proof_format_version = 2

-- `u8::try_from(path.len()).unwrap_or(u8::MAX)`
abbrev pub length_byte : ℕ → ℕ
length_byte n = if leb n 255 then n else 255

unfoldable pub hash_bytes : List Hash → List ℕ
hash_bytes [] = []
hash_bytes (h ∷ hs) = h.bytes ++ hash_bytes hs

-- An encoder is the list of the bytes that it appends.
unfoldable pub write_path : List Hash → List ℕ
unfolding hash_bytes
write_path hs = length_byte (length hs) ∷ hash_bytes hs

unfoldable pub write_leaf : Leaf → List ℕ
write_leaf l = be_bytes 32 l.value ++ (be_bytes 32 l.next_value ++ le_bytes 8 l.next_index)

-- `Value::from_bytes(reader.hash()?)`
unfoldable pub read_value : Decoder Value
unfolding hash
read_value r = do (h, r) ← hash r; ok (from_be_bytes h.bytes, r)

unfoldable pub read_leaf : Decoder Leaf
unfolding read_value uint_le
read_leaf r = do
  (value, r) ← read_value r
  (next_value, r) ← read_value r
  (next_index, r) ← uint_le 8 r
  ok (record { value = value; next_value = next_value; next_index = next_index }, r)

unfoldable pub write_non_membership : NonMembershipProof Hash → List ℕ
unfolding write_leaf write_path
write_non_membership p =
    write_leaf p.low_leaf ++ (le_bytes 8 p.low_leaf_index ++ write_path p.siblings)

unfoldable pub read_non_membership : Decoder (NonMembershipProof Hash)
unfolding read_leaf uint_le path
read_non_membership r = do
  (low_leaf, r) ← read_leaf r
  (low_leaf_index, r) ← uint_le 8 r
  (siblings, r) ← path r
  ok (record { low_leaf = low_leaf; low_leaf_index = low_leaf_index; siblings = siblings }, r)

unfoldable pub write_insertion : InsertionProof Hash → List ℕ
unfolding write_leaf write_path
write_insertion p =
    write_leaf p.low_leaf
    ++ (le_bytes 8 p.low_leaf_index
        ++ (write_path p.low_leaf_siblings
            ++ (le_bytes 8 p.new_leaf_index ++ write_path p.new_leaf_siblings)))

unfoldable pub read_insertion : Decoder (InsertionProof Hash)
unfolding read_leaf uint_le path
read_insertion r = do
  (low_leaf, r) ← read_leaf r
  (low_leaf_index, r) ← uint_le 8 r
  (low_leaf_siblings, r) ← path r
  (new_leaf_index, r) ← uint_le 8 r
  (new_leaf_siblings, r) ← path r
  ok (
    record {
      low_leaf = low_leaf;
      low_leaf_index = low_leaf_index;
      low_leaf_siblings = low_leaf_siblings;
      new_leaf_index = new_leaf_index;
      new_leaf_siblings = new_leaf_siblings;
    },
    r,
  )

-- `CanonicalSerialize::to_bytes`
unfoldable pub to_bytes : {A : Type 0} → (A → List ℕ) → A → List ℕ
to_bytes write_body value = proof_format_version ∷ write_body value

-- `CanonicalSerialize::from_bytes`
unfoldable pub from_bytes : {A : Type 0} → Decoder A → List ℕ → Result ProofCodecError A
unfolding u8_byte
from_bytes read_body bytes = do
  (version, r) ← u8_byte (reader bytes)
  refuse_if (not (version == proof_format_version)) (unsupported_version version)
  (value, r) ← read_body r
  refuse_if (not (remaining r == 0)) (trailing_bytes (remaining r))
  ok value
