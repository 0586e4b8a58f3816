-- ===== src/Codec/Examples.antt =====
-- proof.rs: the encodings at concrete proofs.
use ztreexo.Prelude.{ℕ, suc, ◌≡◌, ◌↔◌, List, [], ◌∷◌, ok, arith, length}
use ztreexo.Bytes.Order.{AllBytes}
use ztreexo.Digest.{Hash, zero_hash}
use ztreexo.Imt.Types.{NonMembershipProof, InsertionProof, sentinel}
use ztreexo.Codec.Dense.{
  write_non_membership, read_non_membership, write_insertion, read_insertion, to_bytes, from_bytes,
}
use ztreexo.Codec.Decoding.{Decodes}
use ztreexo.Codec.RoundTrip.{AbsenceFits, ProofFits}
use ztreexo.Codec.Canonical.{non_membership_canonical, insertion_canonical}
use ztreexo.Codec.Varint.{write_varint, read_varint, read_varint-write_varint}
use ztreexo.Codec.Overlong.{read_varint_overlong}

abbrev absence : NonMembershipProof Hash
absence = record { low_leaf = sentinel; low_leaf_index = 300; siblings = zero_hash ∷ [] }

abbrev step : InsertionProof Hash
step = record {
  low_leaf = sentinel;
  low_leaf_index = 0;
  low_leaf_siblings = zero_hash ∷ [];
  new_leaf_index = 1;
  new_leaf_siblings = zero_hash ∷ [];
}

absence_bytes : AllBytes (to_bytes write_non_membership absence)
unfolding to_bytes write_non_membership zero_hash ztreexo.Bytes.be_bytes ztreexo.Bytes.le_bytes
absence_bytes = omega arith

step_bytes : AllBytes (to_bytes write_insertion step)
unfolding to_bytes write_insertion zero_hash ztreexo.Bytes.be_bytes ztreexo.Bytes.le_bytes
step_bytes = omega arith

non_membership_canonical_example :
    (from_bytes read_non_membership (to_bytes write_non_membership absence) ≡ ok absence) ↔ (
      AbsenceFits absence
      × (to_bytes write_non_membership absence ≡ to_bytes write_non_membership absence))
non_membership_canonical_example =
    non_membership_canonical (to_bytes write_non_membership absence) absence absence_bytes

insertion_canonical_example :
    (from_bytes read_insertion (to_bytes write_insertion step) ≡ ok step)
    ↔ (ProofFits step × (to_bytes write_insertion step ≡ to_bytes write_insertion step))
insertion_canonical_example = insertion_canonical (to_bytes write_insertion step) step step_bytes

read_varint-write_varint_example : Decodes read_varint 300 (write_varint 300)
read_varint-write_varint_example = read_varint-write_varint 300 (omega arith)

read_varint_overlong_example :
    (bytes : List ℕ) × (length bytes ≡ suc (length (write_varint 300)))
    × Decodes read_varint 300 bytes
read_varint_overlong_example = read_varint_overlong 300 (omega arith)
