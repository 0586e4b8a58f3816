-- ===== src/Codec/Canonical.antt =====
-- proof.rs: the dense encodings are canonical: one encoding per proof, and no other bytes decode.
use ztreexo.Prelude.{
  ℕ, ◌≡◌, ◌↔◌, List, [], ◌∷◌, ◌++◌, length, ok, ◌==◌, not, ap, ap₂, ◌∙◌, arith, subst, refuse_if,
  >>=-eq-ok,
}
use ztreexo.Bytes.{le_bytes}
use ztreexo.Bytes.Order.{AllBytes}
use ztreexo.Digest.{Hash}
use ztreexo.Imt.Types.{NonMembershipProof, InsertionProof}
use ztreexo.Codec.Reader.{Decoder, reader, u8_byte, uint_le, path}
use ztreexo.Codec.Dense.{
  write_path, write_leaf, read_leaf, write_non_membership, read_non_membership, write_insertion,
  read_insertion, to_bytes, from_bytes,
}
use ztreexo.Codec.Decoding.{Decodes}
use ztreexo.Codec.Consuming.{
  Consumes, Consumed-end, read_two, u8_byte-Consumes, uint_le-Consumes, read_leaf-Consumes,
  path-Consumes,
}
use ztreexo.Codec.RoundTrip.{
  AbsenceFits, ProofFits, read_non_membership-Decodes, read_insertion-Decodes, from_bytes-to_bytes,
  append-nil,
}

read_non_membership-Consumes : Consumes read_non_membership write_non_membership AbsenceFits
unfolding read_non_membership write_non_membership
read_non_membership-Consumes = record {
  consumed = λ r r' p all e.
      let ((l, r1), e1, k1) = >>=-eq-ok (read_leaf r) _ e in
      let (h1, all1, good1) = read_leaf-Consumes.consumed r r1 l all e1 in
      let ((i, r2), e2, k2) = >>=-eq-ok (uint_le 8 r1) _ k1 in
      let (h2, all2, good2) = (uint_le-Consumes 8).consumed r1 r2 i all1 e2 in
      let ((hs, r3), e3, k3) = >>=-eq-ok (path r2) _ k2 in
      let (h3, all3, good3) = path-Consumes.consumed r2 r3 hs all2 e3 in
      let proof : NonMembershipProof Hash = record {
        low_leaf = l;
        low_leaf_index = i;
        siblings = hs;
      } in
      Consumed-end write_non_membership AbsenceFits {a = proof} k3 (
        read_two (write_leaf l) _ r3.rest h1
            (read_two (le_bytes 8 i) (write_path hs) r3.rest h2 h3),
        all3,
        record { leaf_fits = good1; index_fits = omega (arith, good2); path_short = good3 },
      );
}

read_insertion-Consumes : Consumes read_insertion write_insertion ProofFits
unfolding read_insertion write_insertion
read_insertion-Consumes = record {
  consumed = λ r r' p all e.
      let ((l, r1), e1, k1) = >>=-eq-ok (read_leaf r) _ e in
      let (h1, all1, good1) = read_leaf-Consumes.consumed r r1 l all e1 in
      let ((i, r2), e2, k2) = >>=-eq-ok (uint_le 8 r1) _ k1 in
      let (h2, all2, good2) = (uint_le-Consumes 8).consumed r1 r2 i all1 e2 in
      let ((hs, r3), e3, k3) = >>=-eq-ok (path r2) _ k2 in
      let (h3, all3, good3) = path-Consumes.consumed r2 r3 hs all2 e3 in
      let ((j, r4), e4, k4) = >>=-eq-ok (uint_le 8 r3) _ k3 in
      let (h4, all4, good4) = (uint_le-Consumes 8).consumed r3 r4 j all3 e4 in
      let ((gs, r5), e5, k5) = >>=-eq-ok (path r4) _ k4 in
      let (h5, all5, good5) = path-Consumes.consumed r4 r5 gs all4 e5 in
      let proof : InsertionProof Hash = record {
        low_leaf = l;
        low_leaf_index = i;
        low_leaf_siblings = hs;
        new_leaf_index = j;
        new_leaf_siblings = gs;
      } in
      Consumed-end write_insertion ProofFits {a = proof} k5 (
        read_two (write_leaf l) _ r5.rest h1 (
            read_two (le_bytes 8 i) _ r5.rest h2 (
              read_two (write_path hs) _ r5.rest h3
                (read_two (le_bytes 8 j) (write_path gs) r5.rest h4 h5))),
        all5,
        record {
          low_leaf_fits = good1;
          low_index_fits = omega (arith, good2);
          new_index_fits = omega (arith, good4);
          low_path_short = good3;
          new_path_short = good5;
        },
      );
}

-- a decoder that reads exactly what an encoder writes makes the versioned encoding canonical
canonical :
    {A : Type 0} (read_body : Decoder A) (write_body : A → List ℕ) (Good : A → Type 0)
    → ((a : A) → Good a → Decodes read_body a (write_body a))
    → Consumes read_body write_body Good
    → (bytes : List ℕ) (value : A) → AllBytes bytes
    → (from_bytes read_body bytes ≡ ok value) ↔ (Good value × (bytes ≡ to_bytes write_body value))
unfolding from_bytes to_bytes
canonical read_body write_body Good decodes consumes bytes value all = (
  (λ e.
      let ((version, r1), e1, k1) = >>=-eq-ok (u8_byte (reader bytes)) _ e in
      let (h1, all1, _) = u8_byte-Consumes.consumed (reader bytes) r1 version all e1 in
      let (_, e2, k2) = >>=-eq-ok (refuse_if (not (version == 2)) _) _ k1 in
      let current : version ≡ 2 = ground arith in
      let ((v, r2), e3, k3) = >>=-eq-ok (read_body r1) _ k2 in
      let (h2, all2, good) = consumes.consumed r1 r2 v all1 e3 in
      let ended : length r2.rest ≡ 0 = ground arith in
      let same : v ≡ value = ground arith in
      let nothing : r2.rest ≡ [] = ground (arith) in
      (
        subst Good same good,
        h1
            ∙ ap₂ (λ n l. n ∷ l) current h2
            ∙ ap₂ (λ x l. 2 ∷ (write_body x ++ l)) same nothing
            ∙ ap (λ l. 2 ∷ l) (append-nil (write_body value)),
      )),
  (λ g.
      ap (from_bytes read_body) g.1
      ∙ from_bytes-to_bytes read_body write_body value (decodes value g.0)),
)

-- A byte string decodes to a non-membership proof exactly when the proof's fields fit their types,
-- its path is no longer than the deepest tree, and the string is the proof's encoding.
pub non_membership_canonical :
    (bytes : List ℕ) (proof : NonMembershipProof Hash)
    → AllBytes bytes
    → (from_bytes read_non_membership bytes ≡ ok proof)
      ↔ (AbsenceFits proof × (bytes ≡ to_bytes write_non_membership proof))
non_membership_canonical =
    canonical read_non_membership write_non_membership AbsenceFits read_non_membership-Decodes
      read_non_membership-Consumes

-- A byte string decodes to an insertion proof exactly when the proof's fields fit their types, its
-- paths are no longer than the deepest tree, and the string is the proof's encoding.
pub insertion_canonical :
    (bytes : List ℕ) (proof : InsertionProof Hash)
    → AllBytes bytes
    → (from_bytes read_insertion bytes ≡ ok proof)
      ↔ (ProofFits proof × (bytes ≡ to_bytes write_insertion proof))
insertion_canonical =
    canonical read_insertion write_insertion ProofFits read_insertion-Decodes
      read_insertion-Consumes
