-- ===== src/Rollback/Shielded.antt =====
-- rollback.rs: undoing the insertions of a block gives the trees before it back.
use ztreexo.Prelude.{
  ◌≡◌, List, [], ◌∷◌, ◌++◌, ok, arith, refl, sym, ap, ◌∙◌, subst, Result-cases, inl, inr,
}
use ztreexo.Digest.ImtHash.{ImtHash}
use ztreexo.Imt.Types.{Value, InsertionProof}
use ztreexo.Imt.Tree.{IndexedMerkleTree, insert}
use ztreexo.Imt.Removal.{undo_insert}
use ztreexo.Imt.Invariant.{IsValid}
use ztreexo.Imt.Insert.{insert-IsValid}
use ztreexo.Imt.Mirrors.{Mirrors}
use ztreexo.Imt.Undo.{undo_insert-Mirrors}
use ztreexo.Imt.Histories.{AllValues}
use ztreexo.Chain.Accumulators.{Forests}
use ztreexo.Chain.Apply.{insert_each}
use ztreexo.Rollback.Unwind.{undo_each, reversed}

module _ {Hash : Type 0} (h : ImtHash Hash) where
  undo_each-append :
      (u u' : IndexedMerkleTree Hash) (xs ys : List (Value × InsertionProof Hash))
      → undo_each h u xs ≡ (u', ok tt)
      → undo_each h u (xs ++ ys) ≡ undo_each h u' ys
  unfolding undo_each
  undo_each-append u u' [] ys e = ap (λ r. undo_each h r.0 ys) e
  undo_each-append u u' ((v, p) ∷ xs) ys e =
      ground (arith, undo_each-append (undo_insert h u v p).0 u' xs ys)

  undo_each-nil : (u : IndexedMerkleTree Hash) → undo_each h u [] ≡ (u, ok tt)
  unfolding undo_each
  undo_each-nil u = refl

  undo_each-one :
      (u r : IndexedMerkleTree Hash) (v : Value) (p : InsertionProof Hash)
      → undo_insert h u v p ≡ (r, ok tt)
      → undo_each h u ((v, p) ∷ []) ≡ (r, ok tt)
  unfolding undo_each
  undo_each-one u r v p e = ground arith

  module _ {Forest Failure : Type 0} (f : Forests Hash Forest Failure) where
    insert_each-nil :
        (t last : IndexedMerkleTree Hash) (applied : List (Value × InsertionProof Hash))
        → insert_each h f t [] ≡ (last, ok applied)
        → (t ≡ last) × (applied ≡ [])
    unfolding insert_each
    insert_each-nil t last applied e = (ground arith, ground arith)

    pub insert_each-step :
        (t last : IndexedMerkleTree Hash) (v : Value) (vs : List Value)
        (applied : List (Value × InsertionProof Hash))
        → insert_each h f t (v ∷ vs) ≡ (last, ok applied)
        → (t' : IndexedMerkleTree Hash) × (proof : InsertionProof Hash) × (rest : List
            (Value × InsertionProof Hash))
          × (insert h t v ≡ ok (t', proof))
          × (insert_each h f t' vs ≡ (last, ok rest))
          × (applied ≡ (v, proof) ∷ rest)
    unfolding insert_each
    insert_each-step t last v vs applied e = elim (Result-cases (insert h t v)) [
      | inr (e', failed) ↦ absurd (ground arith)
      | inl ((t', proof), went) ↦ elim (Result-cases (insert_each h f t' vs).1) [
        | inr (e', failed) ↦ absurd (ground arith)
        | inl (rest, through) ↦ (t', proof, rest, went, ground arith, ground arith)
      ]
    ]

    -- Undoing what `insert_each` recorded, last first, on a tree that mirrors the last one.
    pub undo_each-insert_each :
        (t last u : IndexedMerkleTree Hash) (vs : List Value)
        (applied : List (Value × InsertionProof Hash))
        → IsValid h t
        → AllValues vs
        → insert_each h f t vs ≡ (last, ok applied)
        → Mirrors h u last
        → (r : IndexedMerkleTree Hash) × (undo_each h u (reversed applied) ≡ (r, ok tt))
          × Mirrors h r t
    undo_each-insert_each t last u [] applied valid in_type e m =
        let (same, nothing) = insert_each-nil t last applied e in
        (
          u,
          ap (λ xs. undo_each h u (reversed xs)) nothing ∙ undo_each-nil u,
          subst (Mirrors h u) (sym same) m,
        )
    undo_each-insert_each t last u (v ∷ vs) applied valid in_type e m =
        let (t', proof, rest, went, later, made) = insert_each-step t last v vs applied e in
        let valid' = insert-IsValid h t valid v t' proof in_type.0 went in
        let (u', undone, m') = undo_each-insert_each t' last u vs rest valid' in_type.1 later m in
        let (r, first, m'', _) = undo_insert-Mirrors h t t' u' v proof valid in_type.0 went m' in
        (
          r,
          ap (λ xs. undo_each h u (reversed xs)) made
              ∙ undo_each-append u u' (reversed rest) ((v, proof) ∷ []) undone
              ∙ undo_each-one u' r v proof first,
          m'',
        )

    pub insert_each-IsValid :
        (t last : IndexedMerkleTree Hash) (vs : List Value)
        (applied : List (Value × InsertionProof Hash))
        → IsValid h t
        → AllValues vs
        → insert_each h f t vs ≡ (last, ok applied)
        → IsValid h last
    insert_each-IsValid t last [] applied valid in_type e =
        subst (IsValid h) (insert_each-nil t last applied e).0 valid
    insert_each-IsValid t last (v ∷ vs) applied valid in_type e =
        let (t', proof, rest, went, later, made) = insert_each-step t last v vs applied e in
        insert_each-IsValid t' last vs rest (insert-IsValid h t valid v t' proof in_type.0 went)
          in_type.1 later
