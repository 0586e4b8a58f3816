-- ===== src/Node/Served.antt =====
-- The proofs that a bridge's trees return (crates/zutreexo-chain/src/block_apply.rs) are proofs that a
-- compact node accepts (crates/zutreexo-csn/src/lib.rs).
use ztreexo.Prelude.{
  suc, ◌≡◌, inl, inr, List, [], ◌∷◌, map, length, ok, refl, sym, ap, ◌∙◌, subst, arith,
  Result-cases,
}
use ztreexo.Digest.ImtHash.{ImtHash}
use ztreexo.Imt.Types.{Value, IsValue, LeafFits, InsertionProof}
use ztreexo.Imt.Tree.{IndexedMerkleTree, insert, state}
use ztreexo.Imt.Invariant.{IsValid}
use ztreexo.Imt.Insert.{insert-inversion, insert-IsValid, insert_shape}
use ztreexo.Imt.Histories.{
  AllValues, StepsFit, Inserted, done, next, apply_insertions, apply_insertions-Inserted,
}
use ztreexo.Chain.Accumulators.{Forests}
use ztreexo.Chain.Apply.{insert_each}
use ztreexo.Node.Apply.{zip}

zip-map : {A B : Type 0} (xs : List (A × B)) → zip (map (λ x. x.0) xs) (map (λ x. x.1) xs) ≡ xs
unfolding zip
zip-map [] = refl
zip-map (x ∷ xs) = ap (λ l. x ∷ l) (zip-map xs)

pub length-map_of : {A B : Type 0} (g : A → B) (xs : List A) → length (map g xs) ≡ length xs
length-map_of g [] = refl
length-map_of g (x ∷ xs) = ap suc (length-map_of g xs)

module _ {Hash Forest Failure : Type 0} (h : ImtHash Hash) (f : Forests Hash Forest Failure) where
  -- the low leaf in a proof that `insert` returned is one of the tree's
  insert-LeafFits :
      (t t' : IndexedMerkleTree Hash) (v : Value) (proof : InsertionProof Hash)
      → IsValid h t
      → IsValue v
      → insert h t v ≡ ok (t', proof)
      → LeafFits proof.low_leaf
  insert-LeafFits t t' v proof valid in_type e =
      let (low, k, s, _, made) = insert-inversion h t valid v t' proof in_type e in
      subst (λ (p : InsertionProof Hash). LeafFits p.low_leaf) (sym made)
        (valid.in_range k low s.is_low.stored)

  insert_each-cons :
      (t t' last : IndexedMerkleTree Hash) (v : Value) (vs : List Value)
      (proof : InsertionProof Hash) (applied : List (Value × InsertionProof Hash))
      → insert h t v ≡ ok (t', proof)
      → insert_each h f t (v ∷ vs) ≡ (last, ok applied)
      → (rest : List (Value × InsertionProof Hash)) × (insert_each h f t' vs ≡ (last, ok rest))
        × (applied ≡ (v, proof) ∷ rest)
  insert_each-cons t t' last v vs proof applied inserted e =
      elim (Result-cases (insert_each h f t' vs).1) [
        | inl (rest, went) ↦
            (rest, unfold insert_each in ground (arith), unfold insert_each in ground (arith))
        | inr (x, failed) ↦ absurd (unfold insert_each in ground (arith))
      ]

  -- what the loop over one pool's values has recorded are the steps that it took
  pub record Served (t last : IndexedMerkleTree Hash) (vs : List Value)
      (applied : List (Value × InsertionProof Hash)) : Type 0 where
    pub run : Inserted h t applied last
    pub fits : StepsFit h applied
    pub values : map (λ x. x.0) applied ≡ vs
    pub valid : IsValid h last
    pub pool_same : last.pool ≡ t.pool
    pub depth_same : last.depth ≡ t.depth

  Served-next :
      (t t' last : IndexedMerkleTree Hash) (v : Value) (vs : List Value)
      (proof : InsertionProof Hash) (rest : List (Value × InsertionProof Hash))
      → IsValid h t
      → IsValue v
      → insert h t v ≡ ok (t', proof)
      → Served t' last vs rest
      → Served t last (v ∷ vs) ((v, proof) ∷ rest)
  Served-next t t' last v vs proof rest valid in_type inserted r =
      let (pool_same, depth_same) = insert_shape h t valid v t' proof in_type inserted in
      record {
        run = next inserted r.run;
        fits = (in_type, insert-LeafFits t t' v proof valid in_type inserted, r.fits);
        values = ap (λ l. v ∷ l) r.values;
        valid = r.valid;
        pool_same = r.pool_same ∙ pool_same;
        depth_same = r.depth_same ∙ depth_same;
      }

  Served-nil :
      (t last : IndexedMerkleTree Hash) (applied : List (Value × InsertionProof Hash))
      → IsValid h t
      → insert_each h f t [] ≡ (last, ok applied)
      → Served t last [] applied
  Served-nil t last applied valid e =
      let trees : t ≡ last = unfold insert_each in cc in
      let nothing : [] ≡ applied = unfold insert_each in cc in
      subst (λ l. Served t l [] applied) trees
        (subst (λ a. Served t t [] a) nothing
          (record {
            run = done;
            fits = tt;
            values = refl;
            valid = valid;
            pool_same = refl;
            depth_same = refl;
          }))

  pub insert_each-Served :
      (t last : IndexedMerkleTree Hash) (vs : List Value)
      (applied : List (Value × InsertionProof Hash))
      → IsValid h t
      → AllValues vs
      → insert_each h f t vs ≡ (last, ok applied)
      → Served t last vs applied
  insert_each-Served t last [] applied valid in_type e = Served-nil t last applied valid e
  insert_each-Served t last (v ∷ vs) applied valid in_type e = elim (Result-cases (insert h t v)) [
    | inr (x, failed) ↦ absurd (unfold insert_each in ground arith)
    | inl ((t', proof), inserted) ↦
        let (rest, later, same) = insert_each-cons t t' last v vs proof applied inserted e in
        subst (λ a. Served t last (v ∷ vs) a) (sym same)
          (Served-next t t' last v vs proof rest valid in_type.0 inserted (
            insert_each-Served t' last vs rest
              (insert-IsValid h t valid v t' proof in_type.0 inserted) in_type.1 later))
  ]

  -- a node that holds only the state of the tree accepts the recorded proofs with the values
  pub Served-accepted :
      (t last : IndexedMerkleTree Hash) (vs : List Value)
      (applied : List (Value × InsertionProof Hash))
      → IsValid h t
      → Served t last vs applied
      → apply_insertions h t.pool t.depth (state h t) (zip vs (map (λ x. x.1) applied))
        ≡ ok (state h last)
  Served-accepted t last vs applied valid r =
      ap (λ l. apply_insertions h t.pool t.depth (state h t) (zip l (map (λ x. x.1) applied)))
        (sym r.values)
      ∙ ap (apply_insertions h t.pool t.depth (state h t)) (zip-map applied)
      ∙ apply_insertions-Inserted h t last applied valid r.fits r.run
