-- ===== src/Node/Follows.antt =====
-- crates/zutreexo-csn/src/lib.rs: a compact node against the full trees that it stands for.
use ztreexo.Prelude.{
  ℕ, ◌≡◌, ◌⊎◌, inl, inr, List, [], ◌∷◌, length, Option, some, Result, ok, >>=-eq-ok, refl, sym, ap,
  ◌∙◌, subst, arith, Bool-cases, Option-cases, Result-cases,
}
use ztreexo.Pool.{PoolId, all_pools}
use ztreexo.Digest.ImtHash.{ImtHash}
use ztreexo.Imt.Types.{ImtState}
use ztreexo.Imt.Tree.{IndexedMerkleTree, insert_all}
use ztreexo.Imt.Histories.{AllValues, apply_insertions}
use ztreexo.Chain.Types.{is_empty, BlockSummary, BlockProofBundle, put_pool}
use ztreexo.Node.Types.{Stumps, CompactState, CsnError}
use ztreexo.Node.Accepted.{apply_bundle-inversion}
use ztreexo.Node.Apply.{zip, stage_pool, stage_pools, apply_bundle}
use ztreexo.Chain.Nullifiers.{insert_pools, put_pool-all, put_pool-own}
use ztreexo.Node.Pools.{ProofsFit, Holds, Follows, AnyCollision, accepted_pool}

module _ {Hash Stump Proof Failure : Type 0} (h : ImtHash Hash)
    (u : Stumps Hash Stump Proof Failure) where
  Stage : Type 0
  Stage = Result (CsnError Hash Failure) (PoolId → Option (ImtState Hash))

  -- a pool without nullifiers is left alone; the others pass the checks and the loop
  stage_pool-cases :
      (summary : BlockSummary) (bundle : BlockProofBundle Hash Proof) (depth : ℕ) (p : PoolId)
      (staged staged' : PoolId → Option (ImtState Hash))
      → stage_pool h u summary bundle depth p staged ≡ ok staged'
      → ((summary.nullifiers_for p ≡ []) × (staged' ≡ staged))
        ⊎ ((length (bundle.insertions p) ≡ length (summary.nullifiers_for p))
            × (s : ImtState Hash) × (s' : ImtState Hash) × (staged p ≡ some s)
            × (apply_insertions h p depth s (zip (summary.nullifiers_for p) (bundle.insertions p))
                ≡ ok s')
            × (staged' ≡ put_pool p (some s') staged))
  unfolding stage_pool
  stage_pool-cases summary bundle depth p staged staged' e =
      let values = summary.nullifiers_for p in
      let proofs = bundle.insertions p in
      elim (Bool-cases (is_empty values)) [
        | inl empty ↦ inl (ground arith, ground arith)
        | inr touched ↦ elim (Option-cases (staged p)) [
          | inl absent ↦ absurd (ground arith)
          | inr (s, held) ↦ elim (Result-cases (apply_insertions h p depth s (zip values proofs))) [
            | inl (s', accepted) ↦ inr (ground arith, s, s', held, accepted, ground arith)
            | inr (x, refused) ↦ absurd (ground arith)
          ]
        ]
      ]

  -- what is known of the values and the proofs for each pool
  abbrev pub InputsFit : BlockSummary → BlockProofBundle Hash Proof → Type 0
  InputsFit summary bundle =
      (p : PoolId) → AllValues (summary.nullifiers_for p) × ProofsFit (bundle.insertions p)

  stage_pool-Follows :
      (summary : BlockSummary) (bundle : BlockProofBundle Hash Proof) (depth : ℕ) (p : PoolId)
      (staged staged' : PoolId → Option (ImtState Hash)) (trees : PoolId → IndexedMerkleTree Hash)
      → InputsFit summary bundle
      → Follows h depth staged trees
      → stage_pool h u summary bundle depth p staged ≡ ok staged'
      → AnyCollision h
        ⊎ ((w : IndexedMerkleTree Hash) × (insert_all h (summary.nullifiers_for p) (trees p) ≡ ok w)
            × Follows h depth staged' (put_pool p w trees))
  stage_pool-Follows summary bundle depth p staged staged' trees fits follows e =
      elim (stage_pool-cases summary bundle depth p staged staged' e) [
        | inl (untouched, same) ↦ inr (
          trees p,
          ap (λ vs. insert_all h vs (trees p)) untouched ∙ unfold insert_all in refl,
          λ q.
              subst (λ m. Holds h depth q (m q) (put_pool p (trees p) trees q)) (sym same)
                (put_pool-own p staged trees (λ r. Holds h depth r) follows q),
        )
        | inr (same_length, s, s', held, accepted, put) ↦
            elim (accepted_pool h depth p s s' (trees p) (summary.nullifiers_for p)
              (bundle.insertions p) (subst (λ o. Holds h depth p o (trees p)) held (follows p))
              (fits p).0 (fits p).1 same_length accepted) [
                | inl broken ↦ inl broken
                | inr (w, inserted, holds) ↦ inr (
                  w,
                  inserted,
                  λ q.
                      subst (λ m. Holds h depth q (m q) (put_pool p w trees q)) (sym put)
                        (put_pool-all (λ r. Holds h depth r) p (some s') w staged trees holds
                          follows q),
                )
              ]
      ]

  stage_pools-Follows :
      (summary : BlockSummary) (bundle : BlockProofBundle Hash Proof) (depth : ℕ) (ps : List PoolId)
      (staged staged' : PoolId → Option (ImtState Hash)) (trees : PoolId → IndexedMerkleTree Hash)
      → InputsFit summary bundle
      → Follows h depth staged trees
      → stage_pools h u summary bundle depth ps staged ≡ ok staged'
      → AnyCollision h
        ⊎ ((trees' : PoolId → IndexedMerkleTree Hash) × (insert_pools h summary.nullifiers_for ps
                trees
              ≡ ok trees')
            × Follows h depth staged' trees')
  unfolding stage_pools insert_pools
  stage_pools-Follows summary bundle depth [] staged staged' trees fits follows e =
      let same : staged ≡ staged' = cc in
      inr (trees, refl, λ q. subst (λ m. Holds h depth q (m q) (trees q)) same (follows q))
  stage_pools-Follows summary bundle depth (p ∷ ps) staged staged' trees fits follows e =
      let (middle, here, there) =
        >>=-eq-ok (stage_pool h u summary bundle depth p staged)
          (stage_pools h u summary bundle depth ps) e in
      elim (stage_pool-Follows summary bundle depth p staged middle trees fits follows here) [
        | inl broken ↦ inl broken
        | inr (w, inserted, next_follows) ↦
            elim (stage_pools-Follows summary bundle depth ps middle staged' (put_pool p w trees)
              fits next_follows there) [
                | inl broken ↦ inl broken
                | inr (trees', run, ends) ↦ inr (trees', rw inserted run, ends)
              ]
      ]

  -- Where a compact node follows one valid tree per pool and accepts a bundle, the trees accept the
  -- block's nullifiers, in the order of the pools, and the node follows the trees afterwards; or a
  -- collision of the hash functions of a pool is exhibited. The values and the leaves in the proofs lie
  -- in the ranges of their types.
  pub apply_bundle_sound :
      (s s' : CompactState Hash Stump) (summary : BlockSummary)
      (bundle : BlockProofBundle Hash Proof) (trees : PoolId → IndexedMerkleTree Hash)
      → InputsFit summary bundle
      → Follows h s.depth s.nullifiers trees
      → apply_bundle h u s summary bundle ≡ (s', ok tt)
      → AnyCollision h
        ⊎ ((trees' : PoolId → IndexedMerkleTree Hash) × (insert_pools h summary.nullifiers_for
                all_pools trees
              ≡ ok trees')
            × Follows h s'.depth s'.nullifiers trees')
  apply_bundle_sound s s' summary bundle trees fits follows e =
      let a = apply_bundle-inversion h u s s' summary bundle e in
      elim (stage_pools-Follows summary bundle s.depth all_pools s.nullifiers s'.nullifiers trees
        fits follows a.staged) [
          | inl broken ↦ inl broken
          | inr (trees', run, ends) ↦
              inr
                (trees', run, subst (λ d. Follows h d s'.nullifiers trees') (sym a.depth_same) ends)
        ]
