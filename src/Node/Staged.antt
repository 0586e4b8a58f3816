-- ===== src/Node/Staged.antt =====
-- crates/zutreexo-csn/src/lib.rs: the proofs of a bridge's trees pass the loop over the pools.
use ztreexo.Prelude.{
  ℕ, ◌≡◌, inl, inr, true, false, List, [], ◌∷◌, map, length, Option, some, ok, ◌==◌, refl, sym, ap,
  ap₂, ◌∙◌, subst, arith, Bool-cases, eq→==,
}
use ztreexo.Pool.{PoolId, code}
use ztreexo.Digest.ImtHash.{ImtHash}
use ztreexo.Imt.Types.{Value, ImtState, InsertionProof}
use ztreexo.Imt.Tree.{IndexedMerkleTree, state}
use ztreexo.Imt.Histories.{AllValues, apply_insertions}
use ztreexo.Chain.Types.{BlockSummary, BlockProofBundle, put_pool, is_empty}
use ztreexo.Chain.Accumulators.{Forests}
use ztreexo.Chain.Apply.{insert_each}
use ztreexo.Chain.Commit.{Apart, DistinctPools}
use ztreexo.Node.Types.{Stumps}
use ztreexo.Node.Apply.{zip, stage_pool, stage_pools}
use ztreexo.Node.Pools.{Holds, Follows}
use ztreexo.Node.Served.{Served, insert_each-Served, Served-accepted, length-map_of}

module _ {Hash Stump Proof Forest Failure : Type 0} (h : ImtHash Hash)
    (u : Stumps Hash Stump Proof Failure) (f : Forests Hash Forest Failure) where
  -- The bridge's trees took the block's values of a pool and ended in `last`, and the bundle carries
  -- the proofs that they returned.
  pub record Carries (summary : BlockSummary) (bundle : BlockProofBundle Hash Proof)
      (trees last : PoolId → IndexedMerkleTree Hash) (p : PoolId) : Type 0 where
    pub applied : List (Value × InsertionProof Hash)
    pub in_type : AllValues (summary.nullifiers_for p)
    pub each : insert_each h f (trees p) (summary.nullifiers_for p) ≡ (last p, ok applied)
    pub carried : bundle.insertions p ≡ map (λ x. x.1) applied

  Carries-Served :
      (summary : BlockSummary) (bundle : BlockProofBundle Hash Proof)
      (trees last : PoolId → IndexedMerkleTree Hash) (p : PoolId) (depth : ℕ)
      (held : Option (ImtState Hash))
      → Holds h depth p held (trees p)
      → (c : Carries summary bundle trees last p)
      → Served h f (trees p) (last p) (summary.nullifiers_for p) c.applied
  Carries-Served summary bundle trees last p depth held holds c =
      insert_each-Served h f (trees p) (last p) (summary.nullifiers_for p) c.applied holds.valid
        c.in_type c.each

  apart_sym : (p q : PoolId) → (code p == code q) ≡ false → (code q == code p) ≡ false
  apart_sym p q e = ground arith

  -- one pool of the loop has gone through
  record Staged (summary : BlockSummary) (bundle : BlockProofBundle Hash Proof) (depth : ℕ)
      (p : PoolId) (staged : PoolId → Option (ImtState Hash)) (last : IndexedMerkleTree Hash)
      : Type 0 where
    staged' : PoolId → Option (ImtState Hash)
    passes : stage_pool h u summary bundle depth p staged ≡ ok staged'
    holds : Holds h depth p (staged' p) last
    elsewhere : (q : PoolId) → (code p == code q) ≡ false → staged' q ≡ staged q

  Staged-untouched :
      (summary : BlockSummary) (bundle : BlockProofBundle Hash Proof) (depth : ℕ) (p : PoolId)
      (staged : PoolId → Option (ImtState Hash)) (trees last : PoolId → IndexedMerkleTree Hash)
      → is_empty (summary.nullifiers_for p) ≡ true
      → Holds h depth p (staged p) (trees p)
      → Carries summary bundle trees last p
      → Staged summary bundle depth p staged (last p)
  Staged-untouched summary bundle depth p staged trees last empty holds c =
      let nothing : summary.nullifiers_for p ≡ [] = ground arith in
      let kept : trees p ≡ last p =
        unfold insert_each in cc (c.each, ap (insert_each h f (trees p)) nothing) in
      record {
        staged' = staged;
        passes = unfold stage_pool in rw (stage_pool, empty) refl;
        holds = subst (Holds h depth p (staged p)) kept holds;
        elsewhere = λ q apart. refl;
      }

  Staged-touched :
      (summary : BlockSummary) (bundle : BlockProofBundle Hash Proof) (depth : ℕ) (p : PoolId)
      (staged : PoolId → Option (ImtState Hash)) (trees last : PoolId → IndexedMerkleTree Hash)
      → is_empty (summary.nullifiers_for p) ≡ false
      → Holds h depth p (staged p) (trees p)
      → Carries summary bundle trees last p
      → Staged summary bundle depth p staged (last p)
  Staged-touched summary bundle depth p staged trees last touched holds c =
      let r = Carries-Served summary bundle trees last p depth (staged p) holds c in
      let values = summary.nullifiers_for p in
      let proofs = bundle.insertions p in
      let counts : length proofs ≡ length values =
        ap length c.carried
        ∙ length-map_of (λ x. x.1) c.applied
        ∙ sym (length-map_of (λ x. x.0) c.applied)
        ∙ ap length r.values in
      let accepted : apply_insertions h p depth (state h (trees p)) (zip values proofs)
          ≡ ok (state h (last p)) =
        ap₂ (λ q d. apply_insertions h q d (state h (trees p)) (zip values proofs))
          (sym holds.pool_same) (sym holds.depth_same)
        ∙ ap
            (λ l.
              apply_insertions h (trees p).pool (trees p).depth (state h (trees p)) (zip values l))
            c.carried
        ∙ Served-accepted h f (trees p) (last p) values c.applied holds.valid r in
      record {
        staged' = put_pool p (some (state h (last p))) staged;
        passes =
            unfold stage_pool in
            rw
              (
                stage_pool,
                touched,
                eq→== (length proofs) (length values) counts,
                holds.same_state,
                accepted,
              )
              refl;
        holds = record {
          valid = r.valid;
          pool_same = r.pool_same ∙ holds.pool_same;
          depth_same = r.depth_same ∙ holds.depth_same;
          same_state = unfold put_pool in rw (eq→== (code p) (code p) refl) refl;
        };
        elsewhere = λ q apart. unfold put_pool in rw apart refl;
      }

  Staged-pool :
      (summary : BlockSummary) (bundle : BlockProofBundle Hash Proof) (depth : ℕ) (p : PoolId)
      (staged : PoolId → Option (ImtState Hash)) (trees last : PoolId → IndexedMerkleTree Hash)
      → Holds h depth p (staged p) (trees p)
      → Carries summary bundle trees last p
      → Staged summary bundle depth p staged (last p)
  Staged-pool summary bundle depth p staged trees last holds c =
      elim (Bool-cases (is_empty (summary.nullifiers_for p))) [
        | inl empty ↦ Staged-untouched summary bundle depth p staged trees last empty holds c
        | inr touched ↦ Staged-touched summary bundle depth p staged trees last touched holds c
      ]

  -- the two maps agree on the pools of the list
  abbrev pub Same :
      List PoolId → (PoolId → Option (ImtState Hash)) → (PoolId → Option (ImtState Hash)) → Type 0
  Same [] a b = Unit
  Same (p ∷ ps) a b = (a p ≡ b p) × Same ps a b

  Same-elsewhere :
      (p : PoolId) (ps : List PoolId) (a b c : PoolId → Option (ImtState Hash))
      → ((q : PoolId) → (code p == code q) ≡ false → a q ≡ b q)
      → Apart p ps
      → Same ps b c
      → Same ps a c
  Same-elsewhere p [] a b c elsewhere apart same = tt
  Same-elsewhere p (q ∷ qs) a b c elsewhere apart same =
      (elsewhere q apart.0 ∙ same.0, Same-elsewhere p qs a b c elsewhere apart.1 same.1)

  -- the states of the pools of the list are those of the last trees
  abbrev pub Ends :
      ℕ
      → List PoolId
      → (PoolId → Option (ImtState Hash))
      → (PoolId → IndexedMerkleTree Hash)
      → Type 0
  Ends depth [] staged last = Unit
  Ends depth (p ∷ ps) staged last = Holds h depth p (staged p) (last p) × Ends depth ps staged last

  pub staged_pools :
      (summary : BlockSummary) (bundle : BlockProofBundle Hash Proof) (depth : ℕ)
      (states : PoolId → Option (ImtState Hash)) (trees last : PoolId → IndexedMerkleTree Hash)
      → Follows h depth states trees
      → ((p : PoolId) → Carries summary bundle trees last p)
      → (ps : List PoolId) (staged : PoolId → Option (ImtState Hash)) → DistinctPools ps
      → Same ps staged states
      → (staged' : PoolId → Option (ImtState Hash)) × (stage_pools h u summary bundle depth ps
            staged
          ≡ ok staged')
        × Ends depth ps staged' last
        × ((q : PoolId) → Apart q ps → staged' q ≡ staged q)
  unfolding stage_pools
  staged_pools summary bundle depth states trees last follows carries [] staged distinct same =
      (staged, refl, tt, λ q apart. refl)
  staged_pools summary bundle depth states trees last follows carries (p ∷ ps) staged distinct
        same =
      let here =
        Staged-pool summary bundle depth p staged trees last
          (subst (λ o. Holds h depth p o (trees p)) (sym same.0) (follows p)) (carries p) in
      let (staged', runs, ends, elsewhere) =
        staged_pools summary bundle depth states trees last follows carries ps here.staged'
          distinct.1
          (Same-elsewhere p ps here.staged' staged states here.elsewhere distinct.0 same.1) in
      (
        staged',
        rw here.passes runs,
        (subst (λ o. Holds h depth p o (last p)) (sym (elsewhere p distinct.0)) here.holds, ends),
        λ q apart. elsewhere q apart.1 ∙ here.elsewhere q (apart_sym q p apart.0),
      )
