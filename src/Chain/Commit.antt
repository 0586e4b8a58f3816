-- ===== src/Chain/Commit.antt =====
-- crates/zutreexo-chain/src/block_apply.rs: a block that passes the checks is applied whole.
use ztreexo.Prelude.{
  ◌+◌, ◌^◌, ◌≤◌, ◌≡◌, ◌⊎◌, inl, inr, false, List, [], ◌∷◌, length, Option, some, ok, ◌==◌, refl,
  sym, ap, subst, arith, Bool-cases,
}
use ztreexo.Pool.{PoolId, code, all_pools}
use ztreexo.Digest.ImtHash.{ImtHash}
use ztreexo.Imt.Types.{Value, InsertionProof}
use ztreexo.Imt.Tree.{IndexedMerkleTree, insert_all}
use ztreexo.Imt.Invariant.{IsValid}
use ztreexo.Imt.Histories.{AllValues}
use ztreexo.Chain.Types.{BlockSummary, put_pool, is_empty}
use ztreexo.Chain.Accumulators.{Forests}
use ztreexo.Chain.Nullifiers.{insert_pools, put_pool-all, put_pool-own}
use ztreexo.Chain.Apply.{Chain, check_values, insert_nullifiers}
use ztreexo.Chain.Room.{Inserts, insert_each-Inserts}

-- no pool of the list is `p`
abbrev pub Apart : PoolId → List PoolId → Type 0
Apart p [] = Unit
Apart p (q ∷ qs) = ((code p == code q) ≡ false) × Apart p qs

abbrev pub DistinctPools : List PoolId → Type 0
DistinctPools [] = Unit
DistinctPools (p ∷ ps) = Apart p ps × DistinctPools ps

pub distinct_pools : DistinctPools all_pools
unfolding code
distinct_pools = ((refl, (refl, (refl, tt))), ((refl, (refl, tt)), ((refl, tt), (tt, tt))))

module _ {Hash Forest Failure : Type 0} (h : ImtHash Hash) (f : Forests Hash Forest Failure) where
  -- the accumulators hold these trees
  abbrev pub HoldsTrees :
      (PoolId → Option (IndexedMerkleTree Hash)) → (PoolId → IndexedMerkleTree Hash) → Type 0
  HoldsTrees held trees = (p : PoolId) → (held p ≡ some (trees p)) × IsValid h (trees p)

  -- room for the values of a pool
  abbrev pub HasRoom : BlockSummary → PoolId → IndexedMerkleTree Hash → Type 0
  HasRoom summary p t = length t.leaves + length (summary.nullifiers_for p) ≤ 2 ^ t.depth

  -- what the checks have left to do for the pools of the list
  abbrev pub Ready : BlockSummary → List PoolId → (PoolId → IndexedMerkleTree Hash) → Type 0
  Ready summary [] trees = Unit
  Ready summary (p ∷ ps) trees =
      (HasRoom summary p (trees p)
        × ((summary.nullifiers_for p ≡ [])
            ⊎ (check_values h f summary.height p (trees p) [] (summary.nullifiers_for p) ≡ ok tt)))
      × Ready summary ps trees

  Ready-put :
      (summary : BlockSummary) (ps : List PoolId) (trees : PoolId → IndexedMerkleTree Hash)
      (p : PoolId) (t : IndexedMerkleTree Hash)
      → Apart p ps
      → Ready summary ps trees
      → Ready summary ps (put_pool p t trees)
  Ready-put summary [] trees p t apart ready = tt
  Ready-put summary (q ∷ qs) trees p t apart ready =
      let same : put_pool p t trees q ≡ trees q = unfold put_pool in rw apart.0 refl in
      (
        subst
            (λ u.
              HasRoom summary q u
              × ((summary.nullifiers_for q ≡ [])
                  ⊎ (check_values h f summary.height q u [] (summary.nullifiers_for q) ≡ ok tt)))
            (sym same) ready.0,
        Ready-put summary qs trees p t apart.1 ready.1,
      )

  -- step 3b has gone through, and has left these trees and the rest as it was
  pub record Inserted (c : Chain h f) (summary : BlockSummary) (ps : List PoolId)
      (trees : PoolId → IndexedMerkleTree Hash)
      (insertions : PoolId → List (Value × InsertionProof Hash)) : Type 0 where
    pub c' : Chain h f
    pub recorded : PoolId → List (Value × InsertionProof Hash)
    pub trees' : PoolId → IndexedMerkleTree Hash
    pub runs : insert_nullifiers h f summary ps c insertions ≡ (c', ok recorded)
    pub inserted : insert_pools h summary.nullifiers_for ps trees ≡ ok trees'
    pub holds : HoldsTrees c'.nullifiers trees'

  untouched_pool :
      (c : Chain h f) (summary : BlockSummary) (p : PoolId) (ps : List PoolId)
      (trees : PoolId → IndexedMerkleTree Hash)
      (insertions : PoolId → List (Value × InsertionProof Hash))
      → summary.nullifiers_for p ≡ []
      → Inserted c summary ps (put_pool p (trees p) trees) insertions
      → Inserted c summary (p ∷ ps) trees insertions
  unfolding insert_nullifiers insert_pools insert_all
  untouched_pool c summary p ps trees insertions empty r = record {
    c' = r.c';
    recorded = r.recorded;
    trees' = r.trees';
    runs = rw (insert_nullifiers, empty) r.runs;
    inserted = rw empty r.inserted;
    holds = r.holds;
  }

  Inserted-pool :
      (c : Chain h f) (summary : BlockSummary) (p : PoolId) (ps : List PoolId)
      (trees : PoolId → IndexedMerkleTree Hash)
      (insertions : PoolId → List (Value × InsertionProof Hash))
      → c.nullifiers p ≡ some (trees p)
      → is_empty (summary.nullifiers_for p) ≡ false
      → (i : Inserts h f (trees p) (summary.nullifiers_for p))
      → Inserted
          (record c { nullifiers = put_pool p (some i.last) c.nullifiers })
          summary
          ps
          (put_pool p i.last trees)
          (put_pool p i.applied insertions)
      → Inserted c summary (p ∷ ps) trees insertions
  unfolding insert_nullifiers insert_pools
  Inserted-pool c summary p ps trees insertions held touched i r = record {
    c' = r.c';
    recorded = r.recorded;
    trees' = r.trees';
    runs = rw (insert_nullifiers, touched, held, ap (λ x. x.1) i.each, ap (λ x. x.0) i.each) r.runs;
    inserted = rw i.all r.inserted;
    holds = r.holds;
  }

  pub insert_nullifiers-Inserted :
      (c : Chain h f) (summary : BlockSummary) (ps : List PoolId)
      (trees : PoolId → IndexedMerkleTree Hash)
      (insertions : PoolId → List (Value × InsertionProof Hash))
      → DistinctPools ps
      → HoldsTrees c.nullifiers trees
      → ((p : PoolId) → AllValues (summary.nullifiers_for p))
      → Ready summary ps trees
      → Inserted c summary ps trees insertions
  insert_nullifiers-Inserted c summary [] trees insertions distinct holds in_type ready = record {
    c' = c;
    recorded = insertions;
    trees' = trees;
    runs = unfold insert_nullifiers in refl;
    inserted = unfold insert_pools in refl;
    holds = holds;
  }
  insert_nullifiers-Inserted c summary (p ∷ ps) trees insertions distinct holds in_type ready =
      elim (Bool-cases (is_empty (summary.nullifiers_for p))) [
        | inl empty ↦ untouched_pool c summary p ps trees insertions (ground arith) (
            insert_nullifiers-Inserted c summary ps (put_pool p (trees p) trees) insertions
              distinct.1
              (put_pool-own p c.nullifiers trees (λ q o t. (o ≡ some t) × IsValid h t) holds)
              in_type (Ready-put summary ps trees p (trees p) distinct.0 ready.1))
        | inr touched ↦
            let passed : check_values h f summary.height p (trees p) [] (summary.nullifiers_for p)
                ≡ ok tt =
              ground arith in
            let i =
              insert_each-Inserts h f summary.height p (trees p) (trees p) []
                (summary.nullifiers_for p) (holds p).1
                (λ w. unfold ztreexo.Imt.Histories.member in refl) (in_type p) ready.0.0 passed in
            Inserted-pool c summary p ps trees insertions (holds p).0 touched i (
              insert_nullifiers-Inserted
                (record c { nullifiers = put_pool p (some i.last) c.nullifiers }) summary ps
                (put_pool p i.last trees) (put_pool p i.applied insertions) distinct.1
                (put_pool-all (λ q o t. (o ≡ some t) × IsValid h t) p (some i.last) i.last
                  c.nullifiers trees (refl, i.valid) holds)
                in_type (Ready-put summary ps trees p i.last distinct.0 ready.1))
      ]
