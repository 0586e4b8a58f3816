-- ===== src/Rollback/Pools.antt =====
-- rollback.rs: undoing the insertions of a block, pool by pool, newest pool first.
use ztreexo.Prelude.{
  ◌≡◌, inl, inr, true, false, List, [], ◌∷◌, ◌++◌, Option, some, ok, arith, refl, sym, ap, ◌∙◌,
  subst, Bool-cases, Option-cases, ◌==◌, ==→eq,
}
use ztreexo.Pool.{PoolId, code}
use ztreexo.Digest.ImtHash.{ImtHash}
use ztreexo.Imt.Types.{Value, InsertionProof}
use ztreexo.Imt.Tree.{IndexedMerkleTree}
use ztreexo.Imt.Mirrors.{Mirrors}
use ztreexo.Chain.Types.{BlockSummary, put_pool, is_empty}
use ztreexo.Chain.Accumulators.{Forests, ChainAccumulators}
use ztreexo.Chain.Nullifiers.{code-injective}
use ztreexo.Chain.Apply.{Chain, insert_nullifiers}
use ztreexo.Chain.Commit.{Apart, HoldsTrees}
use ztreexo.Rollback.Unwind.{undo_each, undo_pools, reversed}

module _ {Hash Forest Failure : Type 0} (h : ImtHash Hash) (f : Forests Hash Forest Failure) where
  -- The accumulators hold trees that mirror these.
  abbrev pub HoldsMirrors :
      (PoolId → Option (IndexedMerkleTree Hash))
      → (PoolId → IndexedMerkleTree Hash)
      → (PoolId → IndexedMerkleTree Hash)
      → Type 0
  HoldsMirrors held us ts = (p : PoolId) → (held p ≡ some (us p)) × Mirrors h (us p) (ts p)

  pub undo_pools-append :
      (insertions : PoolId → List (Value × InsertionProof Hash)) (ps qs : List PoolId)
      (d d' : ChainAccumulators Hash Forest)
      → undo_pools h {Failure = Failure} insertions ps d ≡ (d', ok tt)
      → undo_pools h {Failure = Failure} insertions (ps ++ qs) d ≡ undo_pools h insertions qs d'
  unfolding undo_pools
  undo_pools-append insertions [] qs d d' e =
      ap (λ r. undo_pools h {Failure = Failure} insertions qs r.0) e
  undo_pools-append insertions (p ∷ ps) qs d d' e = elim (Bool-cases (is_empty (insertions p))) [
    | inl empty ↦ ground (arith, undo_pools-append insertions ps qs d d')
    | inr touched ↦ elim (Option-cases (d.nullifiers p)) [
      | inl gone ↦ absurd (ground arith)
      | inr (t, held) ↦
          let (t', outcome) = undo_each h t (reversed (insertions p)) in
          ground (
            arith,
            undo_pools-append insertions ps qs
                (record d { nullifiers = put_pool p (some t') d.nullifiers }) d',
          )
    ]
  ]

  -- What `insert_nullifiers` did to trees `ts` can be undone, on any accumulators that mirror its
  -- result.
  pub record Unwinds (c c' : Chain h f) (ps : List PoolId) (ts : PoolId → IndexedMerkleTree Hash)
      (insertions recorded : PoolId → List (Value × InsertionProof Hash)) : Type 0 where
    pub ts' : PoolId → IndexedMerkleTree Hash
    pub holds : HoldsTrees h f c'.nullifiers ts'
    pub rest_same : c' ≡ record c { nullifiers = c'.nullifiers }
    pub kept : (q : PoolId) → Apart q ps → recorded q ≡ insertions q
    pub back :
        (d : ChainAccumulators Hash Forest) (us : PoolId → IndexedMerkleTree Hash)
        → HoldsMirrors d.nullifiers us ts'
        → (held : PoolId → Option (IndexedMerkleTree Hash)) × (us' : PoolId
            → IndexedMerkleTree Hash)
          × (undo_pools h {Failure = Failure} recorded (reversed ps) d
              ≡ (record d { nullifiers = held }, ok tt))
          × HoldsMirrors held us' ts

  pub Unwinds-nil :
      (summary : BlockSummary) (c c' : Chain h f) (ts : PoolId → IndexedMerkleTree Hash)
      (insertions recorded : PoolId → List (Value × InsertionProof Hash))
      → HoldsTrees h f c.nullifiers ts
      → insert_nullifiers h f summary [] c insertions ≡ (c', ok recorded)
      → Unwinds c c' [] ts insertions recorded
  unfolding insert_nullifiers undo_pools
  Unwinds-nil summary c c' ts insertions recorded holds e =
      let same : c ≡ c' = ground arith in
      let records : insertions ≡ recorded = ground arith in
      record {
        ts' = ts;
        holds = subst (λ (x : Chain h f). HoldsTrees h f x.nullifiers ts) same holds;
        rest_same = sym same ∙ ap (λ (x : Chain h f). record c { nullifiers = x.nullifiers }) same;
        kept =
            λ q apart. ap (λ (r : PoolId → List (Value × InsertionProof Hash)). r q) (sym records);
        back = λ d us mirrors. (d.nullifiers, us, refl, mirrors);
      }

  -- undoing one pool after the others
  pub undo_pool :
      (recorded : PoolId → List (Value × InsertionProof Hash)) (p : PoolId)
      (d : ChainAccumulators Hash Forest) (u r : IndexedMerkleTree Hash)
      → is_empty (recorded p) ≡ false
      → d.nullifiers p ≡ some u
      → undo_each h u (reversed (recorded p)) ≡ (r, ok tt)
      → undo_pools h {Failure = Failure} recorded (p ∷ []) d
        ≡ (record d { nullifiers = put_pool p (some r) d.nullifiers }, ok tt)
  unfolding undo_pools
  undo_pool recorded p d u r touched held e =
      rw (touched, held, undo_pools, ap (λ x. x.1) e, ap (λ x. x.0) e) refl

  pub undo_pool_untouched :
      (recorded : PoolId → List (Value × InsertionProof Hash)) (p : PoolId)
      (d : ChainAccumulators Hash Forest)
      → is_empty (recorded p) ≡ true
      → undo_pools h {Failure = Failure} recorded (p ∷ []) d ≡ (d, ok tt)
  unfolding undo_pools
  undo_pool_untouched recorded p d empty = rw (empty, undo_pools) refl

  pub untouched_step :
      (summary : BlockSummary) (p : PoolId) (ps : List PoolId) (c : Chain h f)
      (insertions : PoolId → List (Value × InsertionProof Hash))
      → is_empty (summary.nullifiers_for p) ≡ true
      → insert_nullifiers h f summary (p ∷ ps) c insertions
        ≡ insert_nullifiers h f summary ps c insertions
  unfolding insert_nullifiers
  untouched_step summary p ps c insertions empty = rw (empty, insert_nullifiers) refl

  -- the trees after one of them was undone
  pub HoldsMirrors-put :
      (held : PoolId → Option (IndexedMerkleTree Hash)) (us ts : PoolId → IndexedMerkleTree Hash)
      (p : PoolId) (t' r : IndexedMerkleTree Hash)
      → HoldsMirrors held us (put_pool p t' ts)
      → Mirrors h r (ts p)
      → HoldsMirrors (put_pool p (some r) held) (put_pool p r us) ts
  unfolding put_pool
  HoldsMirrors-put held us ts p t' r mirrors restored q = elim (Bool-cases (code p == code q)) [
    | inl same ↦ rw same (
      refl,
      subst (λ x. Mirrors h r (ts x)) (code-injective p q (==→eq (code p) (code q) same)) restored,
    )
    | inr other ↦
        let there : put_pool p t' ts q ≡ ts q = rw other in
        rw other ((mirrors q).0, subst (Mirrors h (us q)) there (mirrors q).1)
  ]
