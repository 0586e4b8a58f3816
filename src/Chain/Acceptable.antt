-- ===== src/Chain/Acceptable.antt =====
-- crates/zutreexo-chain/src/block_apply.rs: which blocks pass the checks of `apply_block`.
use ztreexo.Prelude.{
  subst, ℕ, ◌≡◌, Bool, true, false, ◌+◌, ◌++◌, List, [], ◌∷◌, some, none, ok, refl, sym, ◌∙◌, arith,
  ◌==◌, eq→==, Bool-cases, Option-cases, inl, inr,
}
use ztreexo.Pool.{PoolId, sprout, sapling, orchard, ironwood, all_pools}
use ztreexo.Digest.ImtHash.{ImtHash}
use ztreexo.Imt.Types.{Value}
use ztreexo.Imt.Tree.{IndexedMerkleTree, contains}
use ztreexo.Imt.Histories.{member}
use ztreexo.Chain.Types.{BlockSummary, OutPoint, UtxoLeaf, has_outpoint, next_height, is_empty}
use ztreexo.Chain.Accumulators.{Forests, ApplyOptions, UtxoIndex, utxo}
use ztreexo.Chain.Apply.{
  Chain, Resolved, nothing_resolved, check_values, check_nullifiers, check_contiguous,
  resolve_spends, stage_block,
}
use ztreexo.Chain.Room.{check_values-eq_ok}
use ztreexo.Chain.Outpoints.{DistinctFrom, created_outpoints, has_outpoint-cons, outpoint_beq_refl}
use ztreexo.Chain.Resolving.{Resolvable}
use ztreexo.Chain.Staged.{Staged}

module _ {Hash Forest Failure : Type 0} (h : ImtHash Hash) (f : Forests Hash Forest Failure) where
  -- no value is in the tree, or among the values before it
  abbrev pub Fresh : IndexedMerkleTree Hash → List Value → List Value → Type 0
  Fresh t within [] = Unit
  Fresh t within (v ∷ vs) =
      (contains t v ≡ false) × (member v within ≡ false) × Fresh t (v ∷ within) vs

  -- The block is the next one, where that is asked for; it spends no output twice, and only outputs
  -- that it may spend; and it repeats no nullifier, of a tree or its own.
  pub record Acceptable (c : Chain h f) (summary : BlockSummary) (options : ApplyOptions)
      (trees : PoolId → IndexedMerkleTree Hash) : Type 0 where
    pub contiguous :
        options.enforce_contiguous ≡ true
        → (tip : ℕ) → c.tip ≡ some tip
        → summary.height ≡ next_height tip
    pub distinct : DistinctFrom [] summary.transparent_spends
    pub resolvable :
        (o : OutPoint)
        → has_outpoint o summary.transparent_spends ≡ true
        → Resolvable options.allow_unknown_spends c.utxo_index summary.transparent_creates o
    pub fresh : (p : PoolId) → Fresh (trees p) [] (summary.nullifiers_for p)

  check_values-Fresh :
      (height : ℕ) (p : PoolId) (t : IndexedMerkleTree Hash) (within vs : List Value)
      → check_values h f height p t within vs ≡ ok tt
      → Fresh t within vs
  check_values-Fresh height p t within [] e = tt
  check_values-Fresh height p t within (v ∷ vs) e =
      let (absent, new, rest) = check_values-eq_ok h f height p t within v vs e in
      (absent, new, check_values-Fresh height p t (v ∷ within) vs rest)

  Fresh-check_values :
      (height : ℕ) (p : PoolId) (t : IndexedMerkleTree Hash) (within vs : List Value)
      → Fresh t within vs
      → check_values h f height p t within vs ≡ ok tt
  unfolding check_values
  Fresh-check_values height p t within [] fresh = refl
  Fresh-check_values height p t within (v ∷ vs) (absent, new, rest) =
      rw (absent, new) (Fresh-check_values height p t (v ∷ within) vs rest)

  check_nullifiers-cons :
      (c : Chain h f) (summary : BlockSummary) (p : PoolId) (ps : List PoolId)
      (t : IndexedMerkleTree Hash)
      → c.nullifiers p ≡ some t
      → check_nullifiers h f c summary (p ∷ ps) ≡ ok tt
      → Fresh t [] (summary.nullifiers_for p) × (check_nullifiers h f c summary ps ≡ ok tt)
  unfolding check_nullifiers
  check_nullifiers-cons c summary p ps t held e =
      elim (Bool-cases (is_empty (summary.nullifiers_for p))) [
        | inl empty ↦
            let none : summary.nullifiers_for p ≡ [] = ground arith in
            (subst (Fresh t []) (sym none) tt, ground arith)
        | inr touched ↦
            let passed : check_values h f summary.height p t [] (summary.nullifiers_for p) ≡ ok tt =
              ground arith in
            (
              check_values-Fresh summary.height p t [] (summary.nullifiers_for p) passed,
              ground arith,
            )
      ]

  Fresh-check_nullifiers :
      (c : Chain h f) (summary : BlockSummary) (ps : List PoolId)
      (trees : PoolId → IndexedMerkleTree Hash)
      → ((p : PoolId) → c.nullifiers p ≡ some (trees p))
      → ((p : PoolId) → Fresh (trees p) [] (summary.nullifiers_for p))
      → check_nullifiers h f c summary ps ≡ ok tt
  unfolding check_nullifiers
  Fresh-check_nullifiers c summary [] trees held fresh = refl
  Fresh-check_nullifiers c summary (p ∷ ps) trees held fresh =
      let rest = Fresh-check_nullifiers c summary ps trees held fresh in
      let passes =
        Fresh-check_values summary.height p (trees p) [] (summary.nullifiers_for p) (fresh p) in
      let here = held p in
      elim (Bool-cases (is_empty (summary.nullifiers_for p))) [
        | inl empty ↦ rw (empty) rest
        | inr touched ↦ rw (touched, here, passes) rest
      ]

  resolve_spends-runs :
      (height : ℕ) (allow : Bool) (index : UtxoIndex) (created : List (OutPoint × UtxoLeaf))
      (seen : List OutPoint) (r : Resolved) (spends : List OutPoint)
      → DistinctFrom seen spends
      → ((o : OutPoint) → has_outpoint o spends ≡ true → Resolvable allow index created o)
      → (r' : Resolved) × (resolve_spends h f height allow index created seen r spends ≡ ok r')
  unfolding resolve_spends
  resolve_spends-runs height allow index created seen r [] distinct can = (r, refl)
  resolve_spends-runs height allow index created seen r (o ∷ spends) (fresh, distinct) can =
      let later = λ (p : OutPoint) (one : has_outpoint p spends ≡ true).
        can p (ground (arith, has_outpoint-cons p o spends)) in
      let this = can o (has_outpoint-cons o o spends ∙ rw (outpoint_beq_refl o) refl) in
      elim (Option-cases (utxo o index)) [
        | inr (leaf, known) ↦
            let (r', e) =
              resolve_spends-runs height allow index created (o ∷ seen)
                (record r { spent = r.spent ++ (o, leaf) ∷ [] }) spends distinct later in
            (r', rw (fresh, known) e)
        | inl missing ↦ elim (Bool-cases (has_outpoint o (created_outpoints created))) [
          | inl made ↦
              let (r', e) =
                resolve_spends-runs height allow index created (o ∷ seen)
                  (record r { cancelled = o ∷ r.cancelled }) spends distinct later in
              (r', rw (fresh, missing, made) e)
          | inr foreign ↦
              let (r', e) =
                resolve_spends-runs height allow index created (o ∷ seen)
                  (record r { unknown_spends = r.unknown_spends + 1 }) spends distinct later in
              (
                r',
                rw (fresh, missing, foreign, allowed allow index created o this missing foreign) e,
              )
        ]
      ]
    where
      allowed :
          (a : Bool) (i : UtxoIndex) (cs : List (OutPoint × UtxoLeaf)) (p : OutPoint)
          → Resolvable a i cs p
          → utxo p i ≡ none
          → has_outpoint p (created_outpoints cs) ≡ false
          → a ≡ true
      allowed a i cs p (inl (leaf, known)) missing foreign = absurd (ground arith)
      allowed a i cs p (inr (inl made)) missing foreign = absurd (ground arith)
      allowed a i cs p (inr (inr opened)) missing foreign = opened

  -- the check of the height
  check_contiguous-cases :
      (c : Chain h f) (summary : BlockSummary) (enforced : Bool)
      → check_contiguous h f c summary enforced ≡ ok tt
      → enforced ≡ true
      → (tip : ℕ) → c.tip ≡ some tip
      → summary.height ≡ next_height tip
  unfolding check_contiguous
  check_contiguous-cases c summary true e on tip known = ground (arith, known)
  check_contiguous-cases c summary false e on tip known = absurd (ground arith)

  check_contiguous-runs :
      (c : Chain h f) (summary : BlockSummary) (enforced : Bool)
      → (enforced ≡ true → (tip : ℕ) → c.tip ≡ some tip → summary.height ≡ next_height tip)
      → check_contiguous h f c summary enforced ≡ ok tt
  unfolding check_contiguous
  check_contiguous-runs c summary false next = refl
  check_contiguous-runs c summary true next = elim (Option-cases c.tip) [
    | inl fresh ↦ rw fresh refl
    | inr (tip, known) ↦
        let same : (summary.height == next_height tip) ≡ true =
          eq→== summary.height (next_height tip) (next refl tip known) in
        rw (known, same) refl
  ]

  pub stage_block-Acceptable :
      (c : Chain h f) (summary : BlockSummary) (options : ApplyOptions) (r : Resolved)
      (trees : PoolId → IndexedMerkleTree Hash)
      → ((p : PoolId) → c.nullifiers p ≡ some (trees p))
      → Staged h f c summary options r
      → Acceptable c summary options trees
  stage_block-Acceptable c summary options r trees held k =
      let (a, e1) =
        check_nullifiers-cons c summary sprout _ (trees sprout) (held sprout) k.nullifiers in
      let (b, e2) = check_nullifiers-cons c summary sapling _ (trees sapling) (held sapling) e1 in
      let (d, e3) = check_nullifiers-cons c summary orchard _ (trees orchard) (held orchard) e2 in
      let (i, e4) =
        check_nullifiers-cons c summary ironwood [] (trees ironwood) (held ironwood) e3 in
      record {
        contiguous = check_contiguous-cases c summary options.enforce_contiguous k.contiguous;
        distinct = k.distinct;
        resolvable = k.resolvable;
        fresh = λ p. elim p as (λ q. Fresh (trees q) [] (summary.nullifiers_for q)) [
          | sprout ↦ a
          | sapling ↦ b
          | orchard ↦ d
          | ironwood ↦ i
        ];
      }

  pub Acceptable-stage_block :
      (c : Chain h f) (summary : BlockSummary) (options : ApplyOptions)
      (trees : PoolId → IndexedMerkleTree Hash)
      → ((p : PoolId) → c.nullifiers p ≡ some (trees p))
      → Acceptable c summary options trees
      → (r : Resolved) × (stage_block h f c summary options ≡ ok r)
  unfolding stage_block
  Acceptable-stage_block c summary options trees held a =
      let next = check_contiguous-runs c summary options.enforce_contiguous a.contiguous in
      let passes = Fresh-check_nullifiers c summary all_pools trees held a.fresh in
      let (r, resolves) =
        resolve_spends-runs summary.height options.allow_unknown_spends c.utxo_index
          summary.transparent_creates [] nothing_resolved summary.transparent_spends a.distinct
          a.resolvable in
      (r, rw (next, resolves, passes) refl)
