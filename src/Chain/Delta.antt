-- ===== src/Chain/Delta.antt =====
-- crates/zutreexo-chain/src/block_apply.rs: what step 3b records for each pool, and the tree that it
-- leaves there.
use ztreexo.Prelude.{
  ◌≡◌, ◌⊎◌, inl, inr, false, List, [], ◌∷◌, some, ok, arith, refl, sym, ap, ◌∙◌, subst, Bool-cases,
  Result-cases, Option-cases, ◌==◌,
}
use ztreexo.Pool.{PoolId, sprout, sapling, orchard, ironwood, code, all_pools}
use ztreexo.Digest.ImtHash.{ImtHash}
use ztreexo.Imt.Types.{Value, InsertionProof}
use ztreexo.Imt.Tree.{IndexedMerkleTree}
use ztreexo.Chain.Types.{BlockSummary, put_pool, is_empty}
use ztreexo.Chain.Accumulators.{Forests}
use ztreexo.Chain.Nullifiers.{put_pool_here, put_pool_away}
use ztreexo.Chain.Apply.{Chain, insert_each, insert_nullifiers}
use ztreexo.Chain.Commit.{Apart, DistinctPools, distinct_pools}

abbrev OneOf : PoolId → List PoolId → Type 0
OneOf q [] = ⊥
OneOf q (p ∷ ps) = (q ≡ p) ⊎ OneOf q ps

any_pool : (q : PoolId) → OneOf q all_pools
any_pool sprout = inl refl
any_pool sapling = inr (inl refl)
any_pool orchard = inr (inr (inl refl))
any_pool ironwood = inr (inr (inr (inl refl)))

Apart-OneOf :
    (p q : PoolId) (ps : List PoolId) → Apart p ps → OneOf q ps → (code q == code p) ≡ false
Apart-OneOf p q [] apart one = absurd one
Apart-OneOf p q (r ∷ ps) apart (inl same) =
    let here : (code p == code r) ≡ false = apart.0 in
    ap (λ x. code x == code p) same ∙ ground arith
Apart-OneOf p q (r ∷ ps) apart (inr later) = Apart-OneOf p q ps apart.1 later

module _ {Hash Forest Failure : Type 0} (h : ImtHash Hash) (f : Forests Hash Forest Failure) where
  pub touched_step :
      (summary : BlockSummary) (p : PoolId) (ps : List PoolId) (c c' : Chain h f)
      (insertions recorded : PoolId → List (Value × InsertionProof Hash))
      (t : IndexedMerkleTree Hash)
      → c.nullifiers p ≡ some t
      → is_empty (summary.nullifiers_for p) ≡ false
      → insert_nullifiers h f summary (p ∷ ps) c insertions ≡ (c', ok recorded)
      → (t' : IndexedMerkleTree Hash) × (applied : List (Value × InsertionProof Hash))
        × (insert_each h f t (summary.nullifiers_for p) ≡ (t', ok applied))
        × (insert_nullifiers h f summary ps
              (record c { nullifiers = put_pool p (some t') c.nullifiers })
              (put_pool p applied insertions)
            ≡ (c', ok recorded))
  unfolding insert_nullifiers
  touched_step summary p ps c c' insertions recorded t held touched e =
      let each = insert_each h f t (summary.nullifiers_for p) in
      elim (Result-cases each.1) [
        | inr (e', failed) ↦ absurd (ground arith)
        | inl (applied, went) ↦ (each.0, applied, ground arith, ground arith)
      ]

  -- a pool that does not stand in the list
  passed_by :
      (summary : BlockSummary) (ps : List PoolId) (c c' : Chain h f)
      (insertions recorded : PoolId → List (Value × InsertionProof Hash)) (q : PoolId)
      → Apart q ps
      → insert_nullifiers h f summary ps c insertions ≡ (c', ok recorded)
      → (recorded q ≡ insertions q) × (c'.nullifiers q ≡ c.nullifiers q)
  unfolding insert_nullifiers
  passed_by summary [] c c' insertions recorded q apart e = (ground arith, ground arith)
  passed_by summary (p ∷ ps) c c' insertions recorded q apart e =
      elim (Bool-cases (is_empty (summary.nullifiers_for p))) [
        | inl empty ↦ passed_by summary ps c c' insertions recorded q apart.1 (ground arith)
        | inr touched ↦ elim (Option-cases (c.nullifiers p)) [
          | inl missing ↦ absurd (ground arith)
          | inr (t, held) ↦
              let (t', applied, each, rest) =
                touched_step summary p ps c c' insertions recorded t held touched e in
              let (same, tree_same) =
                passed_by summary ps (record c { nullifiers = put_pool p (some t') c.nullifiers })
                  c' (put_pool p applied insertions) recorded q apart.1 rest in
              (
                same ∙ put_pool_away p q applied insertions apart.0,
                tree_same ∙ put_pool_away p q (some t') c.nullifiers apart.0,
              )
        ]
      ]

  -- the transparent half is left alone
  pub insert_nullifiers-rest :
      (summary : BlockSummary) (ps : List PoolId) (c c' : Chain h f)
      (insertions recorded : PoolId → List (Value × InsertionProof Hash))
      → insert_nullifiers h f summary ps c insertions ≡ (c', ok recorded)
      → (c'.utxos ≡ c.utxos) × (c'.utxo_index ≡ c.utxo_index)
  unfolding insert_nullifiers
  insert_nullifiers-rest summary [] c c' insertions recorded e = (ground arith, ground arith)
  insert_nullifiers-rest summary (p ∷ ps) c c' insertions recorded e =
      elim (Bool-cases (is_empty (summary.nullifiers_for p))) [
        | inl empty ↦ insert_nullifiers-rest summary ps c c' insertions recorded (ground arith)
        | inr touched ↦ elim (Option-cases (c.nullifiers p)) [
          | inl missing ↦ absurd (ground arith)
          | inr (t, held) ↦
              let (t', applied, each, rest) =
                touched_step summary p ps c c' insertions recorded t held touched e in
              insert_nullifiers-rest summary ps
                (record c { nullifiers = put_pool p (some t') c.nullifiers }) c'
                (put_pool p applied insertions) recorded rest
        ]
      ]

  -- what was recorded for a pool is what the loop over its values returned, and the loop's tree is
  -- the pool's
  abbrev pub Records :
      Chain h f
      → (PoolId → List (Value × InsertionProof Hash))
      → IndexedMerkleTree Hash
      → List Value
      → PoolId
      → Type 0
  Records c' recorded t values q =
      (t' : IndexedMerkleTree Hash) × (insert_each h f t values ≡ (t', ok (recorded q)))
      × (c'.nullifiers q ≡ some t')

  insert_nullifiers-one :
      (summary : BlockSummary) (ps : List PoolId) (c c' : Chain h f)
      (insertions recorded : PoolId → List (Value × InsertionProof Hash)) (q : PoolId)
      (t : IndexedMerkleTree Hash)
      → DistinctPools ps
      → OneOf q ps
      → insertions q ≡ []
      → c.nullifiers q ≡ some t
      → insert_nullifiers h f summary ps c insertions ≡ (c', ok recorded)
      → Records c' recorded t (summary.nullifiers_for q) q
  unfolding insert_nullifiers insert_each
  insert_nullifiers-one summary [] c c' insertions recorded q t distinct one none held e =
      absurd one
  insert_nullifiers-one summary (p ∷ ps) c c' insertions recorded q t distinct (inl same) none held
        e =
      let apart : Apart q ps = subst (λ x. Apart x ps) (sym same) distinct.0 in
      let held_p : c.nullifiers p ≡ some t = ap c.nullifiers (sym same) ∙ held in
      elim (Bool-cases (is_empty (summary.nullifiers_for p))) [
        | inl empty ↦
            let (kept, tree_same) =
              passed_by summary ps c c' insertions recorded q apart (ground arith) in
            let nothing : summary.nullifiers_for q ≡ [] =
              ap summary.nullifiers_for same ∙ ground arith in
            (t, rw nothing (ap (λ l. (t, ok l)) (sym (kept ∙ none))), tree_same ∙ held)
        | inr touched ↦
            let (t', applied, each, rest) =
              touched_step summary p ps c c' insertions recorded t held_p touched e in
            let (kept, tree_same) =
              passed_by summary ps (record c { nullifiers = put_pool p (some t') c.nullifiers }) c'
                (put_pool p applied insertions) recorded q apart rest in
            (
              t',
              ap (λ x. insert_each h f t (summary.nullifiers_for x)) same
                  ∙ each
                  ∙ ap (λ l. (t', ok l))
                      (sym (
                        kept
                        ∙ ap (put_pool p applied insertions) same
                        ∙ put_pool_here p applied insertions)),
              tree_same
                  ∙ ap (put_pool p (some t') c.nullifiers) same
                  ∙ put_pool_here p (some t') c.nullifiers,
            )
      ]
  insert_nullifiers-one summary (p ∷ ps) c c' insertions recorded q t distinct (inr later) none held
        e =
      let away = Apart-OneOf p q ps distinct.0 later in
      elim (Bool-cases (is_empty (summary.nullifiers_for p))) [
        | inl empty ↦
            insert_nullifiers-one summary ps c c' insertions recorded q t distinct.1 later none held
              (ground arith)
        | inr touched ↦ elim (Option-cases (c.nullifiers p)) [
          | inl missing ↦ absurd (ground arith)
          | inr (u, held_p) ↦
              let (t', applied, each, rest) =
                touched_step summary p ps c c' insertions recorded u held_p touched e in
              insert_nullifiers-one summary ps
                (record c { nullifiers = put_pool p (some t') c.nullifiers }) c'
                (put_pool p applied insertions) recorded q t distinct.1 later
                (put_pool_away p q applied insertions away ∙ none)
                (put_pool_away p q (some t') c.nullifiers away ∙ held) rest
        ]
      ]

  pub insert_nullifiers-Records :
      (summary : BlockSummary) (c c' : Chain h f)
      (recorded : PoolId → List (Value × InsertionProof Hash))
      (trees : PoolId → IndexedMerkleTree Hash)
      → ((p : PoolId) → c.nullifiers p ≡ some (trees p))
      → insert_nullifiers h f summary all_pools c (λ p. []) ≡ (c', ok recorded)
      → (p : PoolId) → Records c' recorded (trees p) (summary.nullifiers_for p) p
  insert_nullifiers-Records summary c c' recorded trees held e p =
      insert_nullifiers-one summary all_pools c c' (λ q. []) recorded p (trees p) distinct_pools
        (any_pool p) refl (held p) e
