-- ===== src/Chain/Staged.antt =====
-- crates/zutreexo-chain/src/block_apply.rs: what the checks of `apply_block` have shown when they pass.
use ztreexo.Prelude.{◌≡◌, ◌⊎◌, Bool, true, ◌||◌, List, [], ◌∷◌, map, ok, >>=-eq-ok, ap, ◌∙◌, arith}
use ztreexo.Pool.{PoolId, all_pools}
use ztreexo.Digest.ImtHash.{ImtHash}
use ztreexo.Imt.Tree.{IndexedMerkleTree}
use ztreexo.Chain.Types.{BlockSummary, OutPoint, has_outpoint}
use ztreexo.Chain.Accumulators.{Forests, ApplyOptions}
use ztreexo.Chain.Apply.{
  Chain, Resolved, nothing_resolved, surviving_outputs, check_values, check_nullifiers,
  check_contiguous, resolve_spends, stage_block,
}
use ztreexo.Chain.Commit.{HoldsTrees, HasRoom, Ready}
use ztreexo.Chain.Outpoints.{DistinctFrom}
use ztreexo.Chain.Resolving.{
  Resolvable, known_outputs, lasting_outputs, Resolves, resolve_spends-Resolves,
  surviving_outputs-lasting_outputs, spent_within,
}

module _ {Hash Forest Failure : Type 0} (h : ImtHash Hash) (f : Forests Hash Forest Failure) where
  pub check_nullifiers-Ready :
      (c : Chain h f) (summary : BlockSummary) (ps : List PoolId)
      (trees : PoolId → IndexedMerkleTree Hash)
      → HoldsTrees h f c.nullifiers trees
      → ((p : PoolId) → HasRoom h f summary p (trees p))
      → check_nullifiers h f c summary ps ≡ ok tt
      → Ready h f summary ps trees
  check_nullifiers-Ready c summary [] trees holds room e = tt
  check_nullifiers-Ready c summary (p ∷ ps) trees holds room e =
      let (passed, later) = split e in
      ((room p, passed), check_nullifiers-Ready c summary ps trees holds room later)
    where
      split :
          check_nullifiers h f c summary (p ∷ ps) ≡ ok tt
          → ((summary.nullifiers_for p ≡ [])
              ⊎ (check_values h f summary.height p (trees p) [] (summary.nullifiers_for p) ≡ ok tt))
            × (check_nullifiers h f c summary ps ≡ ok tt)
      split e = unfold check_nullifiers in ground (arith, (holds p).0)

  -- the checks have passed, and have resolved the spends
  pub record Staged (c : Chain h f) (summary : BlockSummary) (options : ApplyOptions) (r : Resolved)
      : Type 0 where
    pub nullifiers : check_nullifiers h f c summary all_pools ≡ ok tt
    pub distinct : DistinctFrom [] summary.transparent_spends
    pub contiguous : check_contiguous h f c summary options.enforce_contiguous ≡ ok tt
    pub resolvable :
        (o : OutPoint)
        → has_outpoint o summary.transparent_spends ≡ true
        → Resolvable options.allow_unknown_spends c.utxo_index summary.transparent_creates o
    pub spent : r.spent ≡ known_outputs c.utxo_index summary.transparent_spends
    pub created :
        surviving_outputs r.cancelled summary.transparent_creates
        ≡ lasting_outputs c.utxo_index summary.transparent_spends summary.transparent_creates

  resolved-Staged :
      (c : Chain h f) (summary : BlockSummary) (options : ApplyOptions) (r : Resolved)
      → check_contiguous h f c summary options.enforce_contiguous ≡ ok tt
      → check_nullifiers h f c summary all_pools ≡ ok tt
      → Resolves h f options.allow_unknown_spends c.utxo_index summary.transparent_creates []
          nothing_resolved summary.transparent_spends r
      → Staged c summary options r
  resolved-Staged c summary options r next passed w = record {
    contiguous = next;
    resolvable = w.resolvable;
    nullifiers = passed;
    distinct = w.distinct;
    spent = w.spent;
    created =
        surviving_outputs-lasting_outputs h f c.utxo_index summary.transparent_spends r.cancelled
          (map (λ o. o.0) summary.transparent_creates) summary.transparent_creates
          (λ o made.
            w.cancelled o made
            ∙ none_before (spent_within c.utxo_index summary.transparent_spends o) o)
          (λ o made. made);
  }
    where
      none_before : (b : Bool) (o : OutPoint) → (b || has_outpoint o []) ≡ b
      none_before b o = unfold has_outpoint in ground arith

  pub stage_block-Staged :
      (c : Chain h f) (summary : BlockSummary) (options : ApplyOptions) (r : Resolved)
      → stage_block h f c summary options ≡ ok r
      → Staged c summary options r
  unfolding stage_block
  stage_block-Staged c summary options r e =
      let (_, e1, k1) = >>=-eq-ok (check_contiguous h f c summary options.enforce_contiguous) _ e in
      let (r', e2, k2) =
        >>=-eq-ok
          (resolve_spends h f summary.height options.allow_unknown_spends c.utxo_index
            summary.transparent_creates [] nothing_resolved summary.transparent_spends)
          _ k1 in
      let (_, e3, k3) = >>=-eq-ok (check_nullifiers h f c summary all_pools) _ k2 in
      let same : r' ≡ r = ground arith in
      resolved-Staged c summary options r e1 e3 (
        resolve_spends-Resolves h f summary.height options.allow_unknown_spends c.utxo_index
          summary.transparent_creates [] nothing_resolved summary.transparent_spends r
          (e2 ∙ ap (λ (x : Resolved). ok x) same))
