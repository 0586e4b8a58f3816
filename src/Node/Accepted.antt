-- ===== src/Node/Accepted.antt =====
-- crates/zutreexo-csn/src/lib.rs: what `apply_bundle` has checked when it accepts a bundle.
use ztreexo.Prelude.{
  ℕ, ◌≡◌, ◌⊎◌, not, List, [], ◌∷◌, map, some, Result, ok, err, >>=-eq-ok, refuse_if, refl, sym, ap,
  ap₂, ◌∙◌, arith, Result-cases, inl, inr,
}
use ztreexo.Pool.{all_pools}
use ztreexo.Digest.ImtHash.{ImtHash}
use ztreexo.Chain.Types.{is_empty, OutPoint, UtxoLeaf, BlockSummary, BlockProofBundle}
use ztreexo.Node.Types.{Stumps, CompactState, CsnError, utreexo}
use ztreexo.Node.Apply.{
  lift_err, surviving, match_spends, stage_pools, check_unused, check_height, check_inclusion,
  StagedBundle, apply_utxos, commit_bundle, stage_bundle, apply_bundle,
}

module _ {Hash Stump Proof Failure : Type 0} (h : ImtHash Hash)
    (u : Stumps Hash Stump Proof Failure) where
  pub record Accepted (s : CompactState Hash Stump) (summary : BlockSummary)
      (bundle : BlockProofBundle Hash Proof) (s' : CompactState Hash Stump) : Type 0 where
    pub heights : check_height h u s summary.height bundle.height ≡ ok tt
    pub cancelled : List OutPoint
    pub matched :
        match_spends h u summary.height summary.transparent_creates [] [] bundle.spent
          summary.transparent_spends
        ≡ ok (cancelled, [])
    pub included :
        check_inclusion h u s summary.height bundle.utxo_proof (map u.leaf_hash bundle.spent)
        ≡ ok tt
    pub staged : stage_pools h u summary bundle s.depth all_pools s.nullifiers ≡ ok s'.nullifiers
    pub unused : check_unused h u summary bundle all_pools ≡ ok tt
    pub modified :
        u.modify s.utxos
          (map u.leaf_hash (surviving cancelled summary.transparent_creates))
          (map u.leaf_hash bundle.spent)
          bundle.utxo_proof
        ≡ ok s'.utxos
    pub depth_same : s'.depth ≡ s.depth
    pub tip_next : s'.tip ≡ some summary.height

  lift_err-eq_ok :
      {E F A : Type 0} (f : E → F) (r : Result E A) (a : A) → lift_err f r ≡ ok a → r ≡ ok a
  lift_err-eq_ok f (ok b) a e = ground arith
  lift_err-eq_ok f (err x) a e = absurd (ground arith)

  no_more :
      (leaves : List UtxoLeaf) (e : CsnError Hash Failure)
      → refuse_if (not (is_empty leaves)) e ≡ ok tt
      → leaves ≡ []
  no_more [] e h = refl
  no_more (l ∷ ls) e h = absurd (ground arith)

  -- what the checks of an accepted bundle have shown
  record Checked (s : CompactState Hash Stump) (summary : BlockSummary)
      (bundle : BlockProofBundle Hash Proof) (staged : StagedBundle Hash) : Type 0 where
    heights : check_height h u s summary.height bundle.height ≡ ok tt
    cancelled : List OutPoint
    matched :
        match_spends h u summary.height summary.transparent_creates [] [] bundle.spent
          summary.transparent_spends
        ≡ ok (cancelled, [])
    included :
        check_inclusion h u s summary.height bundle.utxo_proof (map u.leaf_hash bundle.spent)
        ≡ ok tt
    nullifiers :
        stage_pools h u summary bundle s.depth all_pools s.nullifiers ≡ ok staged.nullifiers
    unused : check_unused h u summary bundle all_pools ≡ ok tt
    additions : map u.leaf_hash (surviving cancelled summary.transparent_creates) ≡ staged.additions
    deletions : map u.leaf_hash bundle.spent ≡ staged.deletions

  stage_bundle-inversion :
      (s : CompactState Hash Stump) (summary : BlockSummary) (bundle : BlockProofBundle Hash Proof)
      (staged : StagedBundle Hash)
      → stage_bundle h u s summary bundle ≡ ok staged
      → Checked s summary bundle staged
  unfolding stage_bundle
  stage_bundle-inversion s summary bundle staged e =
      let (_, e1, k1) = >>=-eq-ok (check_height h u s summary.height bundle.height) _ e in
      let ((cancelled, unclaimed), e2, k2) =
        >>=-eq-ok
          (match_spends h u summary.height summary.transparent_creates [] [] bundle.spent
            summary.transparent_spends)
          _ k1 in
      let (_, e3, k3) = >>=-eq-ok (refuse_if (not (is_empty unclaimed)) _) _ k2 in
      let (_, e4, k4) =
        >>=-eq-ok
          (check_inclusion h u s summary.height bundle.utxo_proof (map u.leaf_hash bundle.spent)) _
          k3 in
      let (nullifiers, e5, k5) =
        >>=-eq-ok (stage_pools h u summary bundle s.depth all_pools s.nullifiers) _ k4 in
      let (_, e6, k6) = >>=-eq-ok (check_unused h u summary bundle all_pools) _ k5 in
      let end : record {
        additions = map u.leaf_hash (surviving cancelled summary.transparent_creates);
        deletions = map u.leaf_hash bundle.spent;
        nullifiers = nullifiers;
      }
          ≡ staged =
        ground arith in
      record {
        heights = e1;
        cancelled = cancelled;
        matched = e2 ∙ ap (λ l. ok (cancelled, l)) (no_more unclaimed _ e3);
        included = e4;
        nullifiers = e5 ∙ ap (λ (z : StagedBundle Hash). ok z.nullifiers) end;
        unused = e6;
        additions = ap (λ (z : StagedBundle Hash). z.additions) end;
        deletions = ap (λ (z : StagedBundle Hash). z.deletions) end;
      }

  -- the state after the assignments
  abbrev pub assigned :
      CompactState Hash Stump → ℕ → StagedBundle Hash → Stump → CompactState Hash Stump
  assigned s height staged utxos = record {
    depth = s.depth;
    utxos = utxos;
    nullifiers = staged.nullifiers;
    tip = some height;
  }

  -- what `commit_bundle` does after `UtxoRoots::apply`
  abbrev assign_rest :
      ℕ
      → StagedBundle Hash
      → CompactState Hash Stump × Result (CsnError Hash Failure) (Unit {0})
      → CompactState Hash Stump × Result (CsnError Hash Failure) (Unit {0})
  assign_rest height staged (s, err e) = (s, err e)
  assign_rest height staged (s, ok _) =
      (record s { nullifiers = staged.nullifiers; tip = some height }, ok tt)

  commit_bundle-apply_utxos :
      (s : CompactState Hash Stump) (height : ℕ) (proof : Proof) (staged : StagedBundle Hash)
      → commit_bundle h u s height proof staged
        ≡ assign_rest height staged (apply_utxos h u s staged.additions staged.deletions proof)
  unfolding commit_bundle
  commit_bundle-apply_utxos s height proof staged =
      elim (Result-cases (apply_utxos h u s staged.additions staged.deletions proof).1) [
        | inl (_, went) ↦ ground arith
        | inr (_, failed) ↦ ground arith
      ]

  pub commit_bundle-ok :
      (s : CompactState Hash Stump) (height : ℕ) (proof : Proof) (staged : StagedBundle Hash)
      (utxos : Stump)
      → u.modify s.utxos staged.additions staged.deletions proof ≡ ok utxos
      → commit_bundle h u s height proof staged ≡ (assigned s height staged utxos, ok tt)
  unfolding apply_utxos
  commit_bundle-ok s height proof staged utxos passed =
      let applied : apply_utxos h u s staged.additions staged.deletions proof
          ≡ (record s { utxos = utxos }, ok tt) =
        rw (apply_utxos, passed) refl in
      commit_bundle-apply_utxos s height proof staged ∙ ap (assign_rest height staged) applied

  -- The assignments are made all, or none: `UtxoRoots::apply` assigns only where rustreexo returns.
  pub commit_bundle-cases :
      (s : CompactState Hash Stump) (height : ℕ) (proof : Proof) (staged : StagedBundle Hash)
      → ((utxos : Stump) × (u.modify s.utxos staged.additions staged.deletions proof ≡ ok utxos)
          × (commit_bundle h u s height proof staged ≡ (assigned s height staged utxos, ok tt)))
        ⊎ ((x : Failure) × (commit_bundle h u s height proof staged ≡ (s, err (utreexo x))))
  unfolding apply_utxos
  commit_bundle-cases s height proof staged =
      elim (Result-cases (u.modify s.utxos staged.additions staged.deletions proof)) [
        | inl (utxos, passed) ↦
            inl (utxos, passed, commit_bundle-ok s height proof staged utxos passed)
        | inr (x, failed) ↦
            let applied : apply_utxos h u s staged.additions staged.deletions proof
                ≡ (s, err (utreexo x)) =
              rw (apply_utxos, failed) refl in
            inr (
              x,
              commit_bundle-apply_utxos s height proof staged
                  ∙ ap (assign_rest height staged) applied,
            )
      ]

  committed :
      (s s' : CompactState Hash Stump) (summary : BlockSummary)
      (bundle : BlockProofBundle Hash Proof) (staged : StagedBundle Hash) (utxos : Stump)
      → Checked s summary bundle staged
      → u.modify s.utxos staged.additions staged.deletions bundle.utxo_proof ≡ ok utxos
      → assigned s summary.height staged utxos ≡ s'
      → Accepted s summary bundle s'
  committed s s' summary bundle staged utxos k passed end = record {
    heights = k.heights;
    cancelled = k.cancelled;
    matched = k.matched;
    included = k.included;
    staged = k.nullifiers ∙ ap (λ (z : CompactState Hash Stump). ok z.nullifiers) end;
    unused = k.unused;
    modified =
        ap₂ (λ (a d : List Hash). u.modify s.utxos a d bundle.utxo_proof) k.additions k.deletions
        ∙ passed
        ∙ ap (λ (z : CompactState Hash Stump). ok z.utxos) end;
    depth_same = ap (λ (z : CompactState Hash Stump). z.depth) (sym end);
    tip_next = ap (λ (z : CompactState Hash Stump). z.tip) (sym end);
  }

  pub apply_bundle-inversion :
      (s s' : CompactState Hash Stump) (summary : BlockSummary)
      (bundle : BlockProofBundle Hash Proof)
      → apply_bundle h u s summary bundle ≡ (s', ok tt)
      → Accepted s summary bundle s'
  unfolding apply_bundle
  apply_bundle-inversion s s' summary bundle e =
      elim (Result-cases (stage_bundle h u s summary bundle)) [
        | inr (x, failed) ↦ absurd (ground arith)
        | inl (staged, passed) ↦
            elim (commit_bundle-cases s summary.height bundle.utxo_proof staged) [
              | inr (x, failed) ↦ absurd (ground arith)
              | inl (utxos, modified, done) ↦
                  committed s s' summary bundle staged utxos
                    (stage_bundle-inversion s summary bundle staged passed) modified (ground arith)
            ]
      ]

  -- A refused bundle leaves the node's state as it was, whatever the error: also the error of
  -- `UtxoRoots::apply`, which comes after the mark "mutation".
  pub apply_bundle_refused :
      (s s' : CompactState Hash Stump) (summary : BlockSummary)
      (bundle : BlockProofBundle Hash Proof) (e : CsnError Hash Failure)
      → apply_bundle h u s summary bundle ≡ (s', err e)
      → s' ≡ s
  unfolding apply_bundle
  apply_bundle_refused s s' summary bundle e refused =
      elim (Result-cases (stage_bundle h u s summary bundle)) [
        | inr (x, failed) ↦ ground arith
        | inl (staged, passed) ↦
            elim (commit_bundle-cases s summary.height bundle.utxo_proof staged) [
              | inl (utxos, modified, done) ↦ absurd (ground arith)
              | inr (x, failed) ↦ ground arith
            ]
      ]
