-- ===== src/Node/Spends.antt =====
-- crates/zutreexo-csn/src/lib.rs: what the walk over a block's spends has checked.
use ztreexo.Prelude.{
  ℕ, ◌≡◌, ◌⊎◌, true, false, ◌||◌, List, [], ◌∷◌, map, ok, refl, sym, ap, ◌∙◌, arith, subst,
  Bool-cases, inl, inr,
}
use ztreexo.Digest.ImtHash.{ImtHash}
use ztreexo.Chain.Types.{
  OutPoint, outpoint_beq, UtxoLeaf, outpoint_of, has_outpoint, BlockSummary, BlockProofBundle,
}
use ztreexo.Chain.Outpoints.{
  outpoint_beq-eq, outpoint_beq_refl, DistinctFrom, created_outpoints, Within, has_outpoint-cons,
  Within-cons, DistinctFrom-weaken, DistinctFrom-apart,
}
use ztreexo.Node.Types.{Stumps, CompactState}
use ztreexo.Node.Apply.{match_spends, apply_bundle, surviving, check_inclusion}
use ztreexo.Node.Accepted.{apply_bundle-inversion}

module _ {Hash Stump Proof Failure : Type 0} (h : ImtHash Hash)
    (u : Stumps Hash Stump Proof Failure) where
  -- what a walk that ends with no leaf left has shown
  record Walked (created : List (OutPoint × UtxoLeaf)) (seen before : List OutPoint)
      (leaves : List UtxoLeaf) (spends after : List OutPoint) : Type 0 where
    distinct : DistinctFrom seen spends
    same_set :
        (o : OutPoint)
        → (has_outpoint o spends || has_outpoint o before)
          ≡ (has_outpoint o (map outpoint_of leaves) || has_outpoint o after)
    within : Within before (created_outpoints created) → Within after (created_outpoints created)
    distinct_leaves : DistinctFrom seen (map outpoint_of leaves)
    apart :
        Within before seen
        → (o : OutPoint) → has_outpoint o (map outpoint_of leaves) ≡ true
        → has_outpoint o after ≡ false

  Within-seen :
      (o : OutPoint) (before seen : List OutPoint) → Within before seen → Within before (o ∷ seen)
  Within-seen o before seen past p old = ground (arith, has_outpoint-cons p o seen, past p old)

  -- an outpoint that a leaf has claimed is not cancelled afterwards
  not_cancelled :
      (created : List (OutPoint × UtxoLeaf)) (seen before : List OutPoint) (leaf : UtxoLeaf)
      (leaves : List UtxoLeaf) (o : OutPoint) (spends after : List OutPoint)
      → has_outpoint o seen ≡ false
      → Within before seen
      → Walked created (o ∷ seen) before leaves spends after
      → has_outpoint o after ≡ false
  not_cancelled created seen before leaf leaves o spends after fresh past w =
      let here : has_outpoint o (o ∷ seen) ≡ true =
        has_outpoint-cons o o seen ∙ rw (outpoint_beq_refl o) refl in
      let later = DistinctFrom-apart (o ∷ seen) spends o w.distinct here in
      elim (Bool-cases (has_outpoint o before)) [
        | inl old ↦ absurd (ground (arith, past o old))
        | inr new ↦ ground (arith, w.same_set o)
      ]

  walk_claim :
      (created : List (OutPoint × UtxoLeaf)) (seen before : List OutPoint) (leaf : UtxoLeaf)
      (leaves : List UtxoLeaf) (o : OutPoint) (spends after : List OutPoint)
      → has_outpoint o seen ≡ false
      → outpoint_beq (outpoint_of leaf) o ≡ true
      → Walked created (o ∷ seen) before leaves spends after
      → Walked created seen before (leaf ∷ leaves) (o ∷ spends) after
  walk_claim created seen before leaf leaves o spends after fresh claimed w = record {
    distinct = (fresh, w.distinct);
    same_set = λ p. ground (
      arith,
      has_outpoint-cons p o spends,
      has_outpoint-cons p (outpoint_of leaf) (map outpoint_of leaves),
      ap (outpoint_beq p) (outpoint_beq-eq (outpoint_of leaf) o claimed),
      w.same_set p,
    );
    within = w.within;
    distinct_leaves =
        let same = outpoint_beq-eq (outpoint_of leaf) o claimed in
        (
          ap (λ x. has_outpoint x seen) same ∙ fresh,
          subst (λ x. DistinctFrom (x ∷ seen) (map outpoint_of leaves)) (sym same)
              w.distinct_leaves,
        );
    apart = λ past p e. elim (Bool-cases (outpoint_beq p o)) [
      | inl this ↦
          let same = outpoint_beq-eq p o this in
          ap (λ x. has_outpoint x after) same
          ∙ not_cancelled created seen before leaf leaves o spends after fresh past w
      | inr other ↦ w.apart (Within-seen o before seen past) p (
          ground (
            arith,
            other,
            has_outpoint-cons p (outpoint_of leaf) (map outpoint_of leaves),
            ap (outpoint_beq p) (outpoint_beq-eq (outpoint_of leaf) o claimed),
          ))
    ];
  }

  walk_cancel :
      (created : List (OutPoint × UtxoLeaf)) (seen before : List OutPoint) (leaves : List UtxoLeaf)
      (o : OutPoint) (spends after : List OutPoint)
      → has_outpoint o seen ≡ false
      → has_outpoint o (created_outpoints created) ≡ true
      → Walked created (o ∷ seen) (o ∷ before) leaves spends after
      → Walked created seen before leaves (o ∷ spends) after
  walk_cancel created seen before leaves o spends after fresh made w = record {
    distinct = (fresh, w.distinct);
    same_set = λ p.
        ground (arith, has_outpoint-cons p o spends, has_outpoint-cons p o before, w.same_set p);
    within = λ all. w.within (Within-cons o before (created_outpoints created) made all);
    distinct_leaves =
        DistinctFrom-weaken seen (o ∷ seen) (map outpoint_of leaves)
          (λ p old. ground (arith, has_outpoint-cons p o seen)) w.distinct_leaves;
    apart = λ past p e.
        w.apart
          (λ q old.
            ground (arith, has_outpoint-cons q o before, has_outpoint-cons q o seen, past q))
          p e;
  }

  no_leaf : (o : OutPoint) → ¬ (has_outpoint o [] ≡ true)
  no_leaf o none = unfold has_outpoint in ground arith

  walk :
      (height : ℕ) (created : List (OutPoint × UtxoLeaf)) (seen before : List OutPoint)
      (leaves : List UtxoLeaf) (spends after : List OutPoint)
      → match_spends h u height created seen before leaves spends ≡ ok (after, [])
      → Walked created seen before leaves spends after
  unfolding match_spends
  walk height created seen before leaves [] after e =
      let same : before ≡ after = ground arith in
      let none : leaves ≡ [] = ground arith in
      record {
        distinct = tt;
        same_set = λ p.
            unfold has_outpoint in
            ap (has_outpoint p) same
            ∙ ap (λ ls. has_outpoint p (map outpoint_of ls) || has_outpoint p after) (sym none);
        within = λ all. subst (λ l. Within l (created_outpoints created)) same all;
        distinct_leaves = subst (λ ls. DistinctFrom seen (map outpoint_of ls)) (sym none) tt;
        apart = λ past o carried.
            absurd
              (no_leaf o (ap (λ ls. has_outpoint o (map outpoint_of ls)) (sym none) ∙ carried));
      }
  walk height created seen before [] (o ∷ spends) after e =
      let rest = match_spends h u height created (o ∷ seen) (o ∷ before) [] spends in
      let fresh : has_outpoint o seen ≡ false = ground arith in
      let made : has_outpoint o (created_outpoints created) ≡ true = ground arith in
      walk_cancel created seen before [] o spends after fresh made
        (walk height created (o ∷ seen) (o ∷ before) [] spends after (ground arith))
  walk height created seen before (leaf ∷ leaves) (o ∷ spends) after e =
      let fresh : has_outpoint o seen ≡ false = ground arith in
      elim (Bool-cases (outpoint_beq (outpoint_of leaf) o)) [
        | inl claimed ↦
            walk_claim created seen before leaf leaves o spends after fresh claimed
              (walk height created (o ∷ seen) before leaves spends after (ground arith))
        | inr other ↦
            let made : has_outpoint o (created_outpoints created) ≡ true = ground arith in
            walk_cancel created seen before (leaf ∷ leaves) o spends after fresh made (
              walk height created (o ∷ seen) (o ∷ before) (leaf ∷ leaves) spends after
                (ground arith))
      ]

  -- An accepted bundle accounts for each of the block's spends exactly once. No outpoint is spent
  -- twice, and no two carried leaves are for one outpoint. The spends are the outputs whose leaves the
  -- bundle carries and the cancelled ones, and no outpoint is both. The block itself creates the
  -- cancelled ones; the carried leaves pass the inclusion proof, unless there are none; and the transparent
  -- roots are those after deleting the carried leaves and adding the created outputs that are not
  -- cancelled.
  pub apply_bundle_spends :
      (s s' : CompactState Hash Stump) (summary : BlockSummary)
      (bundle : BlockProofBundle Hash Proof)
      → apply_bundle h u s summary bundle ≡ (s', ok tt)
      → (cancelled : List OutPoint) × DistinctFrom [] summary.transparent_spends
        × ((o : OutPoint)
            → has_outpoint o summary.transparent_spends
              ≡ (has_outpoint o (map outpoint_of bundle.spent) || has_outpoint o cancelled))
        × ((o : OutPoint)
            → has_outpoint o (map outpoint_of bundle.spent) ≡ true
            → has_outpoint o cancelled ≡ false)
        × DistinctFrom [] (map outpoint_of bundle.spent)
        × ((o : OutPoint)
            → has_outpoint o cancelled ≡ true
            → has_outpoint o (created_outpoints summary.transparent_creates) ≡ true)
        × ((bundle.spent ≡ [])
            ⊎ (u.verify s.utxos bundle.utxo_proof (map u.leaf_hash bundle.spent) ≡ ok true))
        × (u.modify s.utxos
              (map u.leaf_hash (surviving cancelled summary.transparent_creates))
              (map u.leaf_hash bundle.spent)
              bundle.utxo_proof
            ≡ ok s'.utxos)
  apply_bundle_spends s s' summary bundle e =
      let a = apply_bundle-inversion h u s s' summary bundle e in
      let w =
        walk summary.height summary.transparent_creates [] [] bundle.spent
          summary.transparent_spends a.cancelled a.matched in
      (
        a.cancelled,
        w.distinct,
        λ o. unspent_before summary.transparent_spends o ∙ w.same_set o,
        w.apart (λ o none. absurd (no_leaf o none)),
        w.distinct_leaves,
        w.within (λ o none. absurd (no_leaf o none)),
        checked s summary.height bundle.utxo_proof bundle.spent a.included,
        a.modified,
      )
    where
      unspent_before :
          (spends : List OutPoint) (o : OutPoint)
          → has_outpoint o spends ≡ (has_outpoint o spends || has_outpoint o [])
      unspent_before spends o = unfold has_outpoint in ground arith

      checked :
          (s : CompactState Hash Stump) (height : ℕ) (proof : Proof) (spent : List UtxoLeaf)
          → check_inclusion h u s height proof (map u.leaf_hash spent) ≡ ok tt
          → (spent ≡ []) ⊎ (u.verify s.utxos proof (map u.leaf_hash spent) ≡ ok true)
      checked s height proof [] included = inl refl
      checked s height proof (l ∷ ls) included = inr (unfold check_inclusion in ground arith)
