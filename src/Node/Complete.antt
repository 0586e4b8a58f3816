-- ===== src/Node/Complete.antt =====
-- crates/zutreexo-csn/src/lib.rs: an honest bundle is accepted.
use ztreexo.Prelude.{
  ℕ, ◌≡◌, inl, inr, false, not, ◌&&◌, List, [], ◌∷◌, map, Option, some, ok, refl, sym, ap, ◌∙◌,
  arith, Bool-cases,
}
use ztreexo.Pool.{PoolId, sprout, sapling, orchard, ironwood, all_pools}
use ztreexo.Digest.ImtHash.{ImtHash}
use ztreexo.Imt.Types.{ImtState}
use ztreexo.Imt.Tree.{IndexedMerkleTree}
use ztreexo.Chain.Types.{OutPoint, BlockSummary, BlockProofBundle, is_empty}
use ztreexo.Chain.Accumulators.{Forests}
use ztreexo.Chain.Apply.{insert_each}
use ztreexo.Chain.Commit.{distinct_pools}
use ztreexo.Node.Accepted.{assigned, commit_bundle-ok}
use ztreexo.Node.Types.{Stumps, CompactState}
use ztreexo.Node.Apply.{
  surviving, match_spends, check_unused, check_height, check_inclusion, StagedBundle, stage_bundle,
  apply_bundle,
}
use ztreexo.Node.Pools.{Follows}
use ztreexo.Node.Staged.{Carries, Ends, staged_pools}

module _ {Hash Stump Proof Forest Failure : Type 0} (h : ImtHash Hash)
    (u : Stumps Hash Stump Proof Failure) (f : Forests Hash Forest Failure) where
  no_extra :
      (summary : BlockSummary) (bundle : BlockProofBundle Hash Proof)
      (trees last : PoolId → IndexedMerkleTree Hash) (p : PoolId)
      → Carries h u f summary bundle trees last p
      → (not (is_empty (bundle.insertions p)) && is_empty (summary.nullifiers_for p)) ≡ false
  no_extra summary bundle trees last p c = elim (Bool-cases (is_empty (summary.nullifiers_for p))) [
    | inr touched ↦ ground arith
    | inl empty ↦
        let nothing : summary.nullifiers_for p ≡ [] = ground arith in
        let none_applied : [] ≡ c.applied =
          unfold insert_each in cc (c.each, ap (insert_each h f (trees p)) nothing) in
        let none_carried : bundle.insertions p ≡ [] =
          c.carried ∙ ap (map (λ x. x.1)) (sym none_applied) in
        rw none_carried refl
  ]

  unused_pools :
      (summary : BlockSummary) (bundle : BlockProofBundle Hash Proof)
      (trees last : PoolId → IndexedMerkleTree Hash)
      → ((p : PoolId) → Carries h u f summary bundle trees last p)
      → (ps : List PoolId) → check_unused h u summary bundle ps ≡ ok tt
  unfolding check_unused
  unused_pools summary bundle trees last carries [] = refl
  unused_pools summary bundle trees last carries (p ∷ ps) =
      rw (check_unused, no_extra summary bundle trees last p (carries p))
        (unused_pools summary bundle trees last carries ps)

  every_pool :
      (depth : ℕ) (staged : PoolId → Option (ImtState Hash))
      (last : PoolId → IndexedMerkleTree Hash)
      → Ends h u f depth all_pools staged last
      → Follows h depth staged last
  every_pool depth staged last e sprout = e.0
  every_pool depth staged last e sapling = e.1.0
  every_pool depth staged last e orchard = e.1.1.0
  every_pool depth staged last e ironwood = e.1.1.1.0

  apply_bundle-staged :
      (s : CompactState Hash Stump) (summary : BlockSummary) (bundle : BlockProofBundle Hash Proof)
      (staged : StagedBundle Hash) (stump : Stump)
      → stage_bundle h u s summary bundle ≡ ok staged
      → u.modify s.utxos staged.additions staged.deletions bundle.utxo_proof ≡ ok stump
      → apply_bundle h u s summary bundle ≡ (assigned h u s summary.height staged stump, ok tt)
  unfolding apply_bundle
  apply_bundle-staged s summary bundle staged stump passes modified =
      rw (apply_bundle, passes)
        (commit_bundle-ok h u s summary.height bundle.utxo_proof staged stump modified)

  -- Where a compact node follows valid trees, and a bundle carries for every pool the proofs that the
  -- trees returned for the block's values, the bundle is accepted and the node follows the last trees.
  -- The conditions on the heights and on the transparent side are the checks of `apply_bundle` on them,
  -- with no leaf left unclaimed.
  pub apply_bundle_complete :
      (s : CompactState Hash Stump) (summary : BlockSummary) (bundle : BlockProofBundle Hash Proof)
      (trees last : PoolId → IndexedMerkleTree Hash) (cancelled : List OutPoint) (stump : Stump)
      → Follows h s.depth s.nullifiers trees
      → ((p : PoolId) → Carries h u f summary bundle trees last p)
      → check_height h u s summary.height bundle.height ≡ ok tt
      → match_spends h u summary.height summary.transparent_creates [] [] bundle.spent
          summary.transparent_spends
        ≡ ok (cancelled, [])
      → check_inclusion h u s summary.height bundle.utxo_proof (map u.leaf_hash bundle.spent)
        ≡ ok tt
      → u.modify s.utxos
          (map u.leaf_hash (surviving cancelled summary.transparent_creates))
          (map u.leaf_hash bundle.spent)
          bundle.utxo_proof
        ≡ ok stump
      → (s' : CompactState Hash Stump) × (apply_bundle h u s summary bundle ≡ (s', ok tt))
        × Follows h s'.depth s'.nullifiers last
        × (s'.tip ≡ some summary.height)
  apply_bundle_complete s summary bundle trees last cancelled stump follows carries heights matched
        included modified =
      let (staged, runs, ends, _) =
        staged_pools h u f summary bundle s.depth s.nullifiers trees last follows carries all_pools
          s.nullifiers distinct_pools (refl, (refl, (refl, (refl, tt)))) in
      let ready : StagedBundle Hash = record {
        additions = map u.leaf_hash (surviving cancelled summary.transparent_creates);
        deletions = map u.leaf_hash bundle.spent;
        nullifiers = staged;
      } in
      let passes : stage_bundle h u s summary bundle ≡ ok ready =
        unfold stage_bundle in
        rw
          (
            heights,
            matched,
            included,
            runs,
            unused_pools summary bundle trees last carries all_pools,
          )
          refl in
      (
        assigned h u s summary.height ready stump,
        apply_bundle-staged s summary bundle ready stump passes modified,
        every_pool s.depth staged last ends,
        refl,
      )
