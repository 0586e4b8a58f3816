-- ===== src/Chain/Atomic.antt =====
-- crates/zutreexo-chain/src/block_apply.rs: `apply_block` refuses a block without a change, or applies
-- all of it, unless rustreexo refuses a change of the forest.
use ztreexo.Prelude.{
  ◌≡◌, ◌⊎◌, inl, inr, ◌&&◌, List, [], none, some, ok, err, refl, sym, ap, ap₂, of_some_eq, ◌∙◌,
  arith, subst, if◌then◌else◌, Bool-cases, Result-cases,
}
use ztreexo.Pool.{PoolId, all_pools}
use ztreexo.Digest.ImtHash.{ImtHash}
use ztreexo.Imt.Types.{Value, InsertionProof}
use ztreexo.Imt.Tree.{IndexedMerkleTree}
use ztreexo.Imt.Histories.{AllValues}
use ztreexo.Chain.Types.{BlockSummary, is_empty, has_outpoint}
use ztreexo.Chain.Accumulators.{Forests, ApplyOptions, ApplyOutcome, ApplyError, utreexo, utxo}
use ztreexo.Chain.Apply.{
  Chain, Resolved, surviving_outputs, insert_utxos, remove_utxos, stage_block, modify_forest,
  commit_block, apply_block,
}
use ztreexo.Chain.Commit.{
  distinct_pools, HoldsTrees, HasRoom, Ready, Inserted, insert_nullifiers-Inserted,
}
use ztreexo.Chain.Outpoints.{created_outpoints}
use ztreexo.Chain.Lookups.{latest, utxo-remove_utxos, utxo-insert_utxos}
use ztreexo.Chain.Delta.{insert_nullifiers-Records, insert_nullifiers-rest}
use ztreexo.Chain.Acceptable.{Acceptable, stage_block-Acceptable, Acceptable-stage_block}
use ztreexo.Chain.Staged.{Staged, stage_block-Staged, check_nullifiers-Ready}
use ztreexo.Chain.Outcome.{ForestChange, hashes, Applied, Outcome}

module _ {Hash Forest Failure : Type 0} (h : ImtHash Hash) (f : Forests Hash Forest Failure) where
  modify_forest-cases :
      (c : Chain h f) (additions deletions : List Hash)
      → ((forest' : Forest) × (modify_forest h f c additions deletions
            ≡ (record c { utxos = forest' }, ok tt))
          × ForestChange h f c.utxos additions deletions forest')
        ⊎ ((x : Failure) × (forest' : Forest) × (modify_forest h f c additions deletions
              ≡ (record c { utxos = forest' }, err (utreexo x)))
            × ((f.modify c.utxos additions deletions).1 ≡ err x))
  unfolding modify_forest
  modify_forest-cases c additions deletions =
      elim (Bool-cases (is_empty additions && is_empty deletions)) [
        | inl nothing ↦
            let no_more : additions ≡ [] = ground arith in
            let no_less : deletions ≡ [] = ground arith in
            inl (c.utxos, ground arith, inl (no_more, no_less, refl))
        | inr some_change ↦ elim (Result-cases (f.modify c.utxos additions deletions).1) [
          | inl (_, went) ↦
              inl ((f.modify c.utxos additions deletions).0, ground arith, inr (ground arith))
          | inr (x, failed) ↦
              inr (x, (f.modify c.utxos additions deletions).0, ground arith, failed)
        ]
      ]

  -- the accumulators between the steps of the mutation
  abbrev after_spends : Chain h f → Resolved → Forest → Chain h f
  after_spends c r mid = record c { utxos = mid; utxo_index = remove_utxos r.spent c.utxo_index }

  abbrev after_creates : Chain h f → BlockSummary → Resolved → Forest → Chain h f
  after_creates c summary r last = record c {
    utxos = last;
    utxo_index =
        insert_utxos (surviving_outputs r.cancelled summary.transparent_creates)
          (remove_utxos r.spent c.utxo_index);
  }

  abbrev outcome_of :
      Chain h f
      → BlockSummary
      → Resolved
      → (PoolId → List (Value × InsertionProof Hash))
      → ApplyOutcome Hash
  outcome_of c summary r insertions = record {
    delta = record {
      height = summary.height;
      spent = r.spent;
      created = surviving_outputs r.cancelled summary.transparent_creates;
      insertions = insertions;
      commitments = summary.commitments_for;
    };
    unknown_spends = r.unknown_spends;
  }

  apply_block-staged :
      (c : Chain h f) (summary : BlockSummary) (options : ApplyOptions) (r : Resolved)
      → stage_block h f c summary options ≡ ok r
      → apply_block h f c summary options ≡ commit_block h f c summary r
  unfolding apply_block
  apply_block-staged c summary options r staged = rw (apply_block, staged) refl

  Applied-commit :
      (c : Chain h f) (summary : BlockSummary) (options : ApplyOptions) (r : Resolved)
      (trees : PoolId → IndexedMerkleTree Hash) (mid last : Forest)
      → Staged h f c summary options r
      → ForestChange h f c.utxos [] (hashes h f r.spent) mid
      → ForestChange h f mid
          (hashes h f (surviving_outputs r.cancelled summary.transparent_creates))
          []
          last
      → (i : Inserted h f (after_creates c summary r last) summary all_pools trees (λ p. []))
      → ((p : PoolId) → c.nullifiers p ≡ some (trees p))
      → Applied h f c summary trees
          (record i.c' { tip = some summary.height })
          (outcome_of c summary r i.recorded)
  Applied-commit c summary options r trees mid last k deleted added i held =
      let (same_utxos, same_index) =
        insert_nullifiers-rest h f summary all_pools _ i.c' _ i.recorded i.runs in
      record {
        distinct = k.distinct;
        mid = mid;
        deleted = subst (λ l. ForestChange h f c.utxos [] (hashes h f l) mid) k.spent deleted;
        added =
            subst (λ l. ForestChange h f mid (hashes h f l) [] i.c'.utxos) k.created
              (subst
                (λ x.
                  ForestChange h f mid
                    (hashes h f (surviving_outputs r.cancelled summary.transparent_creates)) [] x)
                (sym same_utxos) added);
        index = λ o.
            ap (utxo o) same_index
            ∙ utxo-insert_utxos o (surviving_outputs r.cancelled summary.transparent_creates)
                (remove_utxos r.spent c.utxo_index)
            ∙ ap₂ (λ l x. latest o l x) k.created
                (utxo-remove_utxos o r.spent c.utxo_index
                  ∙ ap
                      (λ l.
                        if has_outpoint o (created_outpoints l) then none else utxo o c.utxo_index)
                      k.spent);
        trees' = i.trees';
        inserted = i.inserted;
        holds = i.holds;
        proofs = λ p.
            let (t', each, stored) =
              insert_nullifiers-Records h f summary (after_creates c summary r last) i.c' i.recorded
                trees held i.runs p in
            each ∙ ap (λ t. (t, ok (i.recorded p))) (of_some_eq (sym stored ∙ (i.holds p).0));
        tip_next = refl;
        height = refl;
        spent = k.spent;
        created = k.created;
        commitments = refl;
      }

  commit_block-Outcome :
      (c : Chain h f) (summary : BlockSummary) (options : ApplyOptions) (r : Resolved)
      (trees : PoolId → IndexedMerkleTree Hash)
      → Staged h f c summary options r
      → HoldsTrees h f c.nullifiers trees
      → ((p : PoolId) → AllValues (summary.nullifiers_for p))
      → Ready h f summary all_pools trees
      → Outcome h f c summary trees (commit_block h f c summary r)
  commit_block-Outcome c summary options r trees k holds in_type ready =
      let created = surviving_outputs r.cancelled summary.transparent_creates in
      elim (modify_forest-cases c [] (hashes h f r.spent)) [
        | inr (x, forest, runs, failed) ↦ inl (
          x,
          record c { utxos = forest },
          unfold commit_block in rw runs refl,
          inl (subst (λ l. (f.modify c.utxos [] (hashes h f l)).1 ≡ err x) k.spent failed),
          refl,
          refl,
        )
        | inl (mid, runs, deleted) ↦
            elim (modify_forest-cases (after_spends c r mid) (hashes h f created) []) [
              | inr (x, forest, runs2, failed) ↦ inl (
                x,
                record (after_spends c r mid) { utxos = forest },
                unfold commit_block in rw (runs, runs2) refl,
                inr (
                  mid,
                  subst (λ l. ForestChange h f c.utxos [] (hashes h f l) mid) k.spent deleted,
                  subst (λ l. (f.modify mid (hashes h f l) []).1 ≡ err x) k.created failed,
                ),
                refl,
                refl,
              )
              | inl (last, runs2, added) ↦
                  let i =
                    insert_nullifiers-Inserted h f (after_creates c summary r last) summary
                      all_pools trees (λ p. []) distinct_pools holds in_type ready in
                  inr (
                    record i.c' { tip = some summary.height },
                    outcome_of c summary r i.recorded,
                    unfold commit_block in rw (runs, runs2, i.runs) refl,
                    Applied-commit c summary options r trees mid last k deleted added i
                        (λ p. (holds p).0),
                  )
            ]
      ]

  -- Where every pool has a valid tree with room for the block's nullifiers, `apply_block` has one of
  -- three outcomes. A block that is out of order where order is asked for, that spends an output
  -- twice, or one that neither the index nor the block itself has where unknown spends are not allowed,
  -- or that repeats a nullifier of a tree or of its own, is refused, and the accumulators are as they
  -- were. Of every other block, either rustreexo refuses to delete the leaves of the spent outputs of
  -- the index, or then to insert the leaves of the created outputs that the block does not spend
  -- itself: its error is returned, and the trees and the tip are as they were. Or the whole block is
  -- applied: the forest has had these two changes; every outpoint has in the index the last output that
  -- the block created there and did not spend itself, or else none if the block spent it, or else what
  -- it had; each pool's values are inserted in order, the trees are valid, the delta has the proofs,
  -- the spent and the created outputs, the commitments and the height; and the tip is the block's
  -- height.
  pub apply_block_atomic :
      (c : Chain h f) (summary : BlockSummary) (options : ApplyOptions)
      (trees : PoolId → IndexedMerkleTree Hash)
      → HoldsTrees h f c.nullifiers trees
      → ((p : PoolId) → AllValues (summary.nullifiers_for p))
      → ((p : PoolId) → HasRoom h f summary p (trees p))
      → (¬ Acceptable h f c summary options trees
          × (e : ApplyError Hash Failure) × (apply_block h f c summary options ≡ (c, err e)))
        ⊎ (Acceptable h f c summary options trees
            × Outcome h f c summary trees (apply_block h f c summary options))
  apply_block_atomic c summary options trees holds in_type room =
      let held = λ (p : PoolId). (holds p).0 in
      elim (Result-cases (stage_block h f c summary options)) [
        | inr (e, refused) ↦ inl (
          λ good.
              let (r, staged) = Acceptable-stage_block h f c summary options trees held good in
              ground (arith, sym staged ∙ refused),
          e,
          unfold apply_block in rw (apply_block, refused) refl,
        )
        | inl (r, staged) ↦
            let k = stage_block-Staged h f c summary options r staged in
            inr (
              stage_block-Acceptable h f c summary options r trees held k,
              subst (Outcome h f c summary trees)
                  (sym (apply_block-staged c summary options r staged))
                  (commit_block-Outcome c summary options r trees k holds in_type
                    (check_nullifiers-Ready h f c summary all_pools trees holds room k.nullifiers)),
            )
      ]
