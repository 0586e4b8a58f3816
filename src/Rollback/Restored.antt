-- ===== src/Rollback/Restored.antt =====
-- rollback.rs: `rollback_to` takes the accumulators back to what they were at the target height.
use ztreexo.Prelude.{
  ℕ, suc, ◌+◌, ◌-◌, ◌≤◌, ◌<◌, ◌≡◌, List, some, ok, arith, refl, sym, ap, ap₂, ◌∙◌, subst,
}
use ztreexo.Pool.{PoolId}
use ztreexo.Digest.ImtHash.{ImtHash}
use ztreexo.Imt.Tree.{IndexedMerkleTree}
use ztreexo.Imt.Mirrors.{Mirrors}
use ztreexo.Imt.Histories.{AllValues}
use ztreexo.Chain.Types.{BlockSummary, next_height}
use ztreexo.Chain.Accumulators.{Forests, ChainAccumulators, StateDelta, ApplyOptions, ApplyOutcome}
use ztreexo.Chain.Apply.{apply_block}
use ztreexo.Chain.Commit.{HoldsTrees}
use ztreexo.Rollback.Journal.{ForestCodec, RollbackJournal, earliest_rollback}
use ztreexo.Rollback.Unwind.{undo_deltas, reversed}
use ztreexo.Rollback.Replay.{newest_at_most, replay_steps}
use ztreexo.Rollback.RollbackTo.{rollback_to, deltas_above, deltas_to, snapshots_to}
use ztreexo.Rollback.Runs.{delta_run, deltas_above-delta_run, deltas_to-delta_run}
use ztreexo.Rollback.Snapshots.{StandsAt, newest_at_most-found, snapshots_to-SnapsFrom}
use ztreexo.Rollback.Tracks.{Tracks}
use ztreexo.Rollback.Recorded.{earliest_rollback-Tracks}
use ztreexo.Rollback.Pools.{HoldsMirrors}
use ztreexo.Rollback.Applied.{AppliedBlock, apply_block-AppliedBlock}
use ztreexo.Rollback.Forward.{undo_deltas-run, replay_steps-run}
use ztreexo.Rollback.Branches.{rollback_to-within, unwind-restores}

module _ {Hash Forest Failure : Type 0} (h : ImtHash Hash) (f : Forests Hash Forest Failure)
    (codec : ForestCodec Forest Failure) where
  module _ (history : ℕ → ChainAccumulators Hash Forest) (delta_at : ℕ → StateDelta Hash)
      (trees : ℕ → PoolId → IndexedMerkleTree Hash)
      (numbered : (n : ℕ) → (delta_at n).height ≡ n) where
    -- `apply_block` led from height `m` to the next, and returned the delta of that height.
    pub record AppliedAt (m : ℕ) : Type 0 where
      pub summary : BlockSummary
      pub options : ApplyOptions
      pub outcome : ApplyOutcome Hash
      pub in_type : (p : PoolId) → AllValues (summary.nullifiers_for p)
      pub applied : apply_block h f (history m) summary options ≡ (history (suc m), ok outcome)
      pub returned : outcome.delta ≡ delta_at (suc m)

    pub AppliedAt-step :
        (m : ℕ)
        → HoldsTrees h f (history m).nullifiers (trees m)
        → HoldsTrees h f (history (suc m)).nullifiers (trees (suc m))
        → AppliedAt m
        → AppliedBlock h f
            (history m)
            (history (suc m))
            (delta_at (suc m))
            (trees m)
            (trees (suc m))
    AppliedAt-step m before after a =
        let (ts', block) =
          apply_block-AppliedBlock h f (history m) (history (suc m)) a.summary a.options a.outcome
            (trees m) before a.in_type a.applied in
        let same : (p : PoolId) → ts' p ≡ trees (suc m) p =
          λ p. ground (arith, sym (block.holds p).0 ∙ (after p).0) in
        subst
          (λ (d : StateDelta Hash).
            AppliedBlock h f (history m) (history (suc m)) d (trees m) (trees (suc m)))
          a.returned
          (record {
            tip_next = block.tip_next;
            holds = after;
            replays = block.replays;
            undoes = λ d us mirrors.
                block.undoes d us
                  (λ p. ((mirrors p).0, subst (Mirrors h (us p)) (sym (same p)) (mirrors p).1));
          })

    -- The accumulators stand at height `n`: the transparent half is that of the history, and the
    -- trees mirror its trees.
    pub record Stands (c : ChainAccumulators Hash Forest) (n : ℕ) : Type 0 where
      pub held : PoolId → IndexedMerkleTree Hash
      pub tip_known : c.tip ≡ some n
      pub half : StandsAt codec history c n
      pub mirrors : HoldsMirrors h f c.nullifiers held (trees n)

    pub rollback_to-back :
        (j : RollbackJournal Hash) (c : ChainAccumulators Hash Forest) (height n : ℕ)
        (k : Tracks codec history delta_at j n)
        → ((forest : Forest) (bytes : List ℕ)
            → codec.to_bytes forest ≡ ok bytes
            → codec.from_bytes bytes ≡ ok forest)
        → n ≤ 4294967295
        → ((m : ℕ)
            → k.oldest.height ≤ m
            → m < n
            → AppliedBlock h f
                (history m)
                (history (suc m))
                (delta_at (suc m))
                (trees m)
                (trees (suc m)))
        → Stands c n
        → k.oldest.height ≤ height
        → height < n
        → (j' : RollbackJournal Hash) × (c' : ChainAccumulators Hash Forest) × (rollback_to h f
              codec j c height
            ≡ (j', c', ok tt))
          × Tracks codec history delta_at j' height
          × (earliest_rollback j' ≡ earliest_rollback j)
          × Stands c' height
    rollback_to-back j c height n k round_trip small steps at reach behind =
        let (base, found, above, below, saved) =
          newest_at_most-found codec history height 0 n k.oldest k.later reach k.saved in
        let (later, cut, saved') =
          snapshots_to-SnapsFrom codec history height 0 n k.oldest k.later reach k.saved in
        let up : height + (n - height) ≡ n = omega arith in
        let (held, us', undone, back) =
          undo_deltas-run h f history delta_at trees height (n - height) c at.held
            (λ m a b. steps m (omega arith) (omega arith))
            (subst (λ (x : ℕ). HoldsMirrors h f c.nullifiers at.held (trees x)) (sym up)
              at.mirrors) in
        let to_undo : deltas_above height j.deltas ≡ delta_run delta_at (suc height) (n - height) =
          ap (deltas_above height) k.deltas_kept
          ∙ deltas_above-delta_run delta_at numbered height k.low k.count n
              (omega (arith, k.covered)) k.total (omega arith) in
        let c1 : ChainAccumulators Hash Forest = record c { nullifiers = held } in
        let start : ChainAccumulators Hash Forest = record c1 {
          utxos = (history base.height).utxos;
          utxo_index = base.index;
        } in
        let to : base.height + (height - base.height) ≡ height = omega arith in
        let replayed =
          replay_steps-run h f history delta_at trees numbered k.low k.count (height - base.height)
            base.height start (omega (arith, k.covered)) (omega (arith, k.total))
            (λ m a b. steps m (omega arith) (omega arith)) refl saved.1 in
        let c2 : ChainAccumulators Hash Forest = record c1 {
          utxos = (history height).utxos;
          utxo_index = (history height).utxo_index;
        } in
        let next : next_height base.height ≡ suc base.height = ground arith in
        let many : height + 1 - next_height base.height ≡ height - base.height =
          omega (arith, next) in
        let replayed' : replay_steps f j.deltas (height + 1 - next_height base.height)
              (next_height base.height) start
            ≡ (c2, ok tt) =
          ap
            (λ ds.
              replay_steps f ds (height + 1 - next_height base.height) (next_height base.height)
                start)
            k.deltas_kept
          ∙ ap₂ (λ (x y : ℕ). replay_steps f (delta_run delta_at k.low k.count) x y start) many next
          ∙ replayed
          ∙ ap
              (λ (m : ℕ). (
                record c1 { utxos = (history m).utxos; utxo_index = (history m).utxo_index },
                ok tt,
              ))
              to in
        let known = earliest_rollback-Tracks codec history delta_at numbered j n k in
        let j' : RollbackJournal Hash = record j {
          snapshots = snapshots_to height j.snapshots;
          deltas = deltas_to height j.deltas;
        } in
        let k' : Tracks codec history delta_at j' height = record {
          oldest = k.oldest;
          later = later;
          low = k.low;
          count = suc height - k.low;
          snapshots_kept = ap (snapshots_to height) k.snapshots_kept ∙ cut;
          saved = saved';
          deltas_kept =
              ap (deltas_to height) k.deltas_kept
              ∙ deltas_to-delta_run delta_at numbered height k.low k.count
                  (omega (arith, k.covered)) (omega (arith, k.total));
          total = omega (arith, k.covered);
          covered = k.covered;
        } in
        (
          j',
          record c2 { tip = some height },
          rollback_to-within h f codec j c height n k.oldest.height at.tip_known behind known reach
              ∙ unwind-restores h f codec j height k.oldest.height c c1 c2 base
                  (history base.height).utxos
                  (ap (λ ds. undo_deltas h {Failure = Failure} (reversed ds) c) to_undo ∙ undone)
                  (ap (newest_at_most height) k.snapshots_kept ∙ found)
                  (round_trip (history base.height).utxos base.forest saved.0) replayed',
          k',
          earliest_rollback-Tracks codec history delta_at numbered j' height k' ∙ sym known,
          record {
            held = us';
            tip_known = refl;
            half = record { utxos_same = refl; index_same = refl };
            mirrors = back;
          },
        )
