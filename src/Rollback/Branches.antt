-- ===== src/Rollback/Branches.antt =====
-- rollback.rs: the branches of `rollback_to` without errors.
use ztreexo.Prelude.{ℕ, ◌+◌, ◌-◌, ◌≤◌, ◌<◌, ◌≡◌, true, false, some, ok, arith, refl, ap, ltb, ◌==◌}
use ztreexo.Digest.ImtHash.{ImtHash}
use ztreexo.Chain.Types.{next_height}
use ztreexo.Chain.Accumulators.{Forests, ChainAccumulators}
use ztreexo.Rollback.Journal.{ForestCodec, Snapshot, RollbackJournal, earliest_rollback}
use ztreexo.Rollback.Unwind.{undo_deltas, reversed}
use ztreexo.Rollback.Replay.{newest_at_most, replay_steps}
use ztreexo.Rollback.RollbackTo.{
  rollback_to, unwind, restore, settle, deltas_above, deltas_to, snapshots_to,
}

module _ {Hash Forest Failure : Type 0} (h : ImtHash Hash) (f : Forests Hash Forest Failure)
    (codec : ForestCodec Forest Failure) where
  pub rollback_to-within :
      (j : RollbackJournal Hash) (c : ChainAccumulators Hash Forest) (height n earliest : ℕ)
      → c.tip ≡ some n
      → height < n
      → earliest_rollback j ≡ some earliest
      → earliest ≤ height
      → rollback_to h f codec j c height ≡ unwind h f codec j height earliest c
  unfolding rollback_to
  rollback_to-within j c height n earliest tip behind known within =
      let behind' : ltb n height ≡ false = ground arith in
      let other : (n == height) ≡ false = ground arith in
      let within' : ltb height earliest ≡ false = ground arith in ground arith

  pub rollback_to-nothing :
      (j : RollbackJournal Hash) (c : ChainAccumulators Hash Forest) (height : ℕ)
      → c.tip ≡ some height
      → rollback_to h f codec j c height ≡ (j, c, ok tt)
  unfolding rollback_to
  rollback_to-nothing j c height tip =
      let behind : ltb height height ≡ false = ground arith in
      let same : (height == height) ≡ true = ground arith in ground arith

  -- the branch of `unwind` without errors
  pub unwind-restores :
      (j : RollbackJournal Hash) (height earliest : ℕ) (c c1 c2 : ChainAccumulators Hash Forest)
      (base : Snapshot) (forest : Forest)
      → undo_deltas h {Failure = Failure} (reversed (deltas_above height j.deltas)) c ≡ (c1, ok tt)
      → newest_at_most height j.snapshots ≡ some base
      → codec.from_bytes base.forest ≡ ok forest
      → replay_steps f j.deltas
          (height + 1 - next_height base.height)
          (next_height base.height)
          (record c1 { utxos = forest; utxo_index = base.index })
        ≡ (c2, ok tt)
      → unwind h f codec j height earliest c ≡ (
        record j {
          snapshots = snapshots_to height j.snapshots;
          deltas = deltas_to height j.deltas;
        },
        record c2 { tip = some height },
        ok tt,
      )
  unfolding unwind restore settle
  unwind-restores j height earliest c c1 c2 base forest undone found read replayed =
      rw
        (
          unwind,
          ap (λ x. x.1) undone,
          ap (λ x. x.0) undone,
          found,
          restore,
          read,
          settle,
          ap (λ x. x.1) replayed,
          ap (λ x. x.0) replayed,
        )
        refl
