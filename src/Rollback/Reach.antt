-- ===== src/Rollback/Reach.antt =====
-- rollback.rs: the journals that `record` builds, and how far back they reach.
use ztreexo.Prelude.{ℕ, suc, ◌≡◌, some, ok}
use ztreexo.Chain.Accumulators.{ChainAccumulators, StateDelta}
use ztreexo.Rollback.Journal.{ForestCodec, RollbackJournal, new, record_block, tip}
use ztreexo.Rollback.Snapshots.{StandsAt}
use ztreexo.Rollback.Tracks.{Reaches, tip-Tracks}
use ztreexo.Rollback.Recorded.{first-Reaches, next-Reaches}

module _ {Hash Forest Failure : Type 0} (codec : ForestCodec Forest Failure)
    (history : ℕ → ChainAccumulators Hash Forest) (delta_at : ℕ → StateDelta Hash) where
  -- The journal after the blocks from height `start` were applied and recorded, one by one.
  pub data RecordedTo (interval depth start : ℕ) : RollbackJournal Hash → ℕ → Type 0 where
    first :
        {j : RollbackJournal Hash} {c : ChainAccumulators Hash Forest}
        → StandsAt codec history c start
        → record_block codec (new interval depth) c (delta_at start) ≡ ok j
        → RecordedTo interval depth start j start
    next :
        {j j' : RollbackJournal Hash} {c : ChainAccumulators Hash Forest} {n : ℕ}
        → RecordedTo interval depth start j n
        → StandsAt codec history c (suc n)
        → record_block codec j c (delta_at (suc n)) ≡ ok j'
        → RecordedTo interval depth start j' (suc n)

  module _ (numbered : (n : ℕ) → (delta_at n).height ≡ n) where
    recorded-Reaches :
        {interval depth start : ℕ} {j : RollbackJournal Hash} {n : ℕ}
        → RecordedTo interval depth start j n
        → Reaches codec history delta_at start depth j n
    recorded-Reaches (first stands e) =
        first-Reaches codec history delta_at numbered _ _ _ _ _ stands e
    recorded-Reaches (next before stands e) =
        next-Reaches codec history delta_at numbered _ _ _ _ _ _ (recorded-Reaches before) stands e

    -- A journal made by `new` in which blocks of consecutive heights were recorded holds snapshots of
    -- the transparent half in ascending order, and all deltas above the oldest snapshot without a gap;
    -- it can roll back to the first height recorded, or by `max_depth` blocks at least; and its tip is
    -- the last height recorded.
    pub record-Reaches :
        {interval depth start : ℕ} {j : RollbackJournal Hash} {n : ℕ}
        → RecordedTo interval depth start j n
        → Reaches codec history delta_at start depth j n × (tip j ≡ some n)
    record-Reaches {j = j} {n = n} recorded =
        let reaches = recorded-Reaches recorded in
        (reaches, tip-Tracks codec history delta_at numbered j n reaches.tracks)
