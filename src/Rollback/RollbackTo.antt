-- ===== src/Rollback/RollbackTo.antt =====
-- rollback.rs: `rollback_to`.
use ztreexo.Prelude.{
  ℕ, ◌+◌, ◌-◌, List, [], ◌∷◌, Option, none, some, Result, ok, err, ltb, ◌==◌, if◌then◌else◌,
}
use ztreexo.Digest.ImtHash.{ImtHash}
use ztreexo.Chain.Types.{next_height}
use ztreexo.Chain.Accumulators.{Forests, StateDelta, ChainAccumulators}
use ztreexo.Rollback.Journal.{
  ForestCodec, Snapshot, RollbackError, RollbackJournal, earliest_rollback, not_behind_tip,
  beyond_journal, utreexo,
}
use ztreexo.Rollback.Unwind.{reversed, undo_deltas}
use ztreexo.Rollback.Replay.{newest_at_most, replay_steps}

-- `while snapshots.back()` is above the height: `pop_back`
unfoldable pub snapshots_to : ℕ → List Snapshot → List Snapshot
snapshots_to height [] = []
snapshots_to height (s ∷ rest) = elim (snapshots_to height rest) [
  | [] ↦ if ltb height s.height then [] else s ∷ []
  | later ∷ others ↦ s ∷ later ∷ others
]

module _ {Hash : Type 0} where
  -- `while deltas.back()` is above the height: `pop_back`
  unfoldable pub deltas_to : ℕ → List (StateDelta Hash) → List (StateDelta Hash)
  deltas_to height [] = []
  deltas_to height (d ∷ rest) = elim (deltas_to height rest) [
    | [] ↦ if ltb height d.height then [] else d ∷ []
    | later ∷ others ↦ d ∷ later ∷ others
  ]

  -- `filter(|d| d.height > height)`
  unfoldable pub deltas_above : ℕ → List (StateDelta Hash) → List (StateDelta Hash)
  deltas_above height [] = []
  deltas_above height (d ∷ rest) =
      let others = deltas_above height rest in if ltb height d.height then d ∷ others else others

module _ {Hash Forest Failure : Type 0} (h : ImtHash Hash) (f : Forests Hash Forest Failure)
    (codec : ForestCodec Forest Failure) where
  -- the journal and the accumulators afterwards, with the outcome
  abbrev pub Rolling : Type 0
  Rolling =
      RollbackJournal Hash
      × ChainAccumulators Hash Forest
      × Result (RollbackError Hash Failure) (Unit {0})

  -- the end: the undone deltas and snapshots are dropped, and the tip is set
  unfoldable pub settle :
      RollbackJournal Hash
      → ℕ
      → ChainAccumulators Hash Forest × Result (RollbackError Hash Failure) (Unit {0})
      → Rolling
  settle j height (c, err e) = (j, c, err e)
  settle j height (c, ok _) = (
    record j { snapshots = snapshots_to height j.snapshots; deltas = deltas_to height j.deltas },
    record c { tip = some height },
    ok tt,
  )

  -- restore the snapshot below the target, and replay forward
  unfoldable pub restore :
      RollbackJournal Hash → ℕ → Option Snapshot → ℕ → ChainAccumulators Hash Forest → Rolling
  restore j height none earliest c = (j, c, err (beyond_journal height earliest))
  restore j height (some base) earliest c = elim (codec.from_bytes base.forest) [
    | err e ↦ (j, c, err (utreexo e))
    | ok forest ↦ settle j height (
        replay_steps f j.deltas (height + 1 - next_height base.height) (next_height base.height)
          (record c { utxos = forest; utxo_index = base.index }))
  ]

  -- the work, once the target is known to be within reach
  unfoldable pub unwind : RollbackJournal Hash → ℕ → ℕ → ChainAccumulators Hash Forest → Rolling
  unwind j height earliest c =
      let (c', outcome) = undo_deltas h (reversed (deltas_above height j.deltas)) c in
      elim outcome [
        | err e ↦ (j, c', err e)
        | ok _ ↦ restore j height (newest_at_most height j.snapshots) earliest c'
      ]

  unfoldable pub rollback_to : RollbackJournal Hash → ChainAccumulators Hash Forest → ℕ → Rolling
  rollback_to j c height = elim c.tip [
    | none ↦ (j, c, err (not_behind_tip height none))
    | some current ↦
        if ltb current height
        then (j, c, err (not_behind_tip height (some current)))
        else if current == height
        then (j, c, ok tt)
        else elim (earliest_rollback j) [
          | none ↦ (j, c, err (beyond_journal height (next_height height)))
          | some earliest ↦
              if ltb height earliest
              then (j, c, err (beyond_journal height earliest))
              else unwind j height earliest c
        ]
  ]
