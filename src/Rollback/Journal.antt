-- ===== src/Rollback/Journal.antt =====
-- rollback.rs: `RollbackJournal` with `record` and `prune`.
use ztreexo.Prelude.{
  ℕ, ◌-◌, ◌%◌, not, ◌||◌, List, [], ◌∷◌, ◌++◌, Option, none, some, Result, ok, err, ◌>>=◌, ◌>>◌,
  refuse_if, ltb, leb, ◌==◌, if◌then◌else◌,
}
use ztreexo.Pool.{PoolId}
use ztreexo.Imt.Types.{ImtError}
use ztreexo.Chain.Types.{next_height, is_empty}
use ztreexo.Chain.Accumulators.{UtxoIndex, StateDelta, ChainAccumulators}

-- The crate rustreexo, as `UtxoForest::to_bytes` and `from_bytes` of utreexo.rs call it.
pub record ForestCodec (Forest Failure : Type 0) : Type 0 where
  pub to_bytes : Forest → Result Failure (List ℕ)
  pub from_bytes : List ℕ → Result Failure Forest

pub record Snapshot : Type 0 where
  pub height : ℕ
  pub forest : List ℕ
  pub index : UtxoIndex

pub data RollbackError (Hash Failure : Type 0) : Type 0 where
  not_behind_tip : (target : ℕ) → (tip : Option ℕ) → RollbackError Hash Failure
  beyond_journal : (target earliest : ℕ) → RollbackError Hash Failure
  missing_delta : (height : ℕ) → RollbackError Hash Failure
  out_of_order : (expected found : ℕ) → RollbackError Hash Failure
  imt : ImtError Hash → RollbackError Hash Failure
  utreexo : Failure → RollbackError Hash Failure
  missing_pool : PoolId → RollbackError Hash Failure

-- oldest first, both
pub record RollbackJournal (Hash : Type 0) : Type 0 where
  pub interval : ℕ
  pub max_depth : ℕ
  pub snapshots : List Snapshot
  pub deltas : List (StateDelta Hash)

-- `back`
abbrev pub last_of {ℓ} : {A : Type ℓ} → List A → Option A
last_of [] = none
last_of (x ∷ []) = some x
last_of (x ∷ y ∷ xs) = last_of (y ∷ xs)

-- `front`
abbrev pub first_of {ℓ} : {A : Type ℓ} → List A → Option A
first_of [] = none
first_of (x ∷ xs) = some x

-- `while snapshots.len() > 1` with the second one at or below the horizon: `pop_front`
unfoldable pub drop_old : ℕ → List Snapshot → List Snapshot
drop_old horizon [] = []
drop_old horizon (s ∷ []) = s ∷ []
drop_old horizon (s ∷ second ∷ rest) =
    let dropped = drop_old horizon (second ∷ rest) in
    if leb second.height horizon then dropped else s ∷ second ∷ rest

module _ {Hash : Type 0} where
  unfoldable pub new : ℕ → ℕ → RollbackJournal Hash
  new interval max_depth = record {
    interval = if ltb interval 1 then 1 else interval;
    max_depth = max_depth;
    snapshots = [];
    deltas = [];
  }

  unfoldable pub earliest_rollback : RollbackJournal Hash → Option ℕ
  earliest_rollback j = elim (first_of j.snapshots) [ none ↦ none | some s ↦ some s.height ]

  -- the height of the last delta, or of the last snapshot
  unfoldable pub tip : RollbackJournal Hash → Option ℕ
  tip j = elim (last_of j.deltas) [
    | some d ↦ some d.height
    | none ↦ elim (last_of j.snapshots) [ none ↦ none | some s ↦ some s.height ]
  ]

  -- `while deltas.front()` is at or below the oldest snapshot: `pop_front`
  unfoldable pub drop_covered : ℕ → List (StateDelta Hash) → List (StateDelta Hash)
  drop_covered oldest [] = []
  drop_covered oldest (d ∷ ds) =
      let dropped = drop_covered oldest ds in if leb d.height oldest then dropped else d ∷ ds

  -- the deltas after pruning, for the oldest snapshot left
  abbrev pub covered_by : Option Snapshot → List (StateDelta Hash) → List (StateDelta Hash)
  covered_by none ds = ds
  covered_by (some oldest) ds = drop_covered oldest.height ds

  unfoldable pub prune : RollbackJournal Hash → RollbackJournal Hash
  prune j = elim (last_of j.snapshots) [
    | none ↦ j
    | some newest ↦
        let kept = drop_old (newest.height - j.max_depth) j.snapshots in
        record j { snapshots = kept; deltas = covered_by (first_of kept) j.deltas }
  ]

  module _ {Forest Failure : Type 0} (codec : ForestCodec Forest Failure) where
    -- `Err(OutOfOrder)`, unless the height follows the recorded tip
    unfoldable pub check_order : Option ℕ → ℕ → Result (RollbackError Hash Failure) (Unit {0})
    check_order none height = ok tt
    check_order (some previous) height =
        refuse_if (not (height == next_height previous))
          (out_of_order (next_height previous) height)

    abbrev pub lift_failure {α} :
        {A : Type α} → Result Failure A → Result (RollbackError Hash Failure) A
    lift_failure (ok a) = ok a
    lift_failure (err e) = err (utreexo e)

    -- the snapshot of a boundary, and the pruning after it
    unfoldable pub take_snapshot :
        RollbackJournal Hash
        → ChainAccumulators Hash Forest
        → ℕ
        → Result (RollbackError Hash Failure) (RollbackJournal Hash)
    take_snapshot j state height = do
      bytes ← lift_failure (codec.to_bytes state.utxos)
      let snapshot : Snapshot = record { height = height; forest = bytes; index = state.utxo_index }
      ok (prune (record j { snapshots = j.snapshots ++ snapshot ∷ [] }))

    -- `record`, which fails before its first mutation or not at all
    unfoldable pub record_block :
        RollbackJournal Hash
        → ChainAccumulators Hash Forest
        → StateDelta Hash
        → Result (RollbackError Hash Failure) (RollbackJournal Hash)
    record_block j state delta = do
      check_order (tip j) delta.height
      j' ←
          (if is_empty j.snapshots || delta.height % j.interval == 0
            then take_snapshot j state delta.height
            else ok j)
      ok (record j' { deltas = j'.deltas ++ delta ∷ [] })
