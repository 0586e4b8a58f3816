-- ===== src/Rollback/Replay.antt =====
-- rollback.rs: the transparent half of `rollback_to`, with `replay_transparent`.
use ztreexo.Prelude.{
  ℕ, zero, suc, ◌&&◌, List, [], ◌∷◌, map, Option, none, some, Result, ok, err, leb, ◌==◌,
  if◌then◌else◌,
}
use ztreexo.Chain.Types.{is_empty}
use ztreexo.Chain.Accumulators.{Forests, StateDelta, ChainAccumulators}
use ztreexo.Chain.Apply.{leaves_of, remove_utxos, insert_utxos}
use ztreexo.Rollback.Journal.{Snapshot, RollbackError, utreexo, missing_delta}

-- `iter().rev().find(|s| s.height <= height)`
unfoldable pub newest_at_most : ℕ → List Snapshot → Option Snapshot
newest_at_most height [] = none
newest_at_most height (s ∷ rest) = elim (newest_at_most height rest) [
  | some later ↦ some later
  | none ↦ if leb s.height height then some s else none
]

module _ {Hash : Type 0} where
  -- `iter().find(|d| d.height == step)`
  unfoldable pub delta_for : ℕ → List (StateDelta Hash) → Option (StateDelta Hash)
  delta_for step [] = none
  delta_for step (d ∷ ds) = if d.height == step then some d else delta_for step ds

module _ {Hash Forest Failure : Type 0} (f : Forests Hash Forest Failure) where
  abbrev pub Replaying : Type 0
  Replaying = ChainAccumulators Hash Forest × Result (RollbackError Hash Failure) (Unit {0})

  -- `UtxoForest::delete` or `insert`, unless there are no leaves
  unfoldable pub change_forest : ChainAccumulators Hash Forest → List Hash → List Hash → Replaying
  change_forest c additions deletions =
      if is_empty additions && is_empty deletions
      then (c, ok tt)
      else let (forest, outcome) = f.modify c.utxos additions deletions in
        (record c { utxos = forest }, elim outcome [ ok _ ↦ ok tt | err e ↦ err (utreexo e) ])

  -- a change, and what follows if it succeeds
  abbrev pub and_then : Replaying → (ChainAccumulators Hash Forest → Replaying) → Replaying
  and_then (c, ok _) next = next c
  and_then (c, err e) next = (c, err e)

  unfoldable pub replay_transparent : StateDelta Hash → ChainAccumulators Hash Forest → Replaying
  replay_transparent delta c =
      and_then (change_forest c [] (map f.leaf_hash (leaves_of delta.spent))) (λ c1.
        and_then
          (change_forest (record c1 { utxo_index = remove_utxos delta.spent c1.utxo_index })
            (map f.leaf_hash (leaves_of delta.created)) [])
          (λ c2. (record c2 { utxo_index = insert_utxos delta.created c2.utxo_index }, ok tt)))

  -- the steps from `step`, `n` of them
  unfoldable pub replay_steps :
      List (StateDelta Hash) → ℕ → ℕ → ChainAccumulators Hash Forest → Replaying
  replay_steps deltas zero step c = (c, ok tt)
  replay_steps deltas (suc n) step c = elim (delta_for step deltas) [
    | none ↦ (c, err (missing_delta step))
    | some delta ↦ and_then (replay_transparent delta c) (λ c'. replay_steps deltas n (suc step) c')
  ]
