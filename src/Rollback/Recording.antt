-- ===== src/Rollback/Recording.antt =====
-- rollback.rs: what a `record` that succeeds did.
use ztreexo.Prelude.{
  ℕ, suc, ◌+◌, ◌%◌, ◌≤◌, ◌≡◌, ◌⊎◌, inl, inr, false, ◌||◌, List, [], ◌∷◌, ◌++◌, ok, arith, refl, sym,
  ap, ◌∙◌, Bool-cases, Result-cases, ◌==◌, if◌then◌else◌, subst, >>=-eq-ok,
}
use ztreexo.Chain.Types.{is_empty}
use ztreexo.Chain.Accumulators.{ChainAccumulators, StateDelta}
use ztreexo.Rollback.Journal.{
  ForestCodec, Snapshot, RollbackJournal, prune, tip, check_order, take_snapshot, record_block,
}
use ztreexo.Rollback.Runs.{delta_run, delta_run-snoc}
use ztreexo.Rollback.Snapshots.{StandsAt, Saved, SnapsFrom}
use ztreexo.Rollback.Tracks.{Tracks}

module _ {Hash Forest Failure : Type 0} (codec : ForestCodec Forest Failure)
    (history : ℕ → ChainAccumulators Hash Forest) (delta_at : ℕ → StateDelta Hash)
    (numbered : (n : ℕ) → (delta_at n).height ≡ n) where
  pub take_snapshot-inversion :
      (j j' : RollbackJournal Hash) (c : ChainAccumulators Hash Forest) (n : ℕ)
      → StandsAt codec history c n
      → take_snapshot codec j c n ≡ ok j'
      → (s : Snapshot) × (s.height ≡ n)
        × Saved codec history s
        × (prune (record j { snapshots = j.snapshots ++ s ∷ [] }) ≡ j')
  unfolding take_snapshot
  take_snapshot-inversion j j' c n stands e = elim (Result-cases (codec.to_bytes c.utxos)) [
    | inr (x, failed) ↦ absurd (ground arith)
    | inl (bytes, written) ↦ (
      record { height = n; forest = bytes; index = c.utxo_index },
      refl,
      (ap codec.to_bytes (sym stands.utxos_same) ∙ written, stands.index_same),
      ground arith,
    )
  ]

  -- a journal up to height `n` without the last delta, which is then pushed
  pub push-Tracks :
      (j : RollbackJournal Hash) (n : ℕ) (oldest : Snapshot) (later : List Snapshot) (low count : ℕ)
      → j.snapshots ≡ oldest ∷ later
      → SnapsFrom codec history 0 n (oldest ∷ later)
      → j.deltas ≡ delta_run delta_at low count
      → low + count ≡ n
      → low ≤ suc oldest.height
      → Tracks codec history delta_at (record j { deltas = j.deltas ++ delta_at n ∷ [] }) n
  push-Tracks j n oldest later low count snaps saved deltas total covered = record {
    oldest = oldest;
    later = later;
    low = low;
    count = suc count;
    snapshots_kept = snaps;
    saved = saved;
    deltas_kept =
        ap (λ (ds : List (StateDelta Hash)). ds ++ delta_at n ∷ []) deltas
        ∙ ap (λ (m : ℕ). delta_run delta_at low count ++ delta_at m ∷ []) (sym total)
        ∙ delta_run-snoc delta_at low count;
    total = omega arith;
    covered = covered;
  }

  pub record_block-inversion :
      (j j' : RollbackJournal Hash) (c : ChainAccumulators Hash Forest) (n : ℕ)
      → record_block codec j c (delta_at n) ≡ ok j'
      → (mid : RollbackJournal Hash) × ((take_snapshot codec j c n ≡ ok mid)
          ⊎ ((is_empty j.snapshots ≡ false) × (mid ≡ j)))
        × (j' ≡ record mid { deltas = mid.deltas ++ delta_at n ∷ [] })
  unfolding record_block
  record_block-inversion j j' c n e =
      let (_, ordered, e1) = >>=-eq-ok (check_order codec (tip j) (delta_at n).height) _ e in
      let (mid, taken, e2) =
        >>=-eq-ok
          (if is_empty j.snapshots || (delta_at n).height % j.interval == 0
            then take_snapshot codec j c (delta_at n).height
            else ok j)
          (λ (x : RollbackJournal Hash). ok (record x { deltas = x.deltas ++ delta_at n ∷ [] }))
          e1 in
      let height = numbered n in
      (
        mid,
        elim (Bool-cases (is_empty j.snapshots || (delta_at n).height % j.interval == 0)) [
          | inl boundary ↦
              inl (subst (λ (k : ℕ). take_snapshot codec j c k ≡ ok mid) height (ground arith))
          | inr within ↦ inr (ground arith, ground arith)
        ],
        ground arith,
      )
