-- ===== src/Rollback/Tracks.antt =====
-- rollback.rs: what a journal holds of the blocks recorded in it, and that `record` keeps it so.
use ztreexo.Prelude.{
  ℕ, zero, suc, ◌+◌, ◌-◌, ◌≤◌, ◌≡◌, ◌⊎◌, List, [], ◌∷◌, ◌++◌, some, arith, refl, ap, ◌∙◌,
}
use ztreexo.Chain.Accumulators.{ChainAccumulators, StateDelta}
use ztreexo.Rollback.Journal.{
  ForestCodec, Snapshot, RollbackJournal, last_of, drop_old, drop_covered, prune, tip,
  earliest_rollback,
}
use ztreexo.Rollback.Runs.{delta_run, last_of-delta_run, drop_covered-delta_run}
use ztreexo.Rollback.Snapshots.{SnapsFrom, drop_old-SnapsFrom}

module _ {Hash Forest Failure : Type 0} (codec : ForestCodec Forest Failure)
    (history : ℕ → ChainAccumulators Hash Forest) (delta_at : ℕ → StateDelta Hash) where
  -- The journal at height `n`: ascending snapshots of the history, the oldest first, and the deltas of
  -- all heights above the oldest snapshot up to `n`.
  pub record Tracks (j : RollbackJournal Hash) (n : ℕ) : Type 0 where
    pub oldest : Snapshot
    pub later : List Snapshot
    pub low : ℕ
    pub count : ℕ
    pub snapshots_kept : j.snapshots ≡ oldest ∷ later
    pub saved : SnapsFrom codec history 0 n (oldest ∷ later)
    pub deltas_kept : j.deltas ≡ delta_run delta_at low count
    pub total : low + count ≡ suc n
    pub covered : low ≤ suc oldest.height

  -- A journal and how far back it can go: to the first height recorded, or to as many blocks as it
  -- was made for.
  pub record Reaches (start depth : ℕ) (j : RollbackJournal Hash) (n : ℕ) : Type 0 where
    pub tracks : Tracks j n
    pub depth_same : j.max_depth ≡ depth
    pub earliest : ℕ
    pub earliest_known : earliest_rollback j ≡ some earliest
    pub reach : (earliest ≤ start) ⊎ (earliest ≤ n - depth)

  module _ (numbered : (n : ℕ) → (delta_at n).height ≡ n) where
    tip_of :
        (j : RollbackJournal Hash) (n : ℕ) (oldest : Snapshot) (later : List Snapshot)
        (low count : ℕ)
        → j.snapshots ≡ oldest ∷ later
        → SnapsFrom codec history 0 n (oldest ∷ later)
        → j.deltas ≡ delta_run delta_at low count
        → low + count ≡ suc n
        → low ≤ suc oldest.height
        → tip j ≡ some n
    unfolding tip
    tip_of j n oldest [] low zero snaps saved deltas total covered =
        let here : oldest.height ≡ n = omega (arith, saved.0.1) in ground (arith, here)
    tip_of j n oldest (x ∷ later) low zero snaps saved deltas total covered =
        absurd (omega (arith, saved.0.1, saved.1.0.0, saved.1.0.1))
    tip_of j n oldest later low (suc count) snaps saved deltas total covered =
        let (d, last, height) = last_of-delta_run delta_at numbered low count in
        let here : d.height ≡ n = omega arith in
        let found : last_of j.deltas ≡ some d = ap last_of deltas ∙ last in ground (arith, here)

    pub tip-Tracks : (j : RollbackJournal Hash) (n : ℕ) → Tracks j n → tip j ≡ some n
    tip-Tracks j n k =
        tip_of j n k.oldest k.later k.low k.count k.snapshots_kept k.saved k.deltas_kept k.total
          k.covered

    pub last_of-snoc {ℓ} : {A : Type ℓ} (xs : List A) (x : A) → last_of (xs ++ x ∷ []) ≡ some x
    last_of-snoc [] x = refl
    last_of-snoc (y ∷ []) x = refl
    last_of-snoc (y ∷ z ∷ xs) x = last_of-snoc (z ∷ xs) x

    -- the journal after pruning: what is left, and how far it reaches
    pub pruned :
        (j : RollbackJournal Hash) (n : ℕ) (s : Snapshot) (ss : List Snapshot) (low count : ℕ)
        (newest : Snapshot)
        → j.snapshots ≡ s ∷ ss
        → last_of (s ∷ ss) ≡ some newest
        → SnapsFrom codec history 0 n (s ∷ ss)
        → j.deltas ≡ delta_run delta_at low count
        → low ≤ suc s.height
        → (first : Snapshot) × (rest : List Snapshot) × (low' : ℕ) × (count' : ℕ) × (prune j
            ≡ record j { snapshots = first ∷ rest; deltas = delta_run delta_at low' count' })
          × SnapsFrom codec history 0 n (first ∷ rest)
          × (low' + count' ≡ low + count)
          × (low' ≤ suc first.height)
          × ((first.height ≡ s.height) ⊎ (first.height ≤ newest.height - j.max_depth))
    unfolding prune
    pruned j n s ss low count newest snaps last saved deltas covered =
        let (first, rest, dropped, saved', above, which) =
          drop_old-SnapsFrom codec history (newest.height - j.max_depth) 0 n s ss saved in
        let (low', count', cut, total', covered') =
          drop_covered-delta_run delta_at numbered first.height low count (omega arith) in
        let last' : last_of j.snapshots ≡ some newest = ap last_of snaps ∙ last in
        let dropped' : drop_old (newest.height - j.max_depth) j.snapshots ≡ first ∷ rest =
          ap (drop_old (newest.height - j.max_depth)) snaps ∙ dropped in
        let cut' : drop_covered first.height j.deltas ≡ delta_run delta_at low' count' =
          ap (drop_covered first.height) deltas ∙ cut in
        (first, rest, low', count', ground arith, saved', total', covered', which)
