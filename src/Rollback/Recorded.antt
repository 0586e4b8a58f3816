-- ===== src/Rollback/Recorded.antt =====
-- rollback.rs: `record` keeps the journal in step with the chain.
use ztreexo.Prelude.{
  ℕ, suc, ◌+◌, ◌-◌, ◌≤◌, ◌≡◌, ◌⊎◌, inl, inr, List, [], ◌∷◌, ◌++◌, some, none, ok, arith, refl, sym,
  ap, ◌∙◌, subst,
}
use ztreexo.Chain.Accumulators.{ChainAccumulators, StateDelta}
use ztreexo.Rollback.Journal.{
  ForestCodec, Snapshot, RollbackJournal, prune, earliest_rollback, record_block, first_of, new,
  last_of,
}
use ztreexo.Rollback.Runs.{delta_run}
use ztreexo.Rollback.Snapshots.{StandsAt, SnapsFrom, SnapsFrom-snoc, SnapsFrom-weaken}
use ztreexo.Rollback.Tracks.{Tracks, Reaches, pruned, last_of-snoc}
use ztreexo.Rollback.Recording.{take_snapshot-inversion, push-Tracks, record_block-inversion}

module _ {Hash Forest Failure : Type 0} (codec : ForestCodec Forest Failure)
    (history : ℕ → ChainAccumulators Hash Forest) (delta_at : ℕ → StateDelta Hash)
    (numbered : (n : ℕ) → (delta_at n).height ≡ n) where
  pub earliest_rollback-Tracks :
      (j : RollbackJournal Hash) (n : ℕ) (k : Tracks codec history delta_at j n)
      → earliest_rollback j ≡ some k.oldest.height
  unfolding earliest_rollback
  earliest_rollback-Tracks j n k =
      ap (λ (ss : List Snapshot). elim (first_of ss) [ none ↦ none | some s ↦ some s.height ])
        k.snapshots_kept

  -- a snapshot, the pruning, and the delta
  snapshot-Reaches :
      (start depth : ℕ) (j : RollbackJournal Hash) (n : ℕ) (s : Snapshot) (first : Snapshot)
      (earlier : List Snapshot) (low count : ℕ)
      → j.snapshots ++ s ∷ [] ≡ first ∷ earlier
      → SnapsFrom codec history 0 n (first ∷ earlier)
      → s.height ≡ n
      → j.deltas ≡ delta_run delta_at low count
      → low + count ≡ n
      → low ≤ suc first.height
      → j.max_depth ≡ depth
      → (first.height ≤ start) ⊎ (first.height ≤ n - depth)
      → (j' : RollbackJournal Hash)
      → (let mid = prune (record j { snapshots = j.snapshots ++ s ∷ [] }) in
          j' ≡ record mid { deltas = mid.deltas ++ delta_at n ∷ [] })
      → Reaches codec history delta_at start depth j' n
  snapshot-Reaches start depth j n s first earlier low count snaps from here deltas total covered
        same reach j' made =
      let newest : last_of (first ∷ earlier) ≡ some s =
        ap last_of (sym snaps) ∙ last_of-snoc codec history delta_at numbered j.snapshots s in
      let (first', rest', low', count', cut, from', total', covered', which) =
        pruned codec history delta_at numbered (record j { snapshots = j.snapshots ++ s ∷ [] }) n
          first earlier low count s snaps newest from deltas covered in
      let mid : RollbackJournal Hash = record j {
        snapshots = first' ∷ rest';
        deltas = delta_run delta_at low' count';
      } in
      let made' : j' ≡ record mid { deltas = mid.deltas ++ delta_at n ∷ [] } =
        made
        ∙ ap (λ (x : RollbackJournal Hash). record x { deltas = x.deltas ++ delta_at n ∷ [] })
            cut in
      subst (λ (x : RollbackJournal Hash). Reaches codec history delta_at start depth x n)
        (sym made')
        (record {
          tracks =
              push-Tracks codec history delta_at numbered mid n first' rest' low' count' refl from'
                refl (total' ∙ total) covered';
          depth_same = same;
          earliest = first'.height;
          earliest_known = unfold earliest_rollback in refl;
          reach = elim which [
            | inl oldest ↦ subst (λ (x : ℕ). (x ≤ start) ⊎ (x ≤ n - depth)) (sym oldest) reach
            | inr below ↦ inr (omega (arith, here, same))
          ];
        })

  pub first-Reaches :
      (interval depth : ℕ) (j : RollbackJournal Hash) (c : ChainAccumulators Hash Forest) (n : ℕ)
      → StandsAt codec history c n
      → record_block codec (new interval depth) c (delta_at n) ≡ ok j
      → Reaches codec history delta_at n depth j n
  unfolding new
  first-Reaches interval depth j c n stands e =
      let (mid, which, made) =
        record_block-inversion codec history delta_at numbered (new interval depth) j c n e in
      elim which [
        | inr (some_there, _) ↦ absurd (cc)
        | inl taken ↦
            let (s, here, saved, cut) =
              take_snapshot-inversion codec history delta_at numbered (new interval depth) mid c n
                stands taken in
            snapshot-Reaches n depth (new interval depth) n s s [] n 0 refl
              ((omega arith, omega (arith, here), saved), tt) here refl (omega arith)
              (omega (arith, here)) refl (inl (omega (arith, here))) j
              (made
                ∙ ap
                    (λ (x : RollbackJournal Hash). record x {
                      deltas = x.deltas ++ delta_at n ∷ [];
                    })
                    (sym cut))
      ]

  pub next-Reaches :
      (start depth : ℕ) (j j' : RollbackJournal Hash) (c : ChainAccumulators Hash Forest) (n : ℕ)
      → Reaches codec history delta_at start depth j n
      → StandsAt codec history c (suc n)
      → record_block codec j c (delta_at (suc n)) ≡ ok j'
      → Reaches codec history delta_at start depth j' (suc n)
  unfolding earliest_rollback
  next-Reaches start depth j j' c n r stands e =
      let k = r.tracks in
      let (mid, which, made) =
        record_block-inversion codec history delta_at numbered j j' c (suc n) e in
      let same_earliest : r.earliest ≡ k.oldest.height =
        ground (arith, sym r.earliest_known ∙ earliest_rollback-Tracks j n k) in
      let reach' : (k.oldest.height ≤ start) ⊎ (k.oldest.height ≤ suc n - depth) = elim r.reach [
        | inl early ↦ inl (omega arith)
        | inr deep ↦ inr (omega arith)
      ] in
      elim which [
        | inr (_, same) ↦
            let made' : j' ≡ record j { deltas = j.deltas ++ delta_at (suc n) ∷ [] } =
              made
              ∙ ap
                  (λ (x : RollbackJournal Hash). record x {
                    deltas = x.deltas ++ delta_at (suc n) ∷ [];
                  })
                  same in
            subst
              (λ (x : RollbackJournal Hash). Reaches codec history delta_at start depth x (suc n))
              (sym made')
              (record {
                tracks =
                    push-Tracks codec history delta_at numbered j (suc n) k.oldest k.later k.low
                      k.count k.snapshots_kept
                      (SnapsFrom-weaken codec history 0 0 n (suc n) (k.oldest ∷ k.later)
                        (omega arith) (omega arith) k.saved)
                      k.deltas_kept k.total k.covered;
                depth_same = r.depth_same;
                earliest = k.oldest.height;
                earliest_known = earliest_rollback-Tracks j n k;
                reach = reach';
              })
        | inl taken ↦
            let (s, here, saved, cut) =
              take_snapshot-inversion codec history delta_at numbered j mid c (suc n) stands
                taken in
            snapshot-Reaches start depth j (suc n) s k.oldest (k.later ++ s ∷ []) k.low k.count
              (ap (λ ss. ss ++ s ∷ []) k.snapshots_kept)
              (subst (λ (x : ℕ). SnapsFrom codec history 0 x (k.oldest ∷ k.later ++ s ∷ [])) here
                (SnapsFrom-snoc codec history 0 n (k.oldest ∷ k.later) s (omega arith)
                  (omega (arith, here)) saved k.saved))
              here k.deltas_kept k.total k.covered r.depth_same reach' j'
              (made
                ∙ ap
                    (λ (x : RollbackJournal Hash). record x {
                      deltas = x.deltas ++ delta_at (suc n) ∷ [];
                    })
                    (sym cut))
      ]
