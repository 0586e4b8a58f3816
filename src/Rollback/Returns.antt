-- ===== src/Rollback/Returns.antt =====
-- rollback.rs: what `rollback_to` returns, for every target.
use ztreexo.Prelude.{
  ℕ, suc, ◌≤◌, ◌<◌, ◌≡◌, ◌⊎◌, inl, inr, true, false, List, some, ok, err, arith, sym, ap, ◌∙◌,
  subst, ltb, ◌==◌, Bool-cases, if◌then◌else◌,
}
use ztreexo.Pool.{PoolId}
use ztreexo.Digest.ImtHash.{ImtHash}
use ztreexo.Imt.Tree.{IndexedMerkleTree}
use ztreexo.Imt.Mirrors.{SameTree, Mirrors-SameTree}
use ztreexo.Chain.Accumulators.{Forests, ChainAccumulators, StateDelta}
use ztreexo.Chain.Commit.{HoldsTrees}
use ztreexo.Rollback.Journal.{
  ForestCodec, RollbackJournal, earliest_rollback, not_behind_tip, beyond_journal,
}
use ztreexo.Rollback.RollbackTo.{rollback_to}
use ztreexo.Rollback.Tracks.{Tracks}
use ztreexo.Rollback.Recorded.{earliest_rollback-Tracks}
use ztreexo.Rollback.Branches.{rollback_to-nothing}
use ztreexo.Rollback.Restored.{AppliedAt, AppliedAt-step, Stands, rollback_to-back}

in_range :
    (earliest height n : ℕ)
    → ((earliest ≤ height) × (height ≤ n)) ⊎ ((n < height) ⊎ (height < earliest))
in_range earliest height n = elim (Bool-cases (ltb n height)) [
  | inl above ↦ inr (inl (ground arith))
  | inr behind ↦ elim (Bool-cases (ltb height earliest)) [
    | inl below ↦ inr (inr (ground arith))
    | inr reached ↦ inl (ground arith, ground arith)
  ]
]

module _ {Hash Forest Failure : Type 0} (h : ImtHash Hash) (f : Forests Hash Forest Failure)
    (codec : ForestCodec Forest Failure) where
  -- A target above the tip, or below the earliest height of the journal, is refused by an error that
  -- names it, and neither the journal nor the accumulators change.
  rollback_to_refused :
      (j : RollbackJournal Hash) (c : ChainAccumulators Hash Forest) (height n earliest : ℕ)
      → c.tip ≡ some n
      → earliest_rollback j ≡ some earliest
      → earliest ≤ n
      → (n < height) ⊎ (height < earliest)
      → rollback_to h f codec j c height ≡ (
        j,
        c,
        err (
            if ltb n height
            then not_behind_tip height (some n)
            else beyond_journal height earliest),
      )
  unfolding rollback_to
  rollback_to_refused j c height n earliest tip known ordered (inl above) =
      let above' : ltb n height ≡ true = ground arith in ground arith
  rollback_to_refused j c height n earliest tip known ordered (inr below) =
      let behind : ltb n height ≡ false = ground arith in
      let other : (n == height) ≡ false = ground arith in
      let below' : ltb height earliest ≡ true = ground arith in ground arith

  module _ (history : ℕ → ChainAccumulators Hash Forest) (delta_at : ℕ → StateDelta Hash)
      (trees : ℕ → PoolId → IndexedMerkleTree Hash)
      (numbered : (n : ℕ) → (delta_at n).height ≡ n) where
    -- Let `apply_block` have led from each height of the journal to the next, with the delta of the
    -- journal, and let the journal hold these deltas and snapshots of the history. Then `rollback_to`
    -- succeeds for every target from the earliest height of the journal to the tip. Afterwards the
    -- accumulators have the forest, the index and the tip of the target, each nullifier tree is the
    -- tree of the target in its leaves, its value index and every digest up to the root, and the
    -- journal holds the history up to the target, as far back as before.
    pub rollback_to-returns :
        (j : RollbackJournal Hash) (c : ChainAccumulators Hash Forest) (height n earliest : ℕ)
        → Tracks codec history delta_at j n
        → earliest_rollback j ≡ some earliest
        → ((forest : Forest) (bytes : List ℕ)
            → codec.to_bytes forest ≡ ok bytes
            → codec.from_bytes bytes ≡ ok forest)
        → n ≤ 4294967295
        → ((m : ℕ) → earliest ≤ m → m ≤ n → HoldsTrees h f (history m).nullifiers (trees m))
        → ((m : ℕ) → earliest ≤ m → m < n → AppliedAt h f codec history delta_at trees numbered m)
        → Stands h f codec history delta_at trees numbered c n
        → earliest ≤ height
        → height ≤ n
        → (j' : RollbackJournal Hash) × (c' : ChainAccumulators Hash Forest) × (rollback_to h f
              codec j c height
            ≡ (j', c', ok tt))
          × Tracks codec history delta_at j' height
          × (earliest_rollback j' ≡ some earliest)
          × (at : Stands h f codec history delta_at trees numbered c' height) × ((p : PoolId)
              → SameTree h (at.held p) (trees height p))
    rollback_to-returns j c height n earliest k known round_trip small holds applied at reach
          behind =
        let oldest : k.oldest.height ≡ earliest =
          ground
            (arith, sym (earliest_rollback-Tracks codec history delta_at numbered j n k) ∙ known) in
        elim (Bool-cases (height == n)) [
          | inl same ↦
              let here : n ≡ height = ground arith in
              let at' = subst (Stands h f codec history delta_at trees numbered c) here at in
              (
                j,
                c,
                rollback_to-nothing h f codec j c height at'.tip_known,
                subst (Tracks codec history delta_at j) here k,
                known,
                at',
                λ p.
                    Mirrors-SameTree h _ _ (holds height reach (omega arith) p).1 (at'.mirrors p).1,
              )
          | inr other ↦
              let (j', c', rolled, k', known', at') =
                rollback_to-back h f codec history delta_at trees numbered j c height n k round_trip
                  small
                  (λ m a b.
                    AppliedAt-step h f codec history delta_at trees numbered m
                      (holds m (omega arith) (omega arith))
                      (holds (suc m) (omega arith) (omega arith)) (applied m (omega arith) b))
                  at (omega arith) (ground arith) in
              (
                j',
                c',
                rolled,
                k',
                known' ∙ known,
                at',
                λ p. Mirrors-SameTree h _ _ (holds height reach behind p).1 (at'.mirrors p).1,
              )
        ]

    -- Let `apply_block` have led from each height of the journal to the next, with the delta of the
    -- journal, and let the journal hold these deltas and snapshots of the history. Then `rollback_to`
    -- succeeds exactly for the targets from the earliest height of the journal to the tip, both
    -- included. For every other target the journal and the accumulators are as they were.
    pub rollback_to_iff :
        (j : RollbackJournal Hash) (c : ChainAccumulators Hash Forest) (height n earliest : ℕ)
        → Tracks codec history delta_at j n
        → earliest_rollback j ≡ some earliest
        → ((forest : Forest) (bytes : List ℕ)
            → codec.to_bytes forest ≡ ok bytes
            → codec.from_bytes bytes ≡ ok forest)
        → n ≤ 4294967295
        → ((m : ℕ) → earliest ≤ m → m ≤ n → HoldsTrees h f (history m).nullifiers (trees m))
        → ((m : ℕ) → earliest ≤ m → m < n → AppliedAt h f codec history delta_at trees numbered m)
        → Stands h f codec history delta_at trees numbered c n
        → earliest ≤ n
        → ((rollback_to h f codec j c height).2 ≡ ok tt → (earliest ≤ height) × (height ≤ n))
          × ((earliest ≤ height) × (height ≤ n) → (rollback_to h f codec j c height).2 ≡ ok tt)
          × (¬ ((earliest ≤ height) × (height ≤ n))
              → ((rollback_to h f codec j c height).0 ≡ j)
                × ((rollback_to h f codec j c height).1 ≡ c))
    rollback_to_iff j c height n earliest k known round_trip small holds applied at ordered = (
      λ went. elim (in_range earliest height n) [
        | inl inside ↦ inside
        | inr out ↦
            let refused =
              rollback_to_refused j c height n earliest at.tip_known known ordered out in
            absurd (ground (arith, sym went ∙ ap (λ x. x.2) refused))
      ],
      λ inside.
          let (_, _, rolled, _, _, _, _) =
            rollback_to-returns j c height n earliest k known round_trip small holds applied at
              inside.0 inside.1 in
          ap (λ x. x.2) rolled,
      λ outside. elim (in_range earliest height n) [
        | inl inside ↦ absurd (outside inside)
        | inr out ↦
            let refused =
              rollback_to_refused j c height n earliest at.tip_known known ordered out in
            (ap (λ x. x.0) refused, ap (λ x. x.1) refused)
      ],
    )
