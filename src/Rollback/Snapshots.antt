-- ===== src/Rollback/Snapshots.antt =====
-- rollback.rs: the snapshots of a journal ascend, and hold the transparent half at their heights.
use ztreexo.Prelude.{
  ℕ, suc, ◌≤◌, ◌<◌, ◌≡◌, ◌⊎◌, inl, inr, true, false, List, [], ◌∷◌, ◌++◌, some, ok, arith, refl, ap,
  ◌∙◌, Bool-cases, Option-cases, leb, ltb, subst,
}
use ztreexo.Chain.Accumulators.{ChainAccumulators}
use ztreexo.Rollback.Journal.{ForestCodec, Snapshot, drop_old}
use ztreexo.Rollback.Replay.{newest_at_most}
use ztreexo.Rollback.RollbackTo.{snapshots_to}

module _ {Hash Forest Failure : Type 0} (codec : ForestCodec Forest Failure)
    (history : ℕ → ChainAccumulators Hash Forest) where
  -- the transparent half of the accumulators is that of the history
  pub record StandsAt (c : ChainAccumulators Hash Forest) (n : ℕ) : Type 0 where
    pub utxos_same : c.utxos ≡ (history n).utxos
    pub index_same : c.utxo_index ≡ (history n).utxo_index

  -- the transparent half at the snapshot's height
  abbrev pub Saved : Snapshot → Type 0
  Saved s =
      (codec.to_bytes (history s.height).utxos ≡ ok s.forest)
      × (s.index ≡ (history s.height).utxo_index)

  -- ascending heights from `low` to `n`
  abbrev pub SnapsFrom : ℕ → ℕ → List Snapshot → Type 0
  SnapsFrom low n [] = Unit
  SnapsFrom low n (s ∷ ss) =
      ((low ≤ s.height) × (s.height ≤ n) × Saved s) × SnapsFrom (suc s.height) n ss

  pub SnapsFrom-weaken :
      (low low' n n' : ℕ) (ss : List Snapshot)
      → low' ≤ low
      → n ≤ n'
      → SnapsFrom low n ss
      → SnapsFrom low' n' ss
  SnapsFrom-weaken low low' n n' [] a b from = tt
  SnapsFrom-weaken low low' n n' (s ∷ ss) a b from = (
    (omega (arith, from.0.0), omega (arith, from.0.1), from.0.2),
    SnapsFrom-weaken (suc s.height) (suc s.height) n n' ss (omega arith) b from.1,
  )

  pub SnapsFrom-snoc :
      (low n : ℕ) (ss : List Snapshot) (s : Snapshot)
      → low ≤ s.height
      → n < s.height
      → Saved s
      → SnapsFrom low n ss
      → SnapsFrom low s.height (ss ++ s ∷ [])
  SnapsFrom-snoc low n [] s a b saved from = ((a, omega arith, saved), tt)
  SnapsFrom-snoc low n (x ∷ ss) s a b saved from = (
    (from.0.0, omega (arith, from.0.1), from.0.2),
    SnapsFrom-snoc (suc x.height) n ss s (omega (arith, from.0.1)) b saved from.1,
  )

  -- dropping old snapshots keeps at least one
  pub drop_old-SnapsFrom :
      (horizon low n : ℕ) (s : Snapshot) (ss : List Snapshot)
      → SnapsFrom low n (s ∷ ss)
      → (first : Snapshot) × (rest : List Snapshot) × (drop_old horizon (s ∷ ss) ≡ first ∷ rest)
        × SnapsFrom low n (first ∷ rest)
        × (s.height ≤ first.height)
        × ((first.height ≡ s.height) ⊎ (first.height ≤ horizon))
  unfolding drop_old
  drop_old-SnapsFrom horizon low n s [] from = (s, [], refl, from, omega arith, inl refl)
  drop_old-SnapsFrom horizon low n s (second ∷ rest) from =
      elim (Bool-cases (leb second.height horizon)) [
        | inl old ↦
            let (first, rest', e, from', low', which) =
              drop_old-SnapsFrom horizon (suc s.height) n second rest from.1 in
            (
              first,
              rest',
              rw old e,
              SnapsFrom-weaken (suc s.height) low n n (first ∷ rest') (omega (arith, from.0.0))
                  (omega arith) from',
              omega (arith, from.1.0.0),
              inr (elim which [ inl same ↦ ground arith | inr below ↦ below ]),
            )
        | inr needed ↦ (s, second ∷ rest, rw needed, from, omega arith, inl refl)
      ]

  newest_at_most-some :
      (height low n : ℕ) (ss : List Snapshot) (base : Snapshot)
      → newest_at_most height ss ≡ some base
      → SnapsFrom low n ss
      → (low ≤ base.height) × (base.height ≤ height) × Saved base
  unfolding newest_at_most
  newest_at_most-some height low n [] base e from = absurd (cc)
  newest_at_most-some height low n (s ∷ ss) base e from =
      elim (Option-cases (newest_at_most height ss)) [
        | inr (later, found) ↦
            let same : later ≡ base = ground arith in
            let (a, b, saved) =
              newest_at_most-some height (suc s.height) n ss base (found ∙ ap some same) from.1 in
            (omega (arith, from.0.0), b, saved)
        | inl nothing ↦
            let same : s ≡ base = ground arith in
            (
              subst (λ (x : Snapshot). low ≤ x.height) same from.0.0,
              ground arith,
              subst Saved same from.0.2,
            )
      ]

  -- the snapshot that a rollback starts from
  pub newest_at_most-found :
      (height low n : ℕ) (s : Snapshot) (ss : List Snapshot)
      → s.height ≤ height
      → SnapsFrom low n (s ∷ ss)
      → (base : Snapshot) × (newest_at_most height (s ∷ ss) ≡ some base)
        × (s.height ≤ base.height)
        × (base.height ≤ height)
        × Saved base
  unfolding newest_at_most
  newest_at_most-found height low n s ss reach from =
      elim (Option-cases (newest_at_most height ss)) [
        | inl nothing ↦ (s, ground arith, omega arith, reach, from.0.2)
        | inr (base, found) ↦
            let (a, b, saved) = newest_at_most-some height (suc s.height) n ss base found from.1 in
            (base, ground arith, omega arith, b, saved)
      ]

  snapshots_to-above :
      (height low n : ℕ) (ss : List Snapshot)
      → height < low
      → SnapsFrom low n ss
      → snapshots_to height ss ≡ []
  unfolding snapshots_to
  snapshots_to-above height low n [] above from = refl
  snapshots_to-above height low n (s ∷ ss) above from =
      let later = snapshots_to-above height (suc s.height) n ss (omega (arith, from.0.0)) from.1 in
      let here : ltb height s.height ≡ true = ground (arith, from.0.0) in
      rw (later, here, snapshots_to) refl

  -- dropping the snapshots above a height keeps those at or below it
  pub snapshots_to-SnapsFrom :
      (height low n : ℕ) (s : Snapshot) (ss : List Snapshot)
      → s.height ≤ height
      → SnapsFrom low n (s ∷ ss)
      → (rest : List Snapshot) × (snapshots_to height (s ∷ ss) ≡ s ∷ rest)
        × SnapsFrom low height (s ∷ rest)
  unfolding snapshots_to
  snapshots_to-SnapsFrom height low n s [] reach from =
      let here : ltb height s.height ≡ false = ground arith in
      ([], rw here, ((from.0.0, reach, from.0.2), tt))
  snapshots_to-SnapsFrom height low n s (x ∷ ss) reach from =
      elim (Bool-cases (ltb height x.height)) [
        | inr within ↦
            let (rest, e, from') =
              snapshots_to-SnapsFrom height (suc s.height) n x ss (ground arith) from.1 in
            (x ∷ rest, rw (e, snapshots_to) refl, ((from.0.0, reach, from.0.2), from'))
        | inl beyond ↦
            let later =
              snapshots_to-above height x.height n (x ∷ ss) (ground arith)
                ((omega arith, from.1.0.1, from.1.0.2), from.1.1) in
            let here : ltb height s.height ≡ false = ground arith in
            ([], rw (later, here, snapshots_to) refl, ((from.0.0, reach, from.0.2), tt))
      ]
