-- ===== src/Rollback/Runs.antt =====
-- rollback.rs: the deltas of a journal are those of consecutive heights.
use ztreexo.Prelude.{
  ℕ, zero, suc, ◌+◌, ◌-◌, ◌≤◌, ◌<◌, ◌≡◌, inl, inr, true, false, List, [], ◌∷◌, ◌++◌, some, arith,
  refl, sym, ap, ◌∙◌, Bool-cases, leb, ltb, ◌==◌,
}
use ztreexo.Chain.Accumulators.{StateDelta}
use ztreexo.Rollback.Journal.{drop_covered, last_of}
use ztreexo.Rollback.Replay.{delta_for}
use ztreexo.Rollback.RollbackTo.{deltas_above, deltas_to}

module _ {Hash : Type 0} where
  deltas_to-keep :
      (height : ℕ) (d : StateDelta Hash) (rest kept : List (StateDelta Hash))
      → deltas_to height rest ≡ kept
      → ltb height d.height ≡ false
      → deltas_to height (d ∷ rest) ≡ d ∷ kept
  unfolding deltas_to
  deltas_to-keep height d rest [] e low = rw (e, low, deltas_to) refl
  deltas_to-keep height d rest (k ∷ kept) e low = rw (e, deltas_to) refl

  deltas_to-drop :
      (height : ℕ) (d : StateDelta Hash) (rest : List (StateDelta Hash))
      → deltas_to height rest ≡ []
      → ltb height d.height ≡ true
      → deltas_to height (d ∷ rest) ≡ []
  unfolding deltas_to
  deltas_to-drop height d rest e high = rw (e, high, deltas_to) refl

module _ {Hash : Type 0} (delta_at : ℕ → StateDelta Hash) where
  -- the deltas of `count` heights from `low`
  abbrev pub delta_run : ℕ → ℕ → List (StateDelta Hash)
  delta_run low zero = []
  delta_run low (suc count) = delta_at low ∷ delta_run (suc low) count

  pub delta_run-snoc :
      (low count : ℕ)
      → delta_run low count ++ delta_at (low + count) ∷ [] ≡ delta_run low (suc count)
  delta_run-snoc low zero = ap (λ (n : ℕ). delta_at n ∷ []) (omega arith)
  delta_run-snoc low (suc count) =
      let shift : low + suc count ≡ suc low + count = omega arith in
      ap (λ ds. delta_at low ∷ ds)
        (ap (λ (n : ℕ). delta_run (suc low) count ++ delta_at n ∷ []) shift
          ∙ delta_run-snoc (suc low) count)

  module _ (numbered : (n : ℕ) → (delta_at n).height ≡ n) where
    pub last_of-delta_run :
        (low count : ℕ)
        → (d : StateDelta Hash) × (last_of (delta_run low (suc count)) ≡ some d)
          × (d.height ≡ low + count)
    last_of-delta_run low zero = (delta_at low, refl, numbered low ∙ omega arith)
    last_of-delta_run low (suc count) =
        let (d, e, height) = last_of-delta_run (suc low) count in (d, e, height ∙ omega arith)

    -- dropping what a snapshot covers leaves the deltas from some height on, at most one above it
    pub drop_covered-delta_run :
        (oldest low count : ℕ)
        → low ≤ suc oldest
        → (low' : ℕ) × (count' : ℕ) × (drop_covered oldest (delta_run low count)
            ≡ delta_run low' count')
          × (low' + count' ≡ low + count)
          × (low' ≤ suc oldest)
    unfolding drop_covered
    drop_covered-delta_run oldest low zero fits = (low, zero, refl, refl, fits)
    drop_covered-delta_run oldest low (suc count) fits =
        elim (Bool-cases (leb (delta_at low).height oldest)) [
          | inl covered ↦
              let lower : suc low ≤ suc oldest = ground (arith, numbered low) in
              let (low', count', e, total, fits') =
                drop_covered-delta_run oldest (suc low) count lower in
              (low', count', rw covered e, omega arith, fits')
          | inr above ↦ (low, suc count, rw above, refl, fits)
        ]

    deltas_above-all :
        (height low count : ℕ)
        → height < low
        → deltas_above height (delta_run low count) ≡ delta_run low count
    unfolding deltas_above
    deltas_above-all height low zero above = refl
    deltas_above-all height low (suc count) above =
        let here : ltb height (delta_at low).height ≡ true = ground (arith, numbered low) in
        rw here
          (ap (λ ds. delta_at low ∷ ds) (deltas_above-all height (suc low) count (omega arith)))

    pub deltas_above-delta_run :
        (height low count n : ℕ)
        → low ≤ suc height
        → low + count ≡ suc n
        → height ≤ n
        → deltas_above height (delta_run low count) ≡ delta_run (suc height) (n - height)
    unfolding deltas_above
    deltas_above-delta_run height low zero n fits total reach =
        let none_left : n - height ≡ 0 = omega arith in rw none_left
    deltas_above-delta_run height low (suc count) n fits total reach =
        elim (Bool-cases (ltb height low)) [
          | inl above ↦
              let start : low ≡ suc height = ground arith in
              let left : n - height ≡ suc count = omega arith in
              deltas_above-all height low (suc count) (omega arith)
              ∙ ap (λ (k : ℕ). delta_run k (suc count)) start
              ∙ ap (delta_run (suc height)) (sym left)
          | inr within ↦
              let here : ltb height (delta_at low).height ≡ false = ground (arith, numbered low) in
              rw here
                (deltas_above-delta_run height (suc low) count n (ground arith) (omega arith) reach)
        ]

    pub delta_for-delta_run :
        (step low count : ℕ)
        → low ≤ step
        → step < low + count
        → delta_for step (delta_run low count) ≡ some (delta_at step)
    unfolding delta_for
    delta_for-delta_run step low zero a b = absurd (omega arith)
    delta_for-delta_run step low (suc count) a b =
        elim (Bool-cases ((delta_at low).height == step)) [
          | inl here ↦ rw here (ap (λ (n : ℕ). some (delta_at n)) (ground (arith, numbered low)))
          | inr other ↦ rw other (
              delta_for-delta_run step (suc low) count (ground (arith, numbered low)) (omega arith))
        ]

    deltas_to-above :
        (height low count : ℕ) → height < low → deltas_to height (delta_run low count) ≡ []
    deltas_to-above height low zero above = unfold deltas_to in refl
    deltas_to-above height low (suc count) above =
        deltas_to-drop height (delta_at low) (delta_run (suc low) count)
          (deltas_to-above height (suc low) count (omega arith)) (ground (arith, numbered low))

    pub deltas_to-delta_run :
        (height low count : ℕ)
        → low ≤ suc height
        → suc height ≤ low + count
        → deltas_to height (delta_run low count) ≡ delta_run low (suc height - low)
    deltas_to-delta_run height low zero a b =
        let none_left : suc height - low ≡ 0 = omega arith in
        rw none_left (unfold deltas_to in refl)
    deltas_to-delta_run height low (suc count) a b = elim (Bool-cases (ltb height low)) [
      | inl above ↦
          let none_left : suc height - low ≡ 0 = ground arith in
          rw none_left (deltas_to-above height low (suc count) (ground arith))
      | inr within ↦
          let more : suc height - low ≡ suc (suc height - suc low) = ground arith in
          rw more (
            deltas_to-keep height (delta_at low) (delta_run (suc low) count)
              (delta_run (suc low) (suc height - suc low))
              (deltas_to-delta_run height (suc low) count (ground arith) (omega arith))
              (ground (arith, numbered low)))
    ]
