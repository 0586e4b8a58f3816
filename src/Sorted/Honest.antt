-- ===== src/Sorted/Honest.antt =====
-- sorted.rs: `prove_prefix_cohort` against `verify_cohort` and `resolve`, and runs that stop short.
use ztreexo.Prelude.{
  ℕ, ◌^◌, ◌≤◌, ◌<◌, ◌≡◌, ◌⊎◌, inl, inr, true, false, List, [], ◌∷◌, length, none, ok, arith, refl,
}
use native.Mathlib.Nat.{pow-le-pow_right}
use ztreexo.Imt.Types.{Value, value_zero}
use ztreexo.Cohort.{PrefixRange, contains}
use ztreexo.Sorted.Types.{SortedHash, SortedTree, SortedCohort}
use ztreexo.Sorted.Build.{root}
use ztreexo.Sorted.Verify.{
  first_or, past_hi, check_shape, check_span, check_root, verify_cohort, is_empty,
}
use ztreexo.Sorted.Snapshot.{IsSnapshot}
use ztreexo.Sorted.Complete.{
  run_values, run_cohort, run_folds, length-run_values, ascending-run_values,
}

is_empty-length : (values : List Value) → 1 ≤ length values → is_empty values ≡ false
is_empty-length [] h = absurd (omega arith)
is_empty-length (v ∷ vs) h = refl

module _ {Hash : Type 0} (h : SortedHash Hash) (t : SortedTree Hash) (snapshot : IsSnapshot h t)
    (range : PrefixRange) (leaf_count start end : ℕ) (proper : start < end)
    (inside : end ≤ length t.values) where
  abbrev pub claimed : SortedCohort Hash
  claimed = run_cohort h t range leaf_count start end

  run_shape : leaf_count ≤ 2 ^ t.depth → check_shape h claimed ≡ ok tt
  unfolding check_shape
  run_shape counted =
      let size = length-run_values t.values start end (omega arith) inside in
      let small : 2 ^ t.depth ≤ 4294967296 =
        pow-le-pow_right {n = 2} (omega arith) snapshot.depth_max in
      ground (
        arith,
        is_empty-length claimed.values,
        ascending-run_values t.values start end snapshot.ordered,
        snapshot.room,
        snapshot.depth_max,
      )

  run_root : check_root h claimed (root h t) (root h t ∷ []) ≡ ok tt
  unfolding check_root
  run_root = ground (arith, h.beq_iff (root h t) (root h t))

  -- beyond the span check, nothing stands in the way of a run
  pub run_verified :
      leaf_count ≤ 2 ^ t.depth
      → check_span h claimed ≡ ok tt
      → verify_cohort h claimed (root h t) ≡ ok claimed.values
  unfolding verify_cohort
  run_verified counted spanned =
      rw
        (
          run_shape counted,
          spanned,
          run_folds h t snapshot range leaf_count start end proper inside,
          run_root,
        )
        refl

  pub run_span :
      (contains range (first_or value_zero claimed.values) ≡ false) ⊎ (start ≡ 0)
      → (leaf_count ≤ end) ⊎ (past_hi range.hi claimed.values ≡ true)
      → check_span h claimed ≡ ok tt
  unfolding check_span
  run_span headed reaching =
      let size = length-run_values t.values start end (omega arith) inside in
      ground (arith, headed, reaching)

-- Completeness rests on the leaf count that the bridge states, and on an upper bound of the range.
-- Take a non-empty run of a snapshot's values that starts at the first slot, or at a value outside the range, as
-- the value just below it, and that stops anywhere. It is accepted at the snapshot's root, whatever
-- values of the range come after it, if the stated leaf count is where the run ends; and it is
-- accepted with the true leaf count if the range has no upper bound.
pub verify_cohort_truncated :
    {Hash : Type 0} (h : SortedHash Hash) (t : SortedTree Hash)
    → IsSnapshot h t
    → (range : PrefixRange) (leaf_count start end : ℕ) → start < end
    → end ≤ length t.values
    → (contains range (first_or value_zero (run_values t.values start end)) ≡ false) ⊎ (start ≡ 0)
    → (leaf_count ≡ end) ⊎ ((range.hi ≡ none) × (leaf_count ≡ length t.values))
    → verify_cohort h (run_cohort h t range leaf_count start end) (root h t)
      ≡ ok (run_values t.values start end)
verify_cohort_truncated h t snapshot range leaf_count start end proper inside headed (inl stated) =
    let room = snapshot.room in
    run_verified h t snapshot range leaf_count start end proper inside (omega arith)
      (run_span h t snapshot range leaf_count start end proper inside headed (inl (omega arith)))
verify_cohort_truncated h t snapshot range leaf_count start end proper inside headed
      (inr (open_end, true_count)) =
    let room = snapshot.room in
    run_verified h t snapshot range leaf_count start end proper inside (omega arith)
      (run_span h t snapshot range leaf_count start end proper inside headed (inr (rw open_end)))
