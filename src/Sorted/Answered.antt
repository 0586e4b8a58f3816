-- ===== src/Sorted/Answered.antt =====
-- sorted.rs: a bridge's own cohort is accepted, and answers for every value of its range.
use ztreexo.Prelude.{
  zero, suc, ◌+◌, ◌≤◌, ◌<◌, ◌≡◌, inl, inr, true, length, get_elem?, get_elem?_of_lt, some, ok,
  arith, refl, sym, ap, ◌∙◌, ◌==◌, Bool-cases, Result-cases,
}
use ztreexo.Imt.Types.{Value}
use ztreexo.Cohort.{PrefixRange, Status, spent, unspent, contains}
use ztreexo.Sorted.Types.{SortedHash, SortedTree, SortedCohort}
use ztreexo.Sorted.Build.{root}
use ztreexo.Sorted.Prove.{partition_point, slice, span_start, span_end, prove_prefix_cohort}
use ztreexo.Sorted.Verify.{verify_cohort, resolve, binary_search, value_or_zero}
use ztreexo.Sorted.Snapshot.{IsSnapshot}
use ztreexo.Sorted.Order.{
  partition_point-below, partition_point-above, partition_point-le, binary_search-missing,
}
use ztreexo.Sorted.Complete.{run_cohort}
use ztreexo.Sorted.Span.{
  span_proper, span_headed, span_reaching, span_values, span_values-get_elem?,
}
use ztreexo.Sorted.Honest.{run_verified, run_span}

module _ {Hash : Type 0} (h : SortedHash Hash) (t : SortedTree Hash) (snapshot : IsSnapshot h t)
    (range : PrefixRange) where
  -- the cohort that the snapshot returns for the range
  abbrev pub span_cohort : SortedCohort Hash
  span_cohort =
      run_cohort h t range (length t.values) (span_start t.values range) (span_end t.values range)

  occupied : 1 ≤ length t.values
  occupied = let (rest, e) = snapshot.starts in ground (arith, ap length e)

  proved : prove_prefix_cohort h t range ≡ ok span_cohort
  unfolding prove_prefix_cohort slice
  proved = let (proper, inside) = span_proper t.values range occupied in ground arith

  verified : verify_cohort h span_cohort (root h t) ≡ ok span_cohort.values
  verified =
      let (proper, inside) = span_proper t.values range occupied in
      let start = span_start t.values range in
      let end = span_end t.values range in
      run_verified h t snapshot range (length t.values) start end proper inside snapshot.room (
        run_span h t snapshot range (length t.values) start end proper inside
          (span_headed t.values range occupied)
          (span_reaching t.values range occupied snapshot.ordered))

  contains-lo_le : (value : Value) → contains range value ≡ true → range.lo ≤ value
  unfolding contains
  contains-lo_le value within = ground arith

  -- the first value of the span is at most every value of the range
  first_low :
      (value : Value)
      → contains range value ≡ true
      → (first : Value) × (get_elem? (span_values t.values range occupied) 0 ≡ some first)
        × (first ≤ value)
  first_low value within =
      let (proper, inside) = span_proper t.values range occupied in
      let start = span_start t.values range in
      let (first, found) = get_elem?_of_lt t.values start (omega arith) in
      let shift : start + 0 ≡ start = omega arith in
      let head : get_elem? (span_values t.values range occupied) 0 ≡ some first =
        span_values-get_elem? t.values range occupied 0 (omega arith) ∙ rw shift found in
      (
        first,
        head,
        elim (Bool-cases (start == 0)) [
          | inl at_sentinel ↦
              let (rest, e) = snapshot.starts in
              let zeroth : get_elem? t.values 0 ≡ some 0 = ap (λ xs. get_elem? xs 0) e in
              let same : some first ≡ some 0 =
                sym found ∙ ap (get_elem? t.values) (ground arith) ∙ zeroth in
              ground arith
          | inr later ↦
              let start_lt : start < partition_point range.lo t.values =
                unfold span_start in ground arith in
              let below = partition_point-below range.lo t.values start found start_lt in
              let low = contains-lo_le value within in omega arith
        ],
      )

  answered :
      (value : Value)
      → contains range value ≡ true
      → (status : Status) × (resolve {Hash = Hash} span_cohort.values range value ≡ ok status)
  unfolding resolve
  answered value within =
      let values = span_cohort.values in
      elim (Result-cases (binary_search values value)) [
        | inl (position, found) ↦ (spent, rw (within, found) refl)
        | inr (zero, failed) ↦
            let (first, head, low) = first_low value within in
            let (place, apart) = binary_search-missing values value failed in
            let high : value ≤ first = partition_point-above value values (rw (← place) head) in
            absurd (apart (head ∙ ap some (omega arith)))
        | inr (suc p, failed) ↦
            let (place, apart) = binary_search-missing values value failed in
            let size = partition_point-le value values in
            let (below, at) = get_elem?_of_lt values p (omega arith) in
            (
              unspent (record {
                value = below;
                next_value = value_or_zero (get_elem? values (suc p));
                next_index = 0;
              }),
              rw (within, failed, at) refl,
            )
      ]

  -- The cohort that a snapshot returns for a prefix range is accepted at the snapshot's root, with its
  -- values, and they settle each value of the range.
  pub prove_prefix_cohort_answers :
      (value : Value)
      → contains range value ≡ true
      → (cohort : SortedCohort Hash) × (status : Status) × (prove_prefix_cohort h t range
          ≡ ok cohort)
        × (verify_cohort h cohort (root h t) ≡ ok cohort.values)
        × (resolve {Hash = Hash} cohort.values range value ≡ ok status)
  prove_prefix_cohort_answers value within =
      let (status, settled) = answered value within in
      (span_cohort, status, proved, verified, settled)
