-- ===== src/Sorted/Examples.antt =====
-- Runs of sorted.rs, and its theorems, over a small snapshot and a hash that keeps its input.
use ztreexo.Prelude.{
  ℕ, ◌≡◌, ◌↔◌, ◌⊎◌, ◌≤◌, ◌<◌, ◌^◌, Bool, true, false, ◌&&◌, List, [], ◌∷◌, some, ok, err, inl,
  arith, refl, length, ◌==◌,
}
use ztreexo.Pool.{orchard, code}
use ztreexo.Imt.Types.{Value, value_zero, Leaf}
use ztreexo.Cohort.{
  PrefixRange, Status, spent, unspent, contains, unsorted_values, invalid_prefix_bits,
}
use ztreexo.Sorted.Types.{SortedHash, SortedTree, SortedCohort, SortedCollision, max_sorted_depth}
use ztreexo.Sorted.Build
use ztreexo.Sorted.Prove
use ztreexo.Sorted.Verify
use ztreexo.Sorted.Snapshot.{IsSnapshot, AllValues, built-IsSnapshot, from_sorted_values_outcome}
use ztreexo.Sorted.Settled.{Settles, verify_cohort-Settles}
use ztreexo.Sorted.Run.{RunOf, verify_cohort_authentic}
use ztreexo.Sorted.Honest.{verify_cohort_truncated}
use ztreexo.Sorted.Answered.{prove_prefix_cohort_answers}
use ztreexo.Sorted.Complete.{run_cohort, run_values}
use ztreexo.Sorted.Depth.{depth_for_outcome}

data Term : Type 0 where
  zeroes : Term
  pad : ℕ → Term
  leaf : ℕ → ℕ → Term
  node : ℕ → Term → Term → Term

term_beq : Term → Term → Bool
term_beq zeroes zeroes = true
term_beq (pad p) (pad q) = p == q
term_beq (leaf p v) (leaf q w) = p == q && v == w
term_beq (node p a b) (node q c d) = p == q && (term_beq a c && term_beq b d)
term_beq _ _ = false

term_beq_iff : (a b : Term) → (term_beq a b ≡ true) ↔ (a ≡ b)
unfolding term_beq
term_beq_iff zeroes zeroes = ((λ _. refl), (λ _. refl))
term_beq_iff (pad p) (pad q) = ((λ e. ground arith), (λ e. ground arith))
term_beq_iff (leaf p v) (leaf q w) = ((λ e. ground arith), (λ e. ground arith))
term_beq_iff (node p a b) (node q c d) =
    let l = term_beq_iff a c in
    let r = term_beq_iff b d in ((λ e. ground (arith, l.0, r.0)), (λ e. ground (arith, l.1, r.1)))
term_beq_iff a b = ((λ e. ground arith), (λ e. ground arith))

term_hash : SortedHash Term
unfolding code term_beq
term_hash = record {
  sorted_leaf = λ p v. leaf (code p) v;
  sorted_pad_leaf = λ p. pad (code p);
  sorted_node = λ p a b. node (code p) a b;
  zero_hash = zeroes;
  beq = term_beq;
  beq_iff = term_beq_iff;
}

-- the sentinel and five values, at depth 3
abbrev five : List Value
five = 0 ∷ 3 ∷ 5 ∷ 8 ∷ 9 ∷ 12 ∷ []

abbrev given : List Value
given = 3 ∷ 5 ∷ 8 ∷ 9 ∷ 12 ∷ []

abbrev snapshot : SortedTree Term
snapshot = record {
  pool = orchard;
  height = 100;
  depth = 3;
  values = five;
  levels = Build.levels_from term_hash orchard 3 (Build.bottom_level term_hash orchard 8 five);
}

snapshot_run : Build.from_sorted_values term_hash orchard 100 given ≡ ok snapshot
unfolding Build.from_sorted_values Build.with_sentinel Build.ascending Build.depth_for
    Build.depth_loop
snapshot_run = refl

snapshot-IsSnapshot : IsSnapshot term_hash snapshot
unfolding Build.with_sentinel Build.ascending
snapshot-IsSnapshot =
    built-IsSnapshot term_hash orchard 100 given 3 refl (omega arith) (omega arith)

five-AllValues : AllValues five
five-AllValues = omega arith

abbrev middle : PrefixRange
middle = record { lo = 4; hi = some 8; bits = 4 }

-- what `prove_prefix_cohort` returns for `middle`
abbrev cohort : SortedCohort Term
cohort = run_cohort term_hash snapshot middle 6 1 4

abbrev run : List Value
run = 3 ∷ 5 ∷ 8 ∷ []

run-AllValues : AllValues run
run-AllValues = omega arith

proved_run : Prove.prove_prefix_cohort term_hash snapshot middle ≡ ok cohort
unfolding Prove.prove_prefix_cohort Prove.slice Prove.span_start Prove.span_end
    Prove.partition_point
proved_run = refl

accepted_run : Verify.verify_cohort term_hash cohort (Build.root term_hash snapshot) ≡ ok run
unfolding Verify.verify_cohort Verify.check_shape Verify.check_span Verify.check_root
    Verify.fold_run Verify.fold_level Verify.fold_pairs Verify.fringe Prove.range_siblings
    Prove.sibling_loop Prove.edge_siblings Prove.node_at Build.root Build.top Build.levels_from
    Build.parents_of Build.ascending Verify.last_reaches contains term_hash
accepted_run = refl

spent_run : Verify.resolve {Hash = Term} run middle 5 ≡ ok spent
unfolding Verify.resolve Verify.binary_search Prove.partition_point contains
spent_run = refl

abbrev gap : Leaf
gap = record { value = 5; next_value = 8; next_index = 0 }

unspent_run : Verify.resolve {Hash = Term} run middle 6 ≡ ok (unspent gap)
unfolding Verify.resolve Verify.binary_search Prove.partition_point contains
unspent_run = refl

verify_cohort_authentic_example :
    SortedCollision term_hash cohort.pool ⊎ ((run ≡ cohort.values) × RunOf five 1 run)
verify_cohort_authentic_example =
    verify_cohort_authentic term_hash snapshot snapshot-IsSnapshot cohort run five-AllValues
      run-AllValues refl refl accepted_run

verify_cohort-Settles_example : SortedCollision term_hash cohort.pool ⊎ Settles five 6 (unspent gap)
verify_cohort-Settles_example =
    verify_cohort-Settles term_hash snapshot snapshot-IsSnapshot cohort run 6 8 (unspent gap)
      five-AllValues run-AllValues refl refl refl refl accepted_run unspent_run

six_in_middle : contains middle 6 ≡ true
unfolding contains
six_in_middle = refl

prove_prefix_cohort_answers_example :
    (c : SortedCohort Term) × (status : Status) × (Prove.prove_prefix_cohort term_hash snapshot
        middle
      ≡ ok c)
    × (Verify.verify_cohort term_hash c (Build.root term_hash snapshot) ≡ ok c.values)
    × (Verify.resolve {Hash = Term} c.values middle 6 ≡ ok status)
prove_prefix_cohort_answers_example =
    prove_prefix_cohort_answers term_hash snapshot snapshot-IsSnapshot middle 6 six_in_middle

-- a wider range, for which a bridge leaves 9 out and states that the snapshot ends after 8
abbrev wide : PrefixRange
wide = record { lo = 4; hi = some 12; bits = 4 }

three_below_wide :
    contains wide (Verify.first_or value_zero (run_values snapshot.values 1 4)) ≡ false
unfolding contains
three_below_wide = refl

verify_cohort_truncated_example :
    Verify.verify_cohort term_hash
      (run_cohort term_hash snapshot wide 4 1 4)
      (Build.root term_hash snapshot)
    ≡ ok (run_values snapshot.values 1 4)
verify_cohort_truncated_example =
    verify_cohort_truncated term_hash snapshot snapshot-IsSnapshot wide 4 1 4 (omega arith)
      (omega arith) (inl three_below_wide) (inl refl)

-- 9 is in the snapshot, and that cohort reports it unspent
omitted_run :
    Verify.resolve {Hash = Term} (run_values snapshot.values 1 4) wide 9
    ≡ ok (unspent (record { value = 8; next_value = 0; next_index = 0 }))
unfolding Verify.resolve Verify.binary_search Prove.partition_point contains
omitted_run = refl

depth_for_outcome_example :
    ((d : ℕ) × (Build.depth_for {Hash = Term} 6 ≡ ok d)
      × (d ≤ max_sorted_depth)
      × (6 ≤ 2 ^ d)
      × ((e : ℕ) → e < d → 2 ^ e < 6))
    ⊎ ((Build.depth_for {Hash = Term} 6 ≡ err (invalid_prefix_bits 33 max_sorted_depth))
        × (2 ^ max_sorted_depth < 6))
depth_for_outcome_example = depth_for_outcome {Hash = Term} 6

from_sorted_values_outcome_example :
    ((Build.ascending (Build.with_sentinel given) ≡ false)
      × (Build.from_sorted_values term_hash orchard 100 given ≡ err unsorted_values))
    ⊎ (((2 ^ max_sorted_depth < length (Build.with_sentinel given))
          × (Build.from_sorted_values term_hash orchard 100 given
              ≡ err (invalid_prefix_bits 33 max_sorted_depth)))
        ⊎ ((t : SortedTree Term) × (Build.from_sorted_values term_hash orchard 100 given ≡ ok t)
            × IsSnapshot term_hash t
            × (t.values ≡ Build.with_sentinel given)
            × (t.pool ≡ orchard)
            × (t.height ≡ 100)))
from_sorted_values_outcome_example = from_sorted_values_outcome term_hash orchard 100 given
