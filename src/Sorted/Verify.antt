-- ===== src/Sorted/Verify.antt =====
-- sorted.rs: `verify_cohort` with `fringe`, and `resolve`.
use ztreexo.Prelude.{
  ℕ, zero, suc, ◌+◌, ◌-◌, ◌/◌, ◌%◌, ◌^◌, Bool, true, false, not, ◌&&◌, ◌||◌, List, [], ◌∷◌, map,
  length, get_elem?, Option, none, some, Result, ok, err, ◌>>=◌, ◌>>◌, refuse_if, ok_or, ltb, leb,
  ◌==◌, if◌then◌else◌,
}
use ztreexo.Imt.Types.{Value, value_zero, u64_max}
use ztreexo.Cohort.{
  CohortError, PrefixRange, Status, invalid_prefix_bits, root_mismatch, unordered_leaves,
  leaf_out_of_range, unsorted_values, spent, unspent, contains,
}
use ztreexo.Sorted.Types.{SortedHash, SortedCohort, max_sorted_depth}
use ztreexo.Sorted.Build.{ascending}
use ztreexo.Sorted.Prove.{partition_point}

-- `first().copied().unwrap_or(..)`
abbrev pub first_or {ℓ} : {A : Type ℓ} → A → List A → A
first_or a [] = a
first_or a (x ∷ xs) = x

-- `last().is_some_and(|last| *last >= hi)`
unfoldable pub last_reaches : Value → List Value → Bool
last_reaches hi [] = false
last_reaches hi (v ∷ []) = leb hi v
last_reaches hi (v ∷ w ∷ vs) = last_reaches hi (w ∷ vs)

abbrev pub past_hi : Option Value → List Value → Bool
past_hi none values = true
past_hi (some hi) values = last_reaches hi values

abbrev pub is_empty {ℓ} : {A : Type ℓ} → List A → Bool
is_empty [] = true
is_empty (x ∷ xs) = false

module _ {Hash : Type 0} (h : SortedHash Hash) (cohort : SortedCohort Hash) where
  -- a supplied sibling, or the pad
  unfoldable pub fringe : ℕ → ℕ → Hash
  fringe level index = elim (cohort.siblings level index) [
    | none ↦ h.sorted_pad_leaf cohort.pool
    | some hash ↦ hash
  ]

  -- the inner loop: pairs from an even `cursor`, the last node with its right sibling
  unfoldable pub fold_pairs : ℕ → ℕ → List Hash → List Hash
  fold_pairs level cursor [] = []
  fold_pairs level cursor (left ∷ []) =
      h.sorted_node cohort.pool left (fringe level (cursor + 1)) ∷ []
  fold_pairs level cursor (left ∷ right ∷ nodes) =
      h.sorted_node cohort.pool left right ∷ fold_pairs level (cursor + 2) nodes

  -- one level: an odd start takes its left sibling first
  unfoldable pub fold_level : ℕ → ℕ → List Hash → List Hash
  fold_level level index [] = []
  fold_level level index (node ∷ nodes) =
      if index % 2 == 1
      then h.sorted_node cohort.pool (fringe level (index - 1)) node
        ∷ fold_pairs level (index + 1) nodes
      else fold_pairs level index (node ∷ nodes)

  -- the levels from `level`, `n` of them
  unfoldable pub fold_run : ℕ → ℕ → ℕ → List Hash → List Hash
  fold_run zero level index nodes = nodes
  fold_run (suc n) level index nodes =
      fold_run n (suc level) (index / 2) (fold_level level index nodes)

  unfoldable pub check_shape : Result (CohortError Hash) (Unit {0})
  check_shape = do
    refuse_if (ltb max_sorted_depth cohort.depth)
        (invalid_prefix_bits cohort.depth max_sorted_depth)
    refuse_if (is_empty cohort.values) unsorted_values
    let end = cohort.start_index + length cohort.values
    refuse_if (ltb u64_max end) unordered_leaves
    refuse_if (ltb (2 ^ cohort.depth) end || ltb (2 ^ cohort.depth) cohort.leaf_count)
        unordered_leaves
    refuse_if (not (ascending cohort.values)) unsorted_values

  unfoldable pub check_span : Result (CohortError Hash) (Unit {0})
  check_span = do
    refuse_if
        (contains cohort.range (first_or value_zero cohort.values) && not (cohort.start_index == 0))
        leaf_out_of_range
    refuse_if
        (not (leb cohort.leaf_count (cohort.start_index + length cohort.values))
          && not (past_hi cohort.range.hi cohort.values))
        leaf_out_of_range

  unfoldable pub check_root : Hash → List Hash → Result (CohortError Hash) (Unit {0})
  check_root root [] = err root_mismatch
  check_root root (computed ∷ _) = refuse_if (not (h.beq computed root)) root_mismatch

  unfoldable pub verify_cohort : Hash → Result (CohortError Hash) (List Value)
  verify_cohort root = do
    check_shape
    check_span
    check_root root
        (fold_run cohort.depth 0 cohort.start_index (map (h.sorted_leaf cohort.pool) cohort.values))
    ok cohort.values

-- `values.binary_search(&value)`, which on ascending values finds the value at its partition point
unfoldable pub binary_search : List Value → Value → Result ℕ ℕ
binary_search values value =
    let position = partition_point value values in
    elim (get_elem? values position) [
      | none ↦ err position
      | some v ↦ if v == value then ok position else err position
    ]

abbrev pub value_or_zero : Option Value → Value
value_or_zero none = value_zero
value_or_zero (some v) = v

-- `position.checked_sub(1)`, then `values.get(i)`
abbrev pub before : ℕ → List Value → Option Value
before zero values = none
before (suc i) values = get_elem? values i

module _ {Hash : Type 0} where
  unfoldable pub resolve : List Value → PrefixRange → Value → Result (CohortError Hash) Status
  unfolding binary_search
  resolve values range value = do
    refuse_if (not (contains range value)) leaf_out_of_range
    elim (binary_search values value) [
      | ok position ↦ ok spent
      | err position ↦ do
        below ← ok_or (before position values) leaf_out_of_range
        let above = get_elem? values position
        ok (unspent (record { value = below; next_value = value_or_zero above; next_index = 0 }))
    ]
